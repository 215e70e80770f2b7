-- ===== src/Buffer/Lru.antt =====
-- buffer/lru_replacer.cpp and include/buffer/lru_replacer.h: which frame to evict next.
-- The list's nodes are pairs of an address and the frame, the oldest first; an iterator of
-- `lru_table` is the address of a node. The latch is not modelled.
pub mod Order
pub mod Queue
use wslproject.Base.{
  ℕ, zero, suc, ◌+◌, List, [], ◌∷◌, ◌++◌, Option, none, some, Bool, ◌==◌, if◌then◌else◌, length,
}
use wslproject.Base.Assoc.{lookup, insert, erase}

pub record LruReplacer : Type 0 where
  pub lru_list : List (ℕ × ℕ)
  pub lru_table : List (ℕ × ℕ)
  pub next_node : ℕ

abbrev pub empty_replacer : LruReplacer
empty_replacer = record { lru_list = []; lru_table = []; next_node = 0 }

-- `lru_list_.erase` of an iterator
unfoldable pub erase_node : ℕ → List (ℕ × ℕ) → List (ℕ × ℕ)
erase_node node [] = []
erase_node node ((n, frame) ∷ rest) =
    let tail = erase_node node rest in if n == node then rest else (n, frame) ∷ tail

-- Victim
unfoldable pub victim_of : LruReplacer → List (ℕ × ℕ) → LruReplacer × Option ℕ
victim_of r [] = (r, none)
victim_of r ((node, frame) ∷ rest) =
    (record r { lru_list = rest; lru_table = erase frame r.lru_table }, some frame)

unfoldable pub victim : LruReplacer → LruReplacer × Option ℕ
victim r = victim_of r r.lru_list

-- Pin, and Unpin, with what the table has for the frame.
unfoldable pub pin_found : LruReplacer → ℕ → Option ℕ → LruReplacer
pin_found r frame_id none = r
pin_found r frame_id (some node) = record r {
  lru_list = erase_node node r.lru_list;
  lru_table = erase frame_id r.lru_table;
}

unfoldable pub pin : LruReplacer → ℕ → LruReplacer
pin r frame_id = pin_found r frame_id (lookup frame_id r.lru_table)

unfoldable pub unpin_found : LruReplacer → ℕ → Option ℕ → LruReplacer
unpin_found r frame_id (some node) = r
unpin_found r frame_id none = record {
  lru_list = r.lru_list ++ ((r.next_node, frame_id) ∷ []);
  lru_table = insert frame_id r.next_node r.lru_table;
  next_node = suc r.next_node;
}

unfoldable pub unpin : LruReplacer → ℕ → LruReplacer
unpin r frame_id = unpin_found r frame_id (lookup frame_id r.lru_table)

-- Size
abbrev pub size : LruReplacer → ℕ
size r = length r.lru_list
