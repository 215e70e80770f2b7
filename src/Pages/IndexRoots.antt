-- ===== src/Pages/IndexRoots.antt =====
-- page/index_roots_page.cpp and include/page/index_roots_page.h: the page that maps the indexes' ids
-- to their roots. `roots` is the array behind the counter up to the end of the page, 511 pairs; what
-- stands behind the first `count` of them is stale.
pub mod Entries
pub mod View
pub mod Calls
use wslproject.Base.{
  ℕ, zero, suc, ◌+◌, ◌-◌, ◌*◌, ◌/◌, Bool, true, false, List, [], ◌∷◌, Option, none, some, Result,
  ok, err, out_of_bounds, ◌==◌, ltb, if◌then◌else◌, length, get_elem?, get_or, set,
}

pub record IndexRootsPage : Type 0 where
  pub count : ℕ
  pub roots : List (ℕ × ℕ)

abbrev pub max_index_count : ℕ
max_index_count = (4096 - 4) / 8

-- Init
abbrev pub init : IndexRootsPage → IndexRootsPage
init p = record p { count = 0 }

-- The loop of FindIndex, with `k` rounds left at entry `i`; `none` is -1.
unfoldable pub find_from : ℕ → ℕ → List (ℕ × ℕ) → ℕ → Option ℕ
find_from i zero l index_id = none
find_from i (suc k) [] index_id = none
find_from i (suc k) (r ∷ l) index_id =
    let rest = find_from (suc i) k l index_id in if r.0 == index_id then some i else rest

-- FindIndex
abbrev pub find_index : IndexRootsPage → ℕ → Option ℕ
find_index p index_id = find_from 0 p.count p.roots index_id

-- Insert. The array is written past its end if it is full.
unfoldable pub insert : IndexRootsPage → ℕ → ℕ → Result (IndexRootsPage × Bool)
unfolding find_from
insert p index_id root_id = elim (find_index p index_id) [
  | some index ↦ ok (p, false)
  | none ↦
      if ltb p.count (length p.roots)
      then ok
          (record { count = p.count + 1; roots = set p.roots p.count (index_id, root_id) }, true)
      else err out_of_bounds
]

-- `for (i = index; i < count_ - 1; i++) roots_[i] = roots_[i + 1];`, with `k` rounds left
unfoldable pub shift_from : ℕ → ℕ → List (ℕ × ℕ) → List (ℕ × ℕ)
shift_from i zero l = l
shift_from i (suc k) l = shift_from (suc i) k (set l i (get_or l (suc i) (0, 0)))

-- Delete
unfoldable pub delete : IndexRootsPage → ℕ → IndexRootsPage × Bool
unfolding find_from shift_from
delete p index_id = elim (find_index p index_id) [
  | none ↦ (p, false)
  | some index ↦
      (record { count = p.count - 1; roots = shift_from index (p.count - 1 - index) p.roots }, true)
]

-- `roots_[index].second = root_id;`
abbrev pub set_second : List (ℕ × ℕ) → ℕ → ℕ → List (ℕ × ℕ)
set_second l i v = set l i ((get_or l i (0, 0)).0, v)

-- Update
unfoldable pub update : IndexRootsPage → ℕ → ℕ → IndexRootsPage × Bool
unfolding find_from
update p index_id root_id = elim (find_index p index_id) [
  | none ↦ (p, false)
  | some index ↦ (record p { roots = set_second p.roots index root_id }, true)
]

-- GetRootId: `none` is a false return, after which `*root_id` is untouched.
unfoldable pub get_root_id : IndexRootsPage → ℕ → Option ℕ
unfolding find_from
get_root_id p index_id = elim (find_index p index_id) [
  | none ↦ none
  | some index ↦ some (get_or p.roots index (0, 0)).1
]
