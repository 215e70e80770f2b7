-- ===== src/Buffer/Lru/Queue.antt =====
-- The operations of the replacer against a queue of frames (buffer/lru_replacer.cpp).
use wslproject.Base.{
  ℕ, suc, ◌<◌, ◌≡◌, refl, sym, ap, ◌∙◌, List, [], ◌∷◌, ◌++◌, Option, none, some, if◌then◌else◌,
  length, All, arith, inl, inr, Option-cases,
}
use wslproject.Base.Assoc.{lookup, lookup-insert, lookup-erase}
use wslproject.Buffer.Lru.{
  LruReplacer, empty_replacer, victim, victim_of, pin, pin_found, unpin, unpin_found, size,
}
use wslproject.Buffer.Lru.Order.{
  IsValid, frames, frames_of, node_of, has, remove, Distinct, absent, has-node_of-none,
  has-node_of-some, remove_missing, All-erase_node, Distinct-erase_node, frames_of-erase_node,
  node_of-erase_node, frames_of-append, node_of-append, All-append_one, Distinct-append,
  empty_replacer-IsValid,
}

-- A queue of frames without repetition: what the replacer is meant to be.
unfoldable pub pop_front : List ℕ → List ℕ × Option ℕ
pop_front [] = ([], none)
pop_front (frame ∷ rest) = (rest, some frame)

unfoldable pub push_back : List ℕ → ℕ → List ℕ
unfolding has
push_back queue frame = if has frame queue then queue else queue ++ (frame ∷ [])

-- Victim takes the frame at the front.
pub victim_lem :
    (r : LruReplacer)
    → IsValid r
    → (frames (victim r).0 ≡ (pop_front (frames r)).0)
      × ((victim r).1 ≡ (pop_front (frames r)).1)
      × IsValid (victim r).0
unfolding victim victim_of pop_front Distinct node_of
victim_lem r v = victim_of_lem r.lru_list refl v.distinct v.fresh v.table
  where
    victim_of_lem :
        (l : List (ℕ × ℕ))
        → r.lru_list ≡ l
        → Distinct l
        → All (λ (m : ℕ × ℕ). m.0 < r.next_node) l
        → ((frame : ℕ) → lookup frame r.lru_table ≡ node_of frame l)
        → (frames (victim_of r l).0 ≡ (pop_front (frames_of l)).0)
          × ((victim_of r l).1 ≡ (pop_front (frames_of l)).1)
          × IsValid (victim_of r l).0
    victim_of_lem [] e d fresh t = (ap frames_of e, refl, v)
    victim_of_lem ((n, f) ∷ rest) e d fresh t = (
      refl,
      refl,
      record {
        distinct = d.1;
        fresh = fresh.1;
        table = λ g. rw (lookup-erase f g r.lru_table) (ground (arith, t g, absent n f rest d.0));
      },
    )

-- Pin takes its frame out of the queue.
pub pin_lem :
    (r : LruReplacer) (f : ℕ)
    → IsValid r
    → (frames (pin r f) ≡ remove f (frames r)) × IsValid (pin r f)
unfolding pin pin_found
pin_lem r f v = elim (Option-cases (lookup f r.lru_table)) [
  | inl none_yet ↦ rw none_yet (sym (remove_missing f r.lru_list (sym (v.table f) ∙ none_yet)), v)
  | inr (n, found) ↦
      let at : node_of f r.lru_list ≡ some n = sym (v.table f) ∙ found in
      rw found (
        frames_of-erase_node n f r.lru_list v.distinct at,
        record {
          distinct = Distinct-erase_node n r.lru_list v.distinct;
          fresh = All-erase_node _ n r.lru_list v.fresh;
          table = λ g.
              rw
                (
                  lookup-erase f g r.lru_table,
                  node_of-erase_node n f g r.lru_list v.distinct at,
                  v.table g,
                )
                refl;
        },
      )
]

-- Unpin puts its frame at the back, unless the queue has it.
pub unpin_lem :
    (r : LruReplacer) (f : ℕ)
    → IsValid r
    → (frames (unpin r f) ≡ push_back (frames r) f) × IsValid (unpin r f)
unfolding unpin unpin_found push_back
unpin_lem r f v = elim (Option-cases (lookup f r.lru_table)) [
  | inr (n, found) ↦
      let there = has-node_of-some f n r.lru_list (sym (v.table f) ∙ found) in
      rw (found, there) (refl, v)
  | inl none_yet ↦
      let missing : node_of f r.lru_list ≡ none = sym (v.table f) ∙ none_yet in
      rw (none_yet, has-node_of-none f r.lru_list missing)
        (
          frames_of-append r.next_node f r.lru_list,
          record {
            distinct = Distinct-append r.next_node f r.lru_list v.distinct v.fresh missing;
            fresh =
                All-append_one r.next_node f _ r.lru_list (later r.lru_list v.fresh) (omega arith);
            table = λ g.
                rw
                  (
                    lookup-insert f g r.next_node r.lru_table,
                    node_of-append r.next_node f g r.lru_list missing,
                    v.table g,
                  )
                  refl;
          },
        )
]
  where
    later :
        (l : List (ℕ × ℕ))
        → All (λ (m : ℕ × ℕ). m.0 < r.next_node) l
        → All (λ (m : ℕ × ℕ). m.0 < suc r.next_node) l
    later [] h = tt
    later (m ∷ rest) h = (omega (arith, h.0), later rest h.1)

-- The calls of a replacer, and what each answers.
pub data Call : Type 0 where
  victim_call : Call
  pin_call unpin_call : ℕ → Call
  size_call : Call

pub data Answer : Type 0 where
  evicted : Option ℕ → Answer
  nothing : Answer
  count : ℕ → Answer

unfoldable pub call : LruReplacer → Call → LruReplacer × Answer
call r victim_call = ((victim r).0, evicted (victim r).1)
call r (pin_call frame) = (pin r frame, nothing)
call r (unpin_call frame) = (unpin r frame, nothing)
call r size_call = (r, count (size r))

unfoldable pub call_queue : List ℕ → Call → List ℕ × Answer
call_queue q victim_call = ((pop_front q).0, evicted (pop_front q).1)
call_queue q (pin_call frame) = (remove frame q, nothing)
call_queue q (unpin_call frame) = (push_back q frame, nothing)
call_queue q size_call = (q, count (length q))

unfoldable pub run : LruReplacer → List Call → List Answer
run r [] = []
run r (c ∷ cs) = (call r c).1 ∷ run (call r c).0 cs

unfoldable pub run_queue : List ℕ → List Call → List Answer
run_queue q [] = []
run_queue q (c ∷ cs) = (call_queue q c).1 ∷ run_queue (call_queue q c).0 cs

size-frames : (l : List (ℕ × ℕ)) → length l ≡ length (frames_of l)
size-frames [] = refl
size-frames ((n, f) ∷ rest) = ap suc (size-frames rest)

-- One call of a valid replacer answers as the queue of its frames does, and its frames and the queue
-- still agree after it; it stays valid.
pub call-call_queue :
    (r : LruReplacer) (c : Call)
    → IsValid r
    → ((call r c).1 ≡ (call_queue (frames r) c).1)
      × (frames (call r c).0 ≡ (call_queue (frames r) c).0)
      × IsValid (call r c).0
unfolding call call_queue
call-call_queue r victim_call v = let h = victim_lem r v in (ap evicted h.1, h.0, h.2)
call-call_queue r (pin_call f) v = let h = pin_lem r f v in (refl, h.0, h.1)
call-call_queue r (unpin_call f) v = let h = unpin_lem r f v in (refl, h.0, h.1)
call-call_queue r size_call v = (ap count (size-frames r.lru_list), refl, v)

run-run_queue-from :
    (r : LruReplacer) (cs : List Call) → IsValid r → run r cs ≡ run_queue (frames r) cs
unfolding run run_queue
run-run_queue-from r [] v = refl
run-run_queue-from r (c ∷ cs) v =
    let (answer, after, v') = call-call_queue r c v in
    let rest = run-run_queue-from (call r c).0 cs v' in rw (answer, rest, after) refl

-- From an empty replacer on, every sequence of calls answers as the queue of distinct frames does.
pub run-run_queue : (cs : List Call) → run empty_replacer cs ≡ run_queue [] cs
run-run_queue cs = run-run_queue-from empty_replacer cs empty_replacer-IsValid
