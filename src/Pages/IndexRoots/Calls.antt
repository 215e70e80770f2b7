-- ===== src/Pages/IndexRoots/Calls.antt =====
-- The calls of the index roots page (page/index_roots_page.cpp), against a map.
use wslproject.Base.{
  ℕ, ◌≡◌, refl, ◌⊎◌, inl, inr, Bool, true, false, Option, none, some, Result, ok, err,
  out_of_bounds, ◌>>=◌, ◌==◌, if◌then◌else◌, length,
}
use wslproject.Pages.IndexRoots.{IndexRootsPage, insert, delete, update, get_root_id}
use wslproject.Pages.IndexRoots.View.{
  view, IsValid, insert-view, delete-view, update-view, get_root_id-view,
}

pub data Call : Type 0 where
  insert_call : (index_id root_id : ℕ) → Call
  delete_call : (index_id : ℕ) → Call
  update_call : (index_id root_id : ℕ) → Call
  get_call : (index_id : ℕ) → Call

pub data Reply : Type 0 where
  done : Bool → Reply
  root : Option ℕ → Reply

-- One call of the page.
unfoldable pub call : IndexRootsPage → Call → Result (IndexRootsPage × Reply)
call p (insert_call index_id root_id) = do
  (q, answer) ← insert p index_id root_id
  ok (q, done answer)
call p (delete_call index_id) = ok ((delete p index_id).0, done (delete p index_id).1)
call p (update_call index_id root_id) =
    ok ((update p index_id root_id).0, done (update p index_id root_id).1)
call p (get_call index_id) = ok (p, root (get_root_id p index_id))

-- The same on a map from ids to roots.
abbrev pub has_root : Option ℕ → Bool
has_root none = false
has_root (some r) = true

abbrev pub is_new : Option ℕ → Bool
is_new none = true
is_new (some r) = false

abbrev pub update_map : (ℕ → Option ℕ) → ℕ → Option ℕ → ℕ → Option ℕ
update_map m key v j = if key == j then v else m j

unfoldable pub call_map : (ℕ → Option ℕ) → Call → (ℕ → Option ℕ) × Reply
call_map m (insert_call index_id root_id) =
    if is_new (m index_id)
    then (update_map m index_id (some root_id), done true)
    else (m, done false)
call_map m (delete_call index_id) =
    if has_root (m index_id) then (update_map m index_id none, done true) else (m, done false)
call_map m (update_call index_id root_id) =
    if has_root (m index_id)
    then (update_map m index_id (some root_id), done true)
    else (m, done false)
call_map m (get_call index_id) = (m, root (m index_id))

abbrev pub Answers : IndexRootsPage → Call → Type 0
Answers p c =
    ((q : IndexRootsPage) × (call p c ≡ ok (q, (call_map (view p) c).1))
      × ((j : ℕ) → view q j ≡ (call_map (view p) c).0 j)
      × IsValid q)
    ⊎ ((index_id : ℕ) × (root_id : ℕ) × (c ≡ insert_call index_id root_id)
        × (view p index_id ≡ none)
        × (p.count ≡ length p.roots)
        × (call p c ≡ err out_of_bounds))

-- Each call of a valid page (Insert, Delete, Update, GetRootId) answers as the same call of the map that
-- the page stands for does, changes that map as it does, and leaves the page valid; but an insertion
-- of a new id into a full page writes past the array.
pub call-Answers : (p : IndexRootsPage) (c : Call) → IsValid p → Answers p c
unfolding call call_map
call-Answers p (insert_call key r) v = elim (insert-view p key r v) [
  | inl (old, seen, run) ↦ inl (p, rw (run, seen) refl, (λ j. rw seen refl), v)
  | inr (inl (seen, full, run)) ↦ inr (key, r, refl, seen, full, rw run refl)
  | inr (inr (q, seen, run, valid, after)) ↦
      inl (q, rw (run, seen) refl, (λ j. rw seen (after j)), valid)
]
call-Answers p (delete_call key) v = elim (delete-view p key v) [
  | inl (seen, run) ↦ inl (p, rw (run, seen) refl, (λ j. rw seen refl), v)
  | inr (q, r, seen, run, valid, after) ↦
      inl (q, rw (run, seen) refl, (λ j. rw seen (after j)), valid)
]
call-Answers p (update_call key r) v = elim (update-view p key r v) [
  | inl (seen, run) ↦ inl (p, rw (run, seen) refl, (λ j. rw seen refl), v)
  | inr (q, r', seen, run, valid, after) ↦
      inl (q, rw (run, seen) refl, (λ j. rw seen (after j)), valid)
]
call-Answers p (get_call key) v = inl (p, rw (get_root_id-view p key v) refl, (λ j. refl), v)
