-- ===== src/Buffer/Lru/Order.antt =====
-- The replacer is a queue of distinct frames (buffer/lru_replacer.cpp).
use wslproject.Base.{
  ℕ, ◌<◌, ◌≡◌, ◌≢◌, refl, ap, List, [], ◌∷◌, ◌++◌, Option, none, some, Bool, true, false, ◌==◌,
  if◌then◌else◌, All, arith, Bool-cases, inl, inr,
}
use wslproject.Base.Assoc.{lookup}
use wslproject.Buffer.Lru.{LruReplacer, empty_replacer, erase_node}

-- The frames, the least recently unpinned first.
abbrev pub frames_of : List (ℕ × ℕ) → List ℕ
frames_of [] = []
frames_of ((node, frame) ∷ rest) = frame ∷ frames_of rest

abbrev pub frames : LruReplacer → List ℕ
frames r = frames_of r.lru_list

unfoldable pub has : ℕ → List ℕ → Bool
has frame [] = false
has frame (f ∷ fs) = let rest = has frame fs in if f == frame then true else rest

unfoldable pub remove : ℕ → List ℕ → List ℕ
remove frame [] = []
remove frame (f ∷ fs) = let rest = remove frame fs in if f == frame then rest else f ∷ rest

-- The node that holds a frame.
unfoldable pub node_of : ℕ → List (ℕ × ℕ) → Option ℕ
node_of frame [] = none
node_of frame ((n, f) ∷ rest) =
    let later = node_of frame rest in if f == frame then some n else later

unfoldable pub Distinct : List (ℕ × ℕ) → Type 0
Distinct [] = Unit {0}
Distinct ((n, f) ∷ rest) = All (λ (m : ℕ × ℕ). (m.0 ≢ n) × (m.1 ≢ f)) rest × Distinct rest

-- No two nodes share an address or a frame, the next address is unused, and the table has the node of
-- each frame of the list and no other.
pub record IsValid (r : LruReplacer) : Type 0 where
  pub distinct : Distinct r.lru_list
  pub fresh : All (λ (m : ℕ × ℕ). m.0 < r.next_node) r.lru_list
  pub table : (frame : ℕ) → lookup frame r.lru_table ≡ node_of frame r.lru_list

pub empty_replacer-IsValid : IsValid empty_replacer
unfolding lookup node_of Distinct
empty_replacer-IsValid = record { distinct = tt; fresh = tt; table = λ frame. refl }

abbrev Without : ℕ → ℕ → List (ℕ × ℕ) → Type 0
Without n f l = All (λ (m : ℕ × ℕ). (m.0 ≢ n) × (m.1 ≢ f)) l

pub absent : (n f : ℕ) (l : List (ℕ × ℕ)) → Without n f l → node_of f l ≡ none
unfolding node_of
absent n f [] h = refl
absent n f ((m, g) ∷ rest) h = ground (arith, absent n f rest h.1, h.0)

pub has-node_of-none : (f : ℕ) (l : List (ℕ × ℕ)) → node_of f l ≡ none → has f (frames_of l) ≡ false
unfolding has node_of
has-node_of-none f [] h = refl
has-node_of-none f ((m, g) ∷ rest) h = ground (arith, has-node_of-none f rest)

pub has-node_of-some :
    (f n : ℕ) (l : List (ℕ × ℕ)) → node_of f l ≡ some n → has f (frames_of l) ≡ true
unfolding has node_of
has-node_of-some f n [] h = ground arith
has-node_of-some f n ((m, g) ∷ rest) h = ground (arith, has-node_of-some f n rest)

remove_absent : (n f : ℕ) (l : List (ℕ × ℕ)) → Without n f l → remove f (frames_of l) ≡ frames_of l
unfolding remove
remove_absent n f [] h = refl
remove_absent n f ((m, g) ∷ rest) h = ground (arith, remove_absent n f rest h.1, h.0)

pub remove_missing :
    (f : ℕ) (l : List (ℕ × ℕ)) → node_of f l ≡ none → remove f (frames_of l) ≡ frames_of l
unfolding remove node_of
remove_missing f [] h = refl
remove_missing f ((m, g) ∷ rest) h = ground (arith, remove_missing f rest)

pub All-erase_node :
    (P : ℕ × ℕ → Type 0) (n : ℕ) (l : List (ℕ × ℕ)) → All P l → All P (erase_node n l)
unfolding erase_node
All-erase_node P n [] h = tt
All-erase_node P n ((m, g) ∷ rest) h = elim (Bool-cases (m == n)) [
  | inl same ↦ rw same h.1
  | inr differ ↦ rw differ (h.0, All-erase_node P n rest h.1)
]

pub Distinct-erase_node : (n : ℕ) (l : List (ℕ × ℕ)) → Distinct l → Distinct (erase_node n l)
unfolding erase_node Distinct
Distinct-erase_node n [] h = tt
Distinct-erase_node n ((m, g) ∷ rest) h = elim (Bool-cases (m == n)) [
  | inl same ↦ rw same h.1
  | inr differ ↦ rw differ (All-erase_node _ n rest h.0, Distinct-erase_node n rest h.1)
]

node_of-Without : (n f k g : ℕ) (l : List (ℕ × ℕ)) → Without k g l → node_of f l ≡ some n → n ≢ k
unfolding node_of
node_of-Without n f k g [] w h = ground arith
node_of-Without n f k g ((m, j) ∷ rest) w h = elim (Bool-cases (j == f)) [
  | inl same ↦ ground (arith, w.0.0)
  | inr differ ↦ node_of-Without n f k g rest w.1 (ground arith)
]

-- To erase the node of a frame is to remove the frame.
pub frames_of-erase_node :
    (n f : ℕ) (l : List (ℕ × ℕ))
    → Distinct l
    → node_of f l ≡ some n
    → frames_of (erase_node n l) ≡ remove f (frames_of l)
unfolding erase_node remove node_of Distinct
frames_of-erase_node n f [] d h = refl
frames_of-erase_node n f ((m, g) ∷ rest) d h = elim (Bool-cases (g == f)) [
  | inl same ↦ ground (arith, remove_absent m g rest d.0)
  | inr differ ↦
      let later : node_of f rest ≡ some n = ground arith in
      ground
        (arith, node_of-Without n f m g rest d.0 later, frames_of-erase_node n f rest d.1 later)
]

pub node_of-erase_node :
    (n f g : ℕ) (l : List (ℕ × ℕ))
    → Distinct l
    → node_of f l ≡ some n
    → node_of g (erase_node n l) ≡ (if f == g then none else node_of g l)
unfolding erase_node node_of Distinct
node_of-erase_node n f g [] d h = ground arith
node_of-erase_node n f g ((m, j) ∷ rest) d h = elim (Bool-cases (j == f)) [
  | inl same ↦ ground (arith, absent m j rest d.0)
  | inr differ ↦
      let later : node_of f rest ≡ some n = ground arith in
      ground
        (arith, node_of-Without n f m j rest d.0 later, node_of-erase_node n f g rest d.1 later)
]

-- A node at the end.
module _ (n f : ℕ) where
  pub frames_of-append :
      (l : List (ℕ × ℕ)) → frames_of (l ++ ((n, f) ∷ [])) ≡ frames_of l ++ (f ∷ [])
  frames_of-append [] = refl
  frames_of-append ((m, g) ∷ rest) = ap (◌∷◌ g) (frames_of-append rest)

  pub node_of-append :
      (g : ℕ) (l : List (ℕ × ℕ))
      → node_of f l ≡ none
      → node_of g (l ++ ((n, f) ∷ [])) ≡ (if f == g then some n else node_of g l)
  unfolding node_of
  node_of-append g [] h = refl
  node_of-append g ((m, j) ∷ rest) h = ground (arith, node_of-append g rest)

  pub All-append_one :
      (P : ℕ × ℕ → Type 0) (l : List (ℕ × ℕ)) → All P l → P (n, f) → All P (l ++ ((n, f) ∷ []))
  All-append_one P [] h p = (p, tt)
  All-append_one P (m ∷ rest) h p = (h.0, All-append_one P rest h.1 p)

  pub Distinct-append :
      (l : List (ℕ × ℕ))
      → Distinct l
      → All (λ (m : ℕ × ℕ). m.0 < n) l
      → node_of f l ≡ none
      → Distinct (l ++ ((n, f) ∷ []))
  unfolding Distinct node_of
  Distinct-append [] d fresh h = (tt, tt)
  Distinct-append ((m, j) ∷ rest) d fresh h = (
    All-append_one _ rest d.0 ((λ e. omega (arith, fresh.0)), ground arith),
    Distinct-append rest d.1 fresh.1 (ground arith),
  )
