-- ===== src/Pages/IndexRoots/Entries.antt =====
-- The list of entries of the index roots page: what its loops do to it (page/index_roots_page.cpp).
use wslproject.Base.{
  ℕ, zero, suc, ◌+◌, ◌≤◌, ◌<◌, ◌≡◌, ◌≢◌, refl, ap, ◌∙◌, List, [], ◌∷◌, ◌++◌, none, some, ◌==◌,
  if◌then◌else◌, length, get_or, set, take, arith, length-set,
}
use wslproject.Base.Assoc.{lookup}
use wslproject.Pages.IndexRoots.{shift_from, set_second}

-- No two entries have one key.
abbrev pub Distinct : List (ℕ × ℕ) → Type 0
Distinct [] = Unit {0}
Distinct (r ∷ l) = (lookup r.0 l ≡ none) × Distinct l

-- Writing behind the entries, and counting one more, appends.
pub take-set_end :
    (l : List (ℕ × ℕ)) (k : ℕ) (r : ℕ × ℕ)
    → k < length l
    → take (suc k) (set l k r) ≡ take k l ++ (r ∷ [])
take-set_end [] k r h = absurd (omega arith)
take-set_end (x ∷ l) zero r h = refl
take-set_end (x ∷ l) (suc k) r h = ap (◌∷◌ x) (take-set_end l k r (omega arith))

pub lookup-snoc :
    (l : List (ℕ × ℕ)) (k j v : ℕ)
    → lookup k l ≡ none
    → lookup j (l ++ ((k, v) ∷ [])) ≡ (if k == j then some v else lookup j l)
unfolding lookup
lookup-snoc [] k j v h = refl
lookup-snoc ((i, w) ∷ l) k j v h = ground (arith, lookup-snoc l k j v)

pub Distinct-snoc :
    (l : List (ℕ × ℕ)) (k v : ℕ) → lookup k l ≡ none → Distinct l → Distinct (l ++ ((k, v) ∷ []))
unfolding lookup
Distinct-snoc [] k v h d = (refl, tt)
Distinct-snoc ((i, w) ∷ l) k v h d =
    (lookup-snoc l k i v (ground arith) ∙ ground arith, Distinct-snoc l k v (ground arith) d.1)

-- An entry in use is found.
present :
    (l : List (ℕ × ℕ)) (k j : ℕ)
    → j < k
    → k ≤ length l
    → lookup (get_or l j (0, 0)).0 (take k l) ≢ none
unfolding lookup
present [] k j h g = absurd (omega arith)
present (x ∷ l) zero j h g = absurd (omega arith)
present (x ∷ l) (suc k) zero h g = ground arith
present (x ∷ l) (suc k) (suc j) h g = ground (arith, present l k j)

-- Update keeps the keys, and changes the value at one.
lookup-set_second-none :
    (l : List (ℕ × ℕ)) (k j v i : ℕ)
    → lookup i (take k l) ≡ none
    → lookup i (take k (set_second l j v)) ≡ none
unfolding lookup
lookup-set_second-none [] k j v i h = h
lookup-set_second-none (x ∷ l) zero j v i h = ground arith
lookup-set_second-none (x ∷ l) (suc k) zero v i h = ground arith
lookup-set_second-none (x ∷ l) (suc k) (suc j) v i h =
    ground (arith, lookup-set_second-none l k j v i)

pub Distinct-set_second :
    (l : List (ℕ × ℕ)) (k j v : ℕ) → Distinct (take k l) → Distinct (take k (set_second l j v))
Distinct-set_second [] k j v d = d
Distinct-set_second (x ∷ l) zero j v d = tt
Distinct-set_second (x ∷ l) (suc k) zero v d = d
Distinct-set_second (x ∷ l) (suc k) (suc j) v d =
    (lookup-set_second-none l k j v x.0 d.0, Distinct-set_second l k j v d.1)

pub lookup-set_second :
    (l : List (ℕ × ℕ)) (k j v i : ℕ)
    → j < k
    → k ≤ length l
    → Distinct (take k l)
    → lookup i (take k (set_second l j v))
      ≡ (if (get_or l j (0, 0)).0 == i then some v else lookup i (take k l))
unfolding lookup
lookup-set_second [] k j v i h g d = absurd (omega arith)
lookup-set_second (x ∷ l) zero j v i h g d = absurd (omega arith)
lookup-set_second (x ∷ l) (suc k) zero v i h g d = ground arith
lookup-set_second (x ∷ l) (suc k) (suc j) v i h g d =
    ground (arith, lookup-set_second l k j v i, present l k j)

-- The entries with the one at `j` taken out.
unfoldable pub remove_at : ℕ → List (ℕ × ℕ) → List (ℕ × ℕ)
remove_at j [] = []
remove_at zero (x ∷ l) = l
remove_at (suc j) (x ∷ l) = x ∷ remove_at j l

shift_from-cons :
    (j m : ℕ) (x : ℕ × ℕ) (l : List (ℕ × ℕ)) → shift_from (suc j) m (x ∷ l) ≡ x ∷ shift_from j m l
unfolding shift_from
shift_from-cons j zero x l = refl
shift_from-cons j (suc m) x l = shift_from-cons (suc j) m x _

pub length-shift_from : (j m : ℕ) (l : List (ℕ × ℕ)) → length (shift_from j m l) ≡ length l
unfolding shift_from
length-shift_from j zero l = refl
length-shift_from j (suc m) l = length-shift_from (suc j) m _ ∙ length-set l j _

shift_step :
    (m : ℕ) (x y : ℕ × ℕ) (l : List (ℕ × ℕ))
    → shift_from 0 (suc m) (x ∷ y ∷ l) ≡ y ∷ shift_from 0 m (y ∷ l)
unfolding shift_from
shift_step m x y l = shift_from-cons zero m y (y ∷ l)

-- Delete's loop takes one entry out.
pub take-shift_from :
    (l : List (ℕ × ℕ)) (j m n : ℕ)
    → n ≡ j + m
    → n < length l
    → take n (shift_from j m l) ≡ remove_at j (take (suc n) l)
unfolding remove_at
take-shift_from [] j m n e h = absurd (omega arith)
take-shift_from (x ∷ l) (suc j) m zero e h = absurd (omega arith)
take-shift_from (x ∷ l) (suc j) m (suc n) e h =
    rw (shift_from-cons j m x l) (ap (◌∷◌ x) (take-shift_from l j m n (omega arith) (omega arith)))
take-shift_from (x ∷ l) zero zero zero e h = refl
take-shift_from (x ∷ l) zero zero (suc n) e h = absurd (omega arith)
take-shift_from (x ∷ l) zero (suc m) zero e h = absurd (omega arith)
take-shift_from (x ∷ []) zero (suc m) (suc n) e h = absurd (omega arith)
take-shift_from (x ∷ y ∷ l) zero (suc m) (suc n) e h =
    ap (take (suc n)) (shift_step m x y l)
    ∙ ap (◌∷◌ y) (take-shift_from (y ∷ l) zero m n (omega arith) (omega arith))

pub lookup-remove_at :
    (l : List (ℕ × ℕ)) (k j i : ℕ)
    → j < k
    → k ≤ length l
    → Distinct (take k l)
    → lookup i (remove_at j (take k l))
      ≡ (if (get_or l j (0, 0)).0 == i then none else lookup i (take k l))
unfolding lookup remove_at
lookup-remove_at [] k j i h g d = absurd (omega arith)
lookup-remove_at (x ∷ l) zero j i h g d = absurd (omega arith)
lookup-remove_at (x ∷ l) (suc k) zero i h g d = ground arith
lookup-remove_at (x ∷ l) (suc k) (suc j) i h g d =
    ground (arith, lookup-remove_at l k j i, present l k j)

lookup-remove_at-none :
    (l : List (ℕ × ℕ)) (j i : ℕ) → lookup i l ≡ none → lookup i (remove_at j l) ≡ none
unfolding lookup remove_at
lookup-remove_at-none [] j i h = h
lookup-remove_at-none (x ∷ l) zero i h = ground arith
lookup-remove_at-none (x ∷ l) (suc j) i h = ground (arith, lookup-remove_at-none l j i)

pub Distinct-remove_at : (l : List (ℕ × ℕ)) (j : ℕ) → Distinct l → Distinct (remove_at j l)
unfolding remove_at
Distinct-remove_at [] j d = d
Distinct-remove_at (x ∷ l) zero d = d.1
Distinct-remove_at (x ∷ l) (suc j) d =
    (lookup-remove_at-none l j x.0 d.0, Distinct-remove_at l j d.1)
