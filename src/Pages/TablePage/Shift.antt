-- ===== src/Pages/TablePage/Shift.antt =====
-- What UpdateTuple and ApplyDelete of page/table_page.cpp do to the layout: the tuple of one slot makes
-- place for another one or for none, and the tuples below it move up or down by the difference.
use wslproject.Base.{
  ℕ, ◌+◌, ◌*◌, ◌%◌, ◌^◌, ◌≤◌, ◌<◌, ◌≡◌, ◌≢◌, ◌⊎◌, inl, inr, refl, sym, ap, ◌∙◌, false, List, none,
  some, ◌==◌, if◌then◌else◌, length, arith, ==_refl, ==_ne,
}
use native.Mathlib.Decide.{ℕ_discrete}
use wslproject.Base.Memory.{slice}
use wslproject.Pages.TablePage.Layout.{
  free_space, count, offset, size, SameLinks, view, IsValid, view_in, view_kept, tuple_at,
  tuple_at-live,
}

-- In slot `k` stood `s` bytes; now `bs`, of length `n`, or nothing if `n` is 0. `c'` slots are left.
pub record Shifted (p p' : List ℕ) (k s n c' : ℕ) (bs : List ℕ) : Type 0 where
  pub sized : length p' ≡ 4096
  pub links : SameLinks p p'
  pub space : free_space p' + n ≡ free_space p + s
  pub counted : count p' ≡ c'
  pub sizes : (j : ℕ) → j < c' → size p' j ≡ (if k == j then n else size p j)
  pub lower :
      (j : ℕ)
      → j < c'
      → j ≢ k
      → size p j ≢ 0
      → offset p j < offset p k
      → offset p' j + n ≡ offset p j + s
  pub upper :
      (j : ℕ)
      → j < c'
      → j ≢ k
      → size p j ≢ 0
      → offset p k + s ≤ offset p j
      → offset p' j ≡ offset p j
  pub own : n ≢ 0 → k < c' → (offset p' k + n ≡ offset p k + s) × (slice p' (offset p' k) n ≡ bs)
  pub moved :
      (q q' len : ℕ)
      → free_space p ≤ q
      → q + len ≤ offset p k
      → q' + n ≡ q + s
      → slice p' q' len ≡ slice p q len
  pub stayed : (q len : ℕ) → offset p k + s ≤ q → q + len ≤ 4096 → slice p' q len ≡ slice p q len

module _ (p p' : List ℕ) (k s n c' : ℕ) (bs : List ℕ) (v : IsValid p) (x : Shifted p p' k s n c' bs)
    (hk : k < count p) (used : size p k ≢ 0) (same : s ≡ size p k % 2 ^ 31) (hc : c' ≤ count p)
    (room : 24 + 8 * count p + n ≤ free_space p + s) (small : n < 2 ^ 31) where
  -- Where the tuple of a slot stands after the shift.
  data Place (j : ℕ) : Type 0 where
    own_place : j ≡ k → 0 < n → offset p' j + n ≡ offset p k + s → size p' j ≡ n → Place j
    lower_place :
        j ≢ k
        → size p j ≢ 0
        → offset p j + size p j % 2 ^ 31 ≤ offset p k
        → offset p' j + n ≡ offset p j + s
        → size p' j ≡ size p j
        → Place j
    upper_place :
        j ≢ k
        → size p j ≢ 0
        → offset p k + s ≤ offset p j
        → offset p' j ≡ offset p j
        → size p' j ≡ size p j
        → Place j

  before : (free_space p ≤ offset p k) × (0 < s) × (offset p k + s ≤ 4096)
  before = let w = v.layout.within k hk used in (w.0, omega (arith, w), omega (arith, w))

  other_size : (j : ℕ) → j < c' → j ≢ k → size p' j ≡ size p j
  other_size j h ne = x.sizes j h ∙ rw (==_ne k j (λ e. ne (sym e))) refl

  place : (j : ℕ) → j < c' → size p' j ≢ 0 → Place j
  place j h u = elim (ℕ_discrete j k) [
    | yes e ↦
        let sized : size p' j ≡ n = x.sizes j h ∙ rw (e, ==_refl k) refl in
        let pos : n ≢ 0 = λ z. u (sized ∙ z) in
        let at = (x.own pos (omega arith)).0 in
        own_place e (omega arith) (ap (λ (t : ℕ). offset p' t + n) e ∙ at) sized
    | no ne ↦
        let sized = other_size j h ne in
        let u' : size p j ≢ 0 = λ z. u (sized ∙ z) in
        elim (v.layout.apart j k (omega arith) hk ne u' used) [
          | inl below ↦
              let w = v.layout.within j (omega arith) u' in
              lower_place ne u' below (x.lower j h ne u' (omega (arith, w))) sized
          | inr above ↦
              let lo : offset p k + s ≤ offset p j = omega arith in
              upper_place ne u' lo (x.upper j h ne u' lo) sized
        ]
  ]

  Shifted_within :
      (j : ℕ)
      → j < c'
      → Place j
      → (free_space p' ≤ offset p' j)
        × (0 < size p' j % 2 ^ 31)
        × (offset p' j + size p' j % 2 ^ 31 ≤ 4096)
  Shifted_within j h (own_place e pos at sized) =
      (omega (arith, x.space, before), omega arith, omega (arith, before))
  Shifted_within j h (lower_place ne u below at sized) =
      let w = v.layout.within j (omega arith) u in
      (
        omega (arith, x.space, w),
        omega (arith, sized, w),
        omega (arith, ap (λ (t : ℕ). t % 2 ^ 31) sized, before),
      )
  Shifted_within j h (upper_place ne u above at sized) =
      let w = v.layout.within j (omega arith) u in
      (
        omega (arith, x.space, before),
        omega (arith, sized, w),
        omega (arith, ap (λ (t : ℕ). t % 2 ^ 31) sized, w),
      )

  rest_of : (j : ℕ) → size p' j ≡ size p j → size p' j % 2 ^ 31 ≡ size p j % 2 ^ 31
  rest_of j e = ap (λ (t : ℕ). t % 2 ^ 31) e

  -- Two tuples that moved alike, or not at all.
  Shifted_apart :
      (j l : ℕ)
      → j < c'
      → l < c'
      → j ≢ l
      → Place j
      → Place l
      → (offset p' j + size p' j % 2 ^ 31 ≤ offset p' l)
        ⊎ (offset p' l + size p' l % 2 ^ 31 ≤ offset p' j)
  Shifted_apart j l hj hl ne (own_place e _ at sized) (own_place e' _ _ _) =
      absurd (ne (e ∙ sym e'))
  Shifted_apart j l hj hl ne (own_place e _ at sized) (lower_place _ u below at' sized') =
      inr (omega (arith, rest_of l sized'))
  Shifted_apart j l hj hl ne (own_place e _ at sized) (upper_place _ u above at' sized') =
      inl (omega arith)
  Shifted_apart j l hj hl ne (lower_place _ u below at sized) (own_place e' _ at' sized') =
      inl (omega (arith, rest_of j sized))
  Shifted_apart j l hj hl ne (lower_place _ u below at sized) (lower_place _ u' below' at' sized') =
      elim (v.layout.apart j l (omega arith) (omega arith) ne u u') [
        | inl h ↦ inl (omega (arith, rest_of j sized))
        | inr h ↦ inr (omega (arith, rest_of l sized'))
      ]
  Shifted_apart j l hj hl ne (lower_place _ u below at sized) (upper_place _ u' above at' sized') =
      inl (omega (arith, rest_of j sized))
  Shifted_apart j l hj hl ne (upper_place _ u above at sized) (own_place e' _ at' sized') =
      inr (omega arith)
  Shifted_apart j l hj hl ne (upper_place _ u above at sized) (lower_place _ u' below' at' sized') =
      inr (omega (arith, rest_of l sized'))
  Shifted_apart j l hj hl ne (upper_place _ u above at sized) (upper_place _ u' above' at' sized') =
      elim (v.layout.apart j l (omega arith) (omega arith) ne u u') [
        | inl h ↦ inl (omega (arith, rest_of j sized))
        | inr h ↦ inr (omega (arith, rest_of l sized'))
      ]

  pub Shifted-IsValid : IsValid p'
  Shifted-IsValid = record {
    sized = x.sized;
    layout = record {
      room = omega (arith, x.space, x.counted);
      ends = omega (arith, x.space, before);
      small = λ j h. small_size j (omega (arith, x.counted));
      within =
          λ j h u. let h' : j < c' = omega (arith, x.counted) in Shifted_within j h' (place j h' u);
      apart = λ j l hj hl ne u u'.
          let hj' : j < c' = omega (arith, x.counted) in
          let hl' : l < c' = omega (arith, x.counted) in
          Shifted_apart j l hj' hl' ne (place j hj' u) (place l hl' u');
    };
  }
    where
      small_size : (j : ℕ) → j < c' → size p' j < 2 ^ 32
      small_size j h = elim (ℕ_discrete k j) [
        | yes e ↦ rw (x.sizes j h, e, ==_refl j) (omega arith)
        | no ne ↦ rw (x.sizes j h, ==_ne k j ne) (v.layout.small j (omega arith))
      ]

  -- The slots that are left, but for the changed one, have what they had.
  pub view-Shifted_other : (j : ℕ) → j < c' → j ≢ k → view p' j ≡ view p j
  view-Shifted_other j h ne =
      view_kept p p' j (omega arith) (omega (arith, x.counted)) (other_size j h ne)
        (λ u. bytes_of u (place j h (λ z. u (sym (other_size j h ne) ∙ z))))
    where
      bytes_of :
          size p j ≢ 0
          → Place j
          → slice p' (offset p' j) (size p j % 2 ^ 31) ≡ slice p (offset p j) (size p j % 2 ^ 31)
      bytes_of u (own_place e _ _ _) = absurd (ne e)
      bytes_of u (lower_place _ _ below at _) =
          x.moved (offset p j) (offset p' j) _ ((v.layout.within j (omega arith) u).0) below at
      bytes_of u (upper_place _ _ above at _) =
          rw at (x.stayed (offset p j) _ above ((v.layout.within j (omega arith) u).2))

  pub view-Shifted_own : k < c' → 0 < n → view p' k ≡ some (false, bs)
  view-Shifted_own h pos =
      let at = x.own (λ e. omega arith) h in
      view_in p' k (omega (arith, x.counted))
      ∙ ap (tuple_at p' (offset p' k)) (x.sizes k h ∙ rw (==_refl k) refl)
      ∙ tuple_at-live p' (offset p' k) n pos small
      ∙ ap (λ (t : List ℕ). some (false, t)) at.1

  pub view-Shifted_gone : k < c' → n ≡ 0 → view p' k ≡ none
  view-Shifted_gone h e =
      let gone : size p' k ≡ 0 = x.sizes k h ∙ rw (==_refl k) e in
      view_in p' k (omega (arith, x.counted)) ∙ ap (tuple_at p' (offset p' k)) gone
