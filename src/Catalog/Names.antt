-- ===== src/Catalog/Names.antt =====
-- Maps with texts for keys (std::unordered_map<std::string, …> in catalog/catalog.cpp) as association lists.
use wslproject.Base.{
  ℕ, ◌≡◌, refl, List, [], ◌∷◌, Option, none, some, true, false, if◌then◌else◌, arith, Bool-cases,
  inl, inr, ap,
}
use wslproject.Record.Schema.{name_eq}

module _ {ℓ} {V : Type ℓ} where
  -- m.find(name)
  unfoldable pub find_name : List ℕ → List (List ℕ × V) → Option V
  find_name name [] = none
  find_name name (entry ∷ rest) = if name_eq entry.0 name then some entry.1 else find_name name rest

  -- m[name] = v
  unfoldable pub set_name : List ℕ → V → List (List ℕ × V) → List (List ℕ × V)
  set_name name new [] = (name, new) ∷ []
  set_name name new (entry ∷ rest) =
      if name_eq entry.0 name then (name, new) ∷ rest else entry ∷ set_name name new rest

  -- m.erase(name)
  unfoldable pub erase_name : List ℕ → List (List ℕ × V) → List (List ℕ × V)
  erase_name name [] = []
  erase_name name (entry ∷ rest) =
      if name_eq entry.0 name then erase_name name rest else entry ∷ erase_name name rest

pub name_eq_refl : (a : List ℕ) → name_eq a a ≡ true
unfolding name_eq
name_eq_refl [] = refl
name_eq_refl (x ∷ a) = ground (arith, name_eq_refl a)

pub name_eq-≡ : (a b : List ℕ) → name_eq a b ≡ true → a ≡ b
unfolding name_eq
name_eq-≡ [] [] h = refl
name_eq-≡ (x ∷ a) (y ∷ b) h =
    let heads : x ≡ y = ground arith in
    let tails : a ≡ b = name_eq-≡ a b (ground arith) in cc (heads, tails)
name_eq-≡ [] (y ∷ b) h = absurd (ground arith)
name_eq-≡ (x ∷ a) [] h = absurd (ground arith)

-- A key that is not `name` is not found where `name` is.
name_eq-differ :
    (key name other : List ℕ)
    → name_eq key name ≡ false
    → name_eq key other ≡ true
    → name_eq name other ≡ false
name_eq-differ key name other ne e = elim (Bool-cases (name_eq name other)) [
  | inr differ ↦ differ
  | inl same ↦ absurd (clash (name_eq-≡ name other same))
]
  where
    clash : name ≡ other → ⊥
    clash h = cc (ap (name_eq key) h, ne, e)

module _ {ℓ} {V : Type ℓ} (name other : List ℕ) where
  pub find_name-set_name :
      (new : V) (m : List (List ℕ × V))
      → find_name other (set_name name new m)
        ≡ (if name_eq name other then some new else find_name other m)
  unfolding find_name set_name
  find_name-set_name new [] = refl
  find_name-set_name new (entry ∷ rest) =
      let later = find_name-set_name new rest in
      elim (Bool-cases (name_eq entry.0 name)) [
        | inl here ↦
            let same : name_eq entry.0 other ≡ name_eq name other =
              ap (λ (t : List ℕ). name_eq t other) (name_eq-≡ entry.0 name here) in
            ground (arith, here, same)
        | inr past ↦
            let apart = name_eq-differ entry.0 name other past in ground (arith, past, apart, later)
      ]

  pub find_name-erase_name :
      (m : List (List ℕ × V))
      → find_name other (erase_name name m)
        ≡ (if name_eq name other then none else find_name other m)
  unfolding find_name erase_name
  find_name-erase_name [] = ground arith
  find_name-erase_name (entry ∷ rest) =
      let later = find_name-erase_name rest in
      elim (Bool-cases (name_eq entry.0 name)) [
        | inl here ↦
            let same : name_eq entry.0 other ≡ name_eq name other =
              ap (λ (t : List ℕ). name_eq t other) (name_eq-≡ entry.0 name here) in
            ground (arith, here, same, later)
        | inr past ↦
            let apart = name_eq-differ entry.0 name other past in ground (arith, past, apart, later)
      ]
