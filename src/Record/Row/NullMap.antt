-- ===== src/Record/Row/NullMap.antt =====
-- The bitmap of null fields in a stored row (record/row.cpp).
use wslproject.Base.{
  ℕ, zero, ◌+◌, ◌*◌, ◌/◌, ◌≤◌, ◌<◌, ◌≡◌, refl, ap, ◌∙◌, List, [], ◌∷◌, length, replicate,
  length-replicate, get_or-replicate, All, All-replicate, length-set, if◌then◌else◌, ◌==◌, arith,
  Bool-cases, inl, inr, ◌&&◌,
}
use wslproject.Base.Bits.{bit_at, or_bit_at, and_bit_at, bit_at-or_bit_at, or_bit_at-IsByte}
use wslproject.Base.Bytes.{IsByte}
use wslproject.Record.Types.{Field}
use wslproject.Record.Row.{null_map_from, null_map, null_indicator}

-- The bit of each field, from field `i` on, is set exactly if the field is null.
abbrev pub NullBits : List ℕ → ℕ → List Field → Type 0
NullBits m i [] = Unit {0}
NullBits m i (f ∷ fs) = (null_indicator m i ≡ f.is_null) × NullBits m (i + 1) fs

abbrev mark : Field → ℕ → List ℕ → List ℕ
mark f i m = if f.is_null then or_bit_at m i else m

module _ (f : Field) (i : ℕ) (m : List ℕ) (hb : All IsByte m) where
  mark-IsByte : All IsByte (mark f i m)
  mark-IsByte = elim (Bool-cases f.is_null) [
    | inl e ↦ rw e (or_bit_at-IsByte m i hb)
    | inr e ↦ rw e hb
  ]

  length-mark : length (mark f i m) ≡ length m
  length-mark = elim (Bool-cases f.is_null) [ inl e ↦ rw e (length-set m (i / 8) _) | inr e ↦ rw e ]

  bit_at-mark :
      (j : ℕ)
      → i / 8 < length m
      → bit_at (mark f i m) j ≡ (if f.is_null && (i == j) then 1 else bit_at m j)
  bit_at-mark j h = elim (Bool-cases f.is_null) [
    | inl e ↦ rw e (bit_at-or_bit_at m i hb j h)
    | inr e ↦ rw e
  ]

-- The loop leaves the bits of the fields before alone.
bit_at-null_map_from :
    (fs : List Field) (i j : ℕ) (m : List ℕ)
    → All IsByte m
    → i + length fs ≤ 8 * length m
    → j < i
    → bit_at (null_map_from i fs m) j ≡ bit_at m j
unfolding null_map_from
bit_at-null_map_from [] i j m hb hl h = refl
bit_at-null_map_from (f ∷ fs) i j m hb hl h =
    bit_at-null_map_from fs (i + 1) j (mark f i m) (mark-IsByte f i m hb)
      (omega (arith, length-mark f i m hb)) (omega arith)
    ∙ (bit_at-mark f i m hb j (omega arith) ∙ ground arith)

null_map_from-IsByte :
    (fs : List Field) (i : ℕ) (m : List ℕ) → All IsByte m → All IsByte (null_map_from i fs m)
unfolding null_map_from
null_map_from-IsByte [] i m hb = hb
null_map_from-IsByte (f ∷ fs) i m hb =
    null_map_from-IsByte fs (i + 1) (mark f i m) (mark-IsByte f i m hb)

length-null_map_from :
    (fs : List Field) (i : ℕ) (m : List ℕ) → All IsByte m → length (null_map_from i fs m) ≡ length m
unfolding null_map_from
length-null_map_from [] i m hb = refl
length-null_map_from (f ∷ fs) i m hb =
    length-null_map_from fs (i + 1) (mark f i m) (mark-IsByte f i m hb) ∙ length-mark f i m hb

null_map_from-NullBits :
    (fs : List Field) (i : ℕ) (m : List ℕ)
    → All IsByte m
    → i + length fs ≤ 8 * length m
    → ((j : ℕ) → i ≤ j → bit_at m j ≡ 0)
    → NullBits (null_map_from i fs m) i fs
unfolding null_map_from
null_map_from-NullBits [] i m hb hl clear = tt
null_map_from-NullBits (f ∷ fs) i m hb hl clear = (
  and_bit_at (null_map_from i (f ∷ fs) m) i (null_map_from-IsByte (f ∷ fs) i m hb)
      ∙ (ap (λ (b : ℕ). b == 1) own ∙ own_bit),
  null_map_from-NullBits fs (i + 1) (mark f i m) (mark-IsByte f i m hb)
      (omega (arith, length-mark f i m hb))
      (λ j h. bit_at-mark f i m hb j (omega arith) ∙ ground (arith, clear j (omega arith))),
)
  where
    own : bit_at (null_map_from i (f ∷ fs) m) i ≡ (if f.is_null && (i == i) then 1 else bit_at m i)
    own =
        bit_at-null_map_from fs (i + 1) i (mark f i m) (mark-IsByte f i m hb)
          (omega (arith, length-mark f i m hb)) (omega arith)
        ∙ bit_at-mark f i m hb i (omega arith)

    own_bit : ((if f.is_null && (i == i) then 1 else bit_at m i) == 1) ≡ f.is_null
    own_bit = ground (arith, clear i (omega arith))

pub null_map-NullBits : (fs : List Field) → NullBits (null_map fs) 0 fs
null_map-NullBits fs =
    null_map_from-NullBits fs 0 (replicate (length fs / 8 + 1) 0)
      (All-replicate IsByte _ 0 (omega arith))
      (omega (arith, length-replicate (length fs / 8 + 1) zero))
      (λ j h. rw (get_or-replicate (length fs / 8 + 1) (j / 8) zero) (omega arith))

pub length-null_map : (fs : List Field) → length (null_map fs) ≡ length fs / 8 + 1
length-null_map fs =
    length-null_map_from fs 0 _ (All-replicate IsByte _ 0 (omega arith))
    ∙ length-replicate (length fs / 8 + 1) 0
