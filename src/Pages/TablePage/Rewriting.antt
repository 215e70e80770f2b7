-- ===== src/Pages/TablePage/Rewriting.antt =====
-- What UpdateTuple of page/table_page.cpp does to the page when there is room.
use wslproject.Base.{
  ℕ, ◌+◌, ◌-◌, ◌*◌, ◌%◌, ◌^◌, ◌≤◌, ◌<◌, ◌≡◌, ◌≢◌, inl, inr, refl, sym, ◌∙◌, false, List, some, ok,
  ltb, length, arith, ltb→lt, ltb→le, le→ltb, le→leb, ==_refl, ==_ne, Bool-cases,
}
use native.Mathlib.Decide.{ℕ_discrete}
use wslproject.Base.Memory.{slice, load_u32-eq, store_u32-eq, store-eq, load-eq}
use wslproject.Record.Row.{Row, serialize_row}
use wslproject.Record.Schema.{Schema}
use wslproject.Pages.TablePage.{move_offsets, replace_tuple}
use wslproject.Pages.TablePage.Layout.{free_space, count, offset, size, IsValid, view_beyond}
use wslproject.Pages.TablePage.Mark.{Changes}
use wslproject.Pages.TablePage.Moving.{move_offsets_lem}
use wslproject.Pages.TablePage.Replacing.{
  m1, m2, m3, m4, tuple_in_page, length-tuples, length-m1, length-m2, length-m3, length-m4, word-m4,
  updated-Shifted,
}
use wslproject.Pages.TablePage.Shift.{
  Shifted, Shifted-IsValid, view-Shifted_other, view-Shifted_own,
}

module _ (p : List ℕ) (k s n : ℕ) (bs : List ℕ) (v : IsValid p) (hk : k < count p) (pos : 0 < s)
    (sized : size p k ≡ s) (live : s < 2 ^ 31) (some_bytes : 0 < n) (long : length bs ≡ n)
    (room : 24 + 8 * count p + n ≤ free_space p + s) where
  replace_tuple-eq :
      (row : Row) (schema : Schema) (p' : List ℕ)
      → serialize_row row schema ≡ ok (bs, n)
      → move_offsets
          (m4 p k s n bs v hk pos sized live some_bytes long room)
          (offset p k + s)
          (s + 2 ^ 32 - n)
          0
          (count p)
        ≡ ok p'
      → replace_tuple p row schema k s (offset p k) n ≡ ok p'
  unfolding replace_tuple
  replace_tuple-eq row schema p' serialized run =
      let f : ℕ = free_space p in
      let o : ℕ = offset p k in
      let w = tuple_in_page p k s n bs v hk pos sized live some_bytes long room in
      let l1 = length-m1 p k s n bs v hk pos sized live some_bytes long room in
      let l2 = length-m2 p k s n bs v hk pos sized live some_bytes long room in
      let l3 = length-m3 p k s n bs v hk pos sized live some_bytes long room in
      let l4 = length-m4 p k s n bs v hk pos sized live some_bytes long room in
      let tuples = length-tuples p k s n bs v hk pos sized live some_bytes long room in
      let new_space : (f + s + 2 ^ 32 - n) % 2 ^ 32 ≡ f + s - n = omega (arith, v.layout, w) in
      let bound : (o + s) % 2 ^ 32 ≡ o + s = omega (arith, w) in
      rw
        (
          load_u32-eq p 16 (omega (arith, v.sized)),
          le→leb f o w.0,
          load-eq p f (o - f) (omega (arith, v.sized, w)),
          le→ltb (f + s) n (omega arith),
          store-eq p (f + s - n) (slice p f (o - f)) (omega (arith, v.sized, w, tuples)),
          new_space,
          store_u32-eq (m1 p k s n bs v hk pos sized live some_bytes long room) 16 (f + s - n)
              (omega (arith, l1)),
          serialized,
          le→ltb (o + s) n (omega (arith, w)),
          store-eq (m2 p k s n bs v hk pos sized live some_bytes long room) (o + s - n) bs
              (omega (arith, l2, w)),
          store_u32-eq (m3 p k s n bs v hk pos sized live some_bytes long room) (28 + 8 * k) n
              (omega (arith, l3, v.layout)),
          load_u32-eq (m4 p k s n bs v hk pos sized live some_bytes long room) 20
              (omega (arith, l4)),
          word-m4 p k s n bs v hk pos sized live some_bytes long room 20 refl (omega arith),
          bound,
        )
        (rw (==_ne (28 + 8 * k) 20 (λ e. omega arith)) run)

  updated-Changes :
      (p' : List ℕ) → Shifted p p' k s n (count p) bs → Changes p k (some (false, bs)) p'
  updated-Changes p' x =
      let same : s ≡ size p k % 2 ^ 31 = omega arith in
      let used : size p k ≢ 0 = λ e. omega arith in
      let few : n < 2 ^ 31 =
        omega
          (arith, v.layout, tuple_in_page p k s n bs v hk pos sized live some_bytes long room) in
      (
        (λ j. elim (ℕ_discrete k j) [
          | yes e ↦
              rw (← e, ==_refl k)
                (view-Shifted_own p p' k s n (count p) bs v x hk used same (omega arith) room few hk
                  some_bytes)
          | no ne ↦ rw (==_ne k j ne) (elim (Bool-cases (ltb j (count p))) [
            | inl h ↦
                view-Shifted_other p p' k s n (count p) bs v x hk used same (omega arith) room few j
                  (ltb→lt _ _ h) (λ e. ne (sym e))
            | inr h ↦
                let far = ltb→le _ _ h in
                view_beyond p' j (omega (arith, x.counted)) ∙ sym (view_beyond p j far)
          ])
        ]),
        Shifted-IsValid p p' k s n (count p) bs v x hk used same (omega arith) room few,
        x.links,
      )

  pub replace_tuple_lem :
      (row : Row) (schema : Schema)
      → serialize_row row schema ≡ ok (bs, n)
      → (p' : List ℕ) × (replace_tuple p row schema k s (offset p k) n ≡ ok p')
        × Changes p k (some (false, bs)) p'
  replace_tuple_lem row schema serialized =
      let l4 = length-m4 p k s n bs v hk pos sized live some_bytes long room in
      let (p', run, y) =
        move_offsets_lem (offset p k + s) (s + 2 ^ 32 - n)
          (m4 p k s n bs v hk pos sized live some_bytes long room) 0 (count p)
          (omega (arith, l4, v.layout)) in
      (
        p',
        replace_tuple-eq row schema p' serialized run,
        updated-Changes p'
            (updated-Shifted p k s n bs v hk pos sized live some_bytes long room p' y),
      )
