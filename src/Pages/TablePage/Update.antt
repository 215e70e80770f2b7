-- ===== src/Pages/TablePage/Update.antt =====
-- UpdateTuple of page/table_page.cpp.
use wslproject.Base.{
  ℕ, ◌+◌, ◌-◌, ◌*◌, ◌%◌, ◌^◌, ◌≤◌, ◌<◌, ◌≡◌, ◌≢◌, ◌⊎◌, inl, inr, refl, ap, ◌∙◌, Bool, true, false,
  List, [], Option, none, some, ok, ltb, leb, length, arith, ltb→lt, lt→ltb, ltb→le, le→ltb, lt→leb,
  leb→lt, leb→le, ==_ne, Bool-cases,
}
use wslproject.Base.Memory.{slice, load_u32-eq}
use wslproject.Base.Blocks.{length-slice}
use wslproject.Record.Row.{
  Row, new_row, RowId, rowid_get, invalid_rowid, serialize_row, row_serialized_size,
}
use wslproject.Record.Schema.{Schema}
use wslproject.Record.Row.Format.{IsStorable, deserialize_row-serialize_row}
use wslproject.Pages.TablePage.{replace_tuple, update_tuple}
use wslproject.Pages.TablePage.Layout.{
  free_space, count, offset, size, view, IsValid, view_in, tuple_at-live, view_beyond, slot_state,
  empty_slot, marked_slot, live_slot, is_deleted_live, is_deleted_marked,
}
use wslproject.Pages.TablePage.Insert.{get_free_space_remaining-eq}
use wslproject.Pages.TablePage.Mark.{Changes}
use wslproject.Pages.TablePage.Read.{IsRowOf, read_tuple_lem}
use wslproject.Pages.TablePage.Rewriting.{replace_tuple_lem}

-- The page after an update of a slot, which had `old` in it, and the row with what it had before.
abbrev pub Updates : List ℕ → Row → Row → RowId → Schema → List ℕ → List ℕ → Type 0
Updates p row stored rid schema old bytes =
    (p' : List ℕ) × (view p rid.slot_num ≡ some (false, old))
    × (24 + 8 * count p + length bytes ≤ free_space p + length old)
    × (update_tuple p row (new_row rid) schema ≡ ok (p', stored, true))
    × Changes p rid.slot_num (some (false, bytes)) p'

-- The page is left as it is, since the slot has no live tuple or there is no room.
abbrev pub RefusesUpdate : List ℕ → Row → RowId → Schema → List ℕ → Type 0
RefusesUpdate p row rid schema bytes =
    ((old : List ℕ)
      → view p rid.slot_num ≡ some (false, old)
      → free_space p + length old < 24 + 8 * count p + length bytes)
    × (update_tuple p row (new_row rid) schema ≡ ok (p, new_row rid, false))

no_tuple : (t : Option (Bool × List ℕ)) (b : List ℕ) → t ≡ none → t ≡ some (false, b) → ⊥
no_tuple t b e e' = cc

marked_tuple :
    (t : Option (Bool × List ℕ)) (a b : List ℕ) → t ≡ some (true, a) → t ≡ some (false, b) → ⊥
marked_tuple t a b e e' = cc

same_bytes :
    (t : Option (Bool × List ℕ)) (a b : List ℕ) → t ≡ some (false, a) → t ≡ some (false, b) → a ≡ b
same_bytes t a b e e' = cc

module _ (p : List ℕ) (row stored : Row) (rid : RowId) (schema : Schema) (bytes : List ℕ)
    (v : IsValid p) (given : rowid_get rid ≢ rowid_get invalid_rowid)
    (serialized : serialize_row row schema ≡ ok (bytes, length bytes))
    (measured : row_serialized_size row schema ≡ ok (length bytes)) (pos : 0 < length bytes)
    (rows : (old : List ℕ)
      → view p rid.slot_num ≡ some (false, old)
      → IsRowOf schema stored old) where
  update_run :
      rid.slot_num < count p
      → 0 < size p rid.slot_num
      → size p rid.slot_num < 2 ^ 31
      → (p' : List ℕ) → 24 + 8 * count p + length bytes ≤ free_space p + size p rid.slot_num
      → replace_tuple p row schema rid.slot_num
          (size p rid.slot_num)
          (offset p rid.slot_num)
          (length bytes)
        ≡ ok p'
      → update_tuple p row (new_row rid) schema ≡ ok (p', stored, true)
  unfolding update_tuple
  update_run h lo up p' room run =
      let i : ℕ = rid.slot_num in
      let n : ℕ = length bytes in
      let s : ℕ = size p i in
      let w = v.layout.within i h (λ e. omega arith) in
      let seen = view_in p i h ∙ tuple_at-live p (offset p i) s lo up in
      let sum : (free_space p - (24 + 8 * count p) + s) % 2 ^ 32
          ≡ free_space p + s - (24 + 8 * count p) =
        omega (arith, v.layout.room, w) in
      rw
        (
          ==_ne (rowid_get rid) (rowid_get invalid_rowid) given,
          measured,
          lt→ltb 0 n pos,
          load_u32-eq p 20 (omega (arith, v.sized)),
          lt→leb (count p) i h,
          load_u32-eq p (28 + 8 * i) (omega (arith, v.sized, v.layout)),
          is_deleted_live s lo up,
          get_free_space_remaining-eq p v,
          sum,
          le→ltb (free_space p + s - (24 + 8 * count p)) n (omega arith),
          load_u32-eq p (24 + 8 * i) (omega (arith, v.sized, v.layout)),
          read_tuple_lem p schema stored rid i v h lo up (rows _ seen),
          run,
        )
        refl

  update_in_use :
      rid.slot_num < count p
      → Updates p row stored rid schema
          (slice p (offset p rid.slot_num) (size p rid.slot_num))
          bytes
        ⊎ RefusesUpdate p row rid schema bytes
  unfolding update_tuple
  update_in_use h =
      let i : ℕ = rid.slot_num in
      let n : ℕ = length bytes in
      let s : ℕ = size p i in
      let known = ==_ne (rowid_get rid) (rowid_get invalid_rowid) given in
      let counted = load_u32-eq p 20 (omega (arith, v.sized)) in
      let inside = lt→leb (count p) i h in
      let sized = load_u32-eq p (28 + 8 * i) (omega (arith, v.sized, v.layout)) in
      elim (slot_state p i v h) [
        | empty_slot e seen ↦ inr (
          (λ old z. absurd (no_tuple _ old seen z)),
          rw (known, measured, lt→ltb 0 n pos, counted, inside, sized, e) refl,
        )
        | marked_slot lo up seen ↦ inr (
          (λ old z. absurd (marked_tuple _ _ old seen z)),
          rw (known, measured, lt→ltb 0 n pos, counted, inside, sized, is_deleted_marked s lo up)
              refl,
        )
        | live_slot lo up seen ↦
            let o : ℕ = offset p i in
            let w = v.layout.within i h (λ e. omega arith) in
            let whole : s % 2 ^ 31 ≡ s = omega arith in
            let long : length (slice p o s) ≡ s =
              length-slice p o s (omega (arith, v.sized, w, whole)) in
            let alive = is_deleted_live s lo up in
            let space = get_free_space_remaining-eq p v in
            let sum : (free_space p - (24 + 8 * count p) + s) % 2 ^ 32
                ≡ free_space p + s - (24 + 8 * count p) =
              omega (arith, v.layout.room, w) in
            elim (Bool-cases (ltb (free_space p + s - (24 + 8 * count p)) n)) [
              | inl full ↦ inr (
                (λ old z.
                    let same : length old ≡ s = ap length (same_bytes _ _ _ z seen) ∙ long in
                    omega (arith, ltb→lt _ _ full, v.layout.room)),
                rw
                    (
                      known,
                      measured,
                      lt→ltb 0 n pos,
                      counted,
                      inside,
                      sized,
                      alive,
                      space,
                      sum,
                      full,
                    )
                    refl,
              )
              | inr enough ↦
                  let room : 24 + 8 * count p + n ≤ free_space p + s =
                    omega (arith, ltb→le _ _ enough, v.layout.room) in
                  let (p', run, changed) =
                    replace_tuple_lem p i s n bytes v h lo refl up pos refl room row schema
                      serialized in
                  inl (
                    p',
                    seen,
                    omega (arith, long),
                    update_run h lo up p' (omega arith) run,
                    changed,
                  )
            ]
      ]

-- UpdateTuple of a storable row in a valid page, with an old row without fields whose address is not
-- INVALID_ROWID. If the slot has a live tuple, the bytes of a row, and the new bytes fit into the free
-- space and the old ones together, it answers true, the old row has what was stored, the slot has
-- the new bytes, every other slot has what it had, and the page is valid again. In every other case
-- it answers false and changes nothing.
pub update_tuple_lem :
    (p : List ℕ) (row stored : Row) (rid : RowId) (schema : Schema)
    → IsValid p
    → rowid_get rid ≢ rowid_get invalid_rowid
    → IsStorable schema row
    → ((old : List ℕ) → view p rid.slot_num ≡ some (false, old) → IsRowOf schema stored old)
    → (bytes : List ℕ) × (serialize_row row schema ≡ ok (bytes, length bytes))
      × (((old : List ℕ) × Updates p row stored rid schema old bytes)
          ⊎ RefusesUpdate p row rid schema bytes)
unfolding update_tuple
update_tuple_lem p row stored rid schema v given storable rows =
    let (bytes, serialized, measured, least, _) =
      deserialize_row-serialize_row schema row rid [] storable in
    let n : ℕ = length bytes in
    let pos : 0 < n = omega arith in
    (
      bytes,
      serialized,
      elim (Bool-cases (leb (count p) rid.slot_num)) [
        | inl beyond ↦ inr (
          (λ old z. absurd (no_tuple _ old (view_beyond p rid.slot_num (leb→le _ _ beyond)) z)),
          rw
              (
                ==_ne (rowid_get rid) (rowid_get invalid_rowid) given,
                measured,
                lt→ltb 0 n pos,
                load_u32-eq p 20 (omega (arith, v.sized)),
                beyond,
              )
              refl,
        )
        | inr inside ↦
            elim (update_in_use p row stored rid schema bytes v given serialized measured pos rows
              (leb→lt _ _ inside)) [ inl done ↦ inl (_, done) | inr refused ↦ inr refused ]
      ],
    )
