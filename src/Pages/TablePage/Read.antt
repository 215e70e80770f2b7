-- ===== src/Pages/TablePage/Read.antt =====
-- GetTuple of page/table_page.cpp.
use wslproject.Base.{
  ℕ, ◌+◌, ◌*◌, ◌%◌, ◌^◌, ◌<◌, ◌≡◌, ◌≢◌, ◌⊎◌, inl, inr, refl, sym, ◌∙◌, true, false, List, ◌++◌,
  some, ok, length, arith, drop, leb→lt, leb→le, ==_refl, ==_ne, Bool-cases, leb,
}
use mathlib.Core.Path.{subst}
use wslproject.Base.Memory.{slice, load_u32-eq, load_from-eq}
use wslproject.Base.Blocks.{drop-slice, length-slice}
use wslproject.Record.Row.{
  Row, RowId, new_row, rowid_get, invalid_rowid, serialize_row, deserialize_row,
}
use wslproject.Record.Schema.{Schema}
use wslproject.Record.Row.Format.{IsStorable, deserialize_row-serialize_row}
use wslproject.Pages.TablePage.{read_tuple, get_tuple}
use wslproject.Pages.TablePage.Layout.{
  count, offset, size, view, IsValid, view_beyond, slot_state, empty_slot, marked_slot, live_slot,
  is_deleted_live, is_deleted_marked,
}

-- The bytes of a row in the storage format.
abbrev pub IsRowOf : Schema → Row → List ℕ → Type 0
IsRowOf schema row bytes =
    IsStorable schema row × (serialize_row row schema ≡ ok (bytes, length bytes))

-- The row is read back from the head of its bytes, whatever lies behind.
read_row :
    (schema : Schema) (row : Row) (rid : RowId) (bytes rest : List ℕ)
    → IsRowOf schema row bytes
    → deserialize_row (new_row rid) (bytes ++ rest) schema ≡ ok (row, length bytes)
read_row schema row rid bytes rest h =
    let (written, out, _, _, back) = deserialize_row-serialize_row schema row rid rest h.0 in
    let same : written ≡ bytes = cc (sym out ∙ h.1) in
    subst (λ (b : List ℕ). deserialize_row (new_row rid) (b ++ rest) schema ≡ ok (row, length b))
      same back

pub read_tuple_lem :
    (p : List ℕ) (schema : Schema) (row : Row) (rid : RowId) (i : ℕ)
    → IsValid p
    → i < count p
    → 0 < size p i
    → size p i < 2 ^ 31
    → IsRowOf schema row (slice p (offset p i) (size p i))
    → read_tuple p (new_row rid) schema i (size p i) ≡ ok row
unfolding read_tuple
read_tuple_lem p schema row rid i v h pos small stored =
    let w = v.layout.within i h (λ e. omega arith) in
    let whole : size p i % 2 ^ 31 ≡ size p i = omega arith in
    let o : ℕ = offset p i in
    let s : ℕ = size p i in
    rw
      (
        load_u32-eq p (24 + 8 * i) (omega (arith, v.sized, v.layout)),
        load_from-eq p o (omega (arith, v.sized, w)),
        drop-slice p o s,
        read_row schema row rid (slice p o s) (drop s (drop o p)) stored,
        length-slice p o s (omega (arith, v.sized, w, whole)),
        ==_refl s,
      )
      refl

-- GetTuple in a valid page, for a row without fields and with an address that is not INVALID_ROWID. If the
-- slot has a live tuple, the bytes of a row, it answers true with that row, which has the address
-- that it was stored with; otherwise it answers false and leaves the row as it is.
pub get_tuple_lem :
    (p : List ℕ) (schema : Schema) (rid : RowId) (row : Row)
    → IsValid p
    → rowid_get rid ≢ rowid_get invalid_rowid
    → ((bytes : List ℕ) → view p rid.slot_num ≡ some (false, bytes) → IsRowOf schema row bytes)
    → ((bytes : List ℕ) × (view p rid.slot_num ≡ some (false, bytes))
        × (get_tuple p (new_row rid) schema ≡ ok (row, true)))
      ⊎ (((bytes : List ℕ) → view p rid.slot_num ≢ some (false, bytes))
          × (get_tuple p (new_row rid) schema ≡ ok (new_row rid, false)))
unfolding get_tuple
get_tuple_lem p schema rid row v given stored =
    let i : ℕ = rid.slot_num in
    let known = ==_ne (rowid_get rid) (rowid_get invalid_rowid) given in
    let counted = load_u32-eq p 20 (omega (arith, v.sized)) in
    elim (Bool-cases (leb (count p) i)) [
      | inl beyond ↦
          let out = view_beyond p i (leb→le _ _ beyond) in
          inr ((λ bytes e. cc (out, e)), rw (known, counted, beyond) refl)
      | inr inside ↦
          let h = leb→lt _ _ inside in
          let sized = load_u32-eq p (28 + 8 * i) (omega (arith, v.sized, v.layout)) in
          elim (slot_state p i v h) [
            | empty_slot e seen ↦
                inr ((λ bytes z. cc (seen, z)), rw (known, counted, inside, sized, e) refl)
            | marked_slot lo up seen ↦ inr (
              (λ bytes z. cc (seen, z)),
              rw (known, counted, inside, sized, is_deleted_marked _ lo up) refl,
            )
            | live_slot lo up seen ↦ inl (
              slice p (offset p i) (size p i),
              seen,
              rw
                  (
                    known,
                    counted,
                    inside,
                    sized,
                    is_deleted_live _ lo up,
                    read_tuple_lem p schema row rid i v h lo up (stored _ seen),
                  )
                  refl,
            )
          ]
    ]
