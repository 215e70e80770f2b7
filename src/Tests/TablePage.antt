-- ===== src/Tests/TablePage.antt =====
-- A table page with one row of one number (page/table_page.cpp).
use wslproject.Base.{
  ◌^◌, sym, ◌∙◌, ℕ, ◌+◌, ◌*◌, ◌≤◌, ◌<◌, ◌≡◌, ◌≢◌, ◌⊎◌, refl, true, false, List, [], ◌∷◌, ◌++◌, some,
  none, length, ok, replicate, arith, map,
}
use mathlib.Core.Path.{subst}
use wslproject.Base.Bytes.{write_u32}
use wslproject.Base.Memory.{word, load_u32}
use wslproject.Record.Types.{serialize_as}
use wslproject.Record.Types.Format.{payload_as, stored_int, IsStored}
use wslproject.Record.Schema.{Schema, get_column}
use wslproject.Record.Row.{Row, RowId, new_row, invalid_rowid, rowid_get, serialize_row}
use wslproject.Record.Row.Format.{IsStorable, fields_bytes, field_bytes}
use wslproject.Pages.TablePage.Layout.{view, count, free_space, IsValid}
use wslproject.Pages.TablePage.{
  insert_tuple, get_tuple, apply_delete, get_first_tuple_rid, get_next_tuple_rid, rid_found,
}
use wslproject.Pages.TablePage.Insert.{Inserts, insert_tuple_lem}
use wslproject.Pages.TablePage.Iterate.{scan, rid_in, live_from, scan-live_from}
use wslproject.Pages.TablePage.Mark.{MarksDelete, mark_delete_lem}
use wslproject.Pages.TablePage.Read.{IsRowOf, get_tuple_lem}
use wslproject.Pages.TablePage.Remove.{Removes, apply_delete_lem}
use wslproject.Pages.TablePage.Update.{Updates, RefusesUpdate, update_tuple_lem}
use wslproject.Tests.Record.{int_of, id_column}

abbrev pub numbers : Schema
numbers = record { columns = some id_column ∷ []; is_manage = true }

abbrev pub number_row : ℕ → Row
number_row n = record { rid = invalid_rowid; fields = int_of n ∷ [] }

abbrev pub number_bytes : ℕ → List ℕ
number_bytes n =
    (write_u32 4294967295 ++ write_u32 0) ++ (write_u32 1 ++ ((0 ∷ []) ++ (write_u32 n ++ [])))

abbrev header : List ℕ
header =
    write_u32 0
    ++ (write_u32 0
        ++ (write_u32 4096
            ++ (write_u32 4294967295
                ++ (write_u32 4079 ++ (write_u32 1 ++ (write_u32 4079 ++ write_u32 17))))))

abbrev pub one_tuple : List ℕ
one_tuple = header ++ (replicate 4047 0 ++ number_bytes 7)

pub one_tuple-IsValid : IsValid one_tuple
unfolding word write_u32
one_tuple-IsValid = record {
  sized = refl;
  layout = record {
    room = omega arith;
    ends = omega arith;
    small = λ i h. let first : i ≡ 0 = omega arith in rw first (omega arith);
    within = λ i h u.
        let first : i ≡ 0 = omega arith in rw first (omega arith, omega arith, omega arith);
    apart = λ i j hi hj ne u u'. absurd (ne (omega arith));
  };
}

number-IsStored : (n : ℕ) → n < 2 ^ 32 → IsStored (int_of n)
number-IsStored n h = stored_int refl refl refl refl h

number-IsStorable : (n : ℕ) → n < 2 ^ 32 → IsStorable numbers (number_row n)
unfolding fields_bytes field_bytes get_column payload_as write_u32
number-IsStorable n h = record {
  counted = refl;
  fits = ((id_column, refl, refl), tt);
  stored = (number-IsStored n h, tt);
  few = omega arith;
  short = omega arith;
  page_u32 = omega arith;
  slot_u32 = omega arith;
}

seen : view one_tuple 0 ≡ some (false, number_bytes 7)
unfolding word write_u32
seen = refl

seven-IsRowOf : IsRowOf numbers (number_row 7) (number_bytes 7)
unfolding serialize_row write_u32 serialize_as
seven-IsRowOf = (number-IsStorable 7 (omega arith), refl)

pub tuple_is_row :
    (bytes : List ℕ) → view one_tuple 0 ≡ some (false, bytes) → IsRowOf numbers (number_row 7) bytes
tuple_is_row bytes e =
    let same : number_bytes 7 ≡ bytes = cc (sym seen ∙ e) in
    subst (IsRowOf numbers (number_row 7)) same seven-IsRowOf

abbrev pub first : RowId
first = record { page_id = 0; slot_num = 0 }

pub first-given : rowid_get first ≢ rowid_get invalid_rowid
unfolding rowid_get
first-given = omega arith

insert_tuple_lem_example :
    (bytes : List ℕ) × (serialize_row (number_row 8) numbers ≡ ok (bytes, length bytes))
    × (((free_space one_tuple < 24 + 8 * count one_tuple + (length bytes + 8))
          × (insert_tuple one_tuple (number_row 8) numbers ≡ ok (one_tuple, number_row 8, false)))
        ⊎ ((24 + 8 * count one_tuple + (length bytes + 8) ≤ free_space one_tuple)
            × Inserts one_tuple (number_row 8) numbers bytes))
insert_tuple_lem_example =
    insert_tuple_lem one_tuple (number_row 8) numbers one_tuple-IsValid
      (number-IsStorable 8 (omega arith))

update_tuple_lem_example :
    (bytes : List ℕ) × (serialize_row (number_row 8) numbers ≡ ok (bytes, length bytes))
    × (((old : List ℕ) × Updates one_tuple (number_row 8) (number_row 7) first numbers old bytes)
        ⊎ RefusesUpdate one_tuple (number_row 8) first numbers bytes)
update_tuple_lem_example =
    update_tuple_lem one_tuple (number_row 8) (number_row 7) first numbers one_tuple-IsValid
      first-given (number-IsStorable 8 (omega arith)) tuple_is_row

get_tuple_lem_example :
    ((bytes : List ℕ) × (view one_tuple 0 ≡ some (false, bytes))
      × (get_tuple one_tuple (new_row first) numbers ≡ ok (number_row 7, true)))
    ⊎ (((bytes : List ℕ) → view one_tuple 0 ≢ some (false, bytes))
        × (get_tuple one_tuple (new_row first) numbers ≡ ok (new_row first, false)))
get_tuple_lem_example =
    get_tuple_lem one_tuple numbers first (number_row 7) one_tuple-IsValid first-given tuple_is_row

mark_delete_lem_example : MarksDelete one_tuple first
mark_delete_lem_example = mark_delete_lem one_tuple first one_tuple-IsValid

apply_delete_lem_example :
    (p' : List ℕ) × (apply_delete one_tuple first ≡ ok p') × Removes one_tuple 0 p'
apply_delete_lem_example = apply_delete_lem one_tuple first one_tuple-IsValid there
  where
    there : view one_tuple 0 ≢ none
    there e = cc (seen, e)

scan-live_from_example :
    scan one_tuple 2 ≡ ok (map (rid_in one_tuple) (live_from one_tuple 0 (count one_tuple)))
scan-live_from_example =
    scan-live_from one_tuple 2 one_tuple-IsValid (unfold word write_u32 in omega arith)

scan_runs : scan one_tuple 2 ≡ ok (first ∷ [])
unfolding scan get_first_tuple_rid get_next_tuple_rid rid_found load_u32 word write_u32
scan_runs = refl
