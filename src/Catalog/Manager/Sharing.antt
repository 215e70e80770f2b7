-- ===== src/Catalog/Manager/Sharing.antt =====
-- CreateTable and GetTable of catalog/catalog.cpp: GetNextTableId answers the last id in use, so
-- that tables share it.
use wslproject.Base.{
  ℕ, ◌≡◌, ◌≢◌, refl, sym, ap, ◌∙◌, List, [], ◌∷◌, Option, none, some, Bool, true, false, ok,
  if◌then◌else◌, arith, Bool-cases, inl, inr, ◌==◌, ==_refl, ==_ne, ◌⊎◌,
}
use wslproject.Base.Assoc.{lookup, insert, lookup-insert}
use wslproject.Base.Memory.{store}
use wslproject.Record.Schema.{Schema, name_eq}
use wslproject.Buffer.Pool.{BufferPool, new_page, unpin_page}
use wslproject.Table.Heap as TableHeaps
use wslproject.Table.Heap.{TableHeap, frame_data, set_frame_data}
use wslproject.Catalog.Table.{create_table_metadata, serialize_table_metadata}
use wslproject.Catalog.Names.{find_name, set_name, find_name-set_name}
use wslproject.Catalog.Manager.{
  CatalogManager, DbErr, db_success, TableInfo, assign, next_id, table_at, create_table,
  create_table_in, create_table_made, create_table_named, get_table_named, get_table, value_or_null,
}

-- What GetTable answers.
abbrev pub answer_of : CatalogManager → List ℕ → DbErr × Option TableInfo
answer_of c name = ((get_table c name).1, (get_table c name).2)

-- The next id is in use as soon as any id is.
next_id-used :
    (entry : ℕ × ℕ) (rest : List (ℕ × ℕ)) → lookup (next_id (entry ∷ rest)) (entry ∷ rest) ≢ none
unfolding next_id lookup
next_id-used entry [] e = ground (arith, ==_refl entry.0)
next_id-used entry (next ∷ rest) e =
    let later = next_id-used next rest in
    elim (Bool-cases (entry.0 == next_id (next ∷ rest))) [
      | inl here ↦ ground (arith, here)
      | inr past ↦ later (ground (arith, past))
    ]

pub answer_of-found :
    (c : CatalogManager) (name : List ℕ) (id : ℕ)
    → find_name name c.table_names ≡ some id
    → answer_of c name ≡ (db_success, value_or_null (lookup id c.tables))
unfolding get_table get_table_named table_at
answer_of-found c name id e = rw e refl

-- A new table, whose record is written to page `page_id`.
module _ (c : CatalogManager) (name : List ℕ) (schema : Schema) (p3 : BufferPool) (heap : TableHeap)
    (page_id id : ℕ) where
  abbrev new_info : TableInfo
  new_info = record {
    table_meta = create_table_metadata id name heap.first_page_id schema;
    table_heap = heap;
  }

  abbrev with_table : CatalogManager
  with_table = record {
    pool = p3;
    catalog_meta = record c.catalog_meta {
      table_meta_pages = assign id page_id c.catalog_meta.table_meta_pages;
    };
    table_names = set_name name id c.table_names;
    tables = insert id (some new_info) c.tables;
    index_names = c.index_names;
    indexes = c.indexes;
  }

  create_run :
      (p1 p2 : BufferPool) (f n : ℕ) (bytes page_data written : List ℕ) (answer : Bool)
      → find_name name c.table_names ≡ none
      → next_id c.catalog_meta.table_meta_pages ≡ id
      → new_page c.pool ≡ ok (p1, some (f, page_id))
      → TableHeaps.create p1 schema ≡ ok (p2, heap)
      → serialize_table_metadata (create_table_metadata id name heap.first_page_id schema)
        ≡ ok (bytes, n)
      → frame_data p2 f ≡ ok page_data
      → store page_data 0 bytes ≡ ok written
      → unpin_page (set_frame_data p2 f written) page_id true ≡ ok (p3, answer)
      → create_table c name schema ≡ ok (with_table, db_success, some new_info)
  unfolding create_table create_table_named create_table_made create_table_in
  create_run p1 p2 f n bytes page_data written answer fresh next made created serialized read wrote
        unpinned =
      rw (fresh, made, next) (rw (created, serialized) (rw (read, wrote, unpinned) refl))

  shared_name :
      (other : List ℕ)
      → name_eq name other ≡ true ⊎ (find_name other c.table_names ≡ some id)
      → find_name other with_table.table_names ≡ some id
  shared_name other (inl same) = find_name-set_name name other id c.table_names ∙ rw same refl
  shared_name other (inr known) =
      find_name-set_name name other id c.table_names ∙ rw known (either (name_eq name other))
    where
      either : (b : Bool) → (if b then some id else some id) ≡ some id
      either true = refl
      either false = refl

  found_there : lookup id with_table.tables ≡ some (some new_info)
  found_there = lookup-insert id id (some new_info) c.tables ∙ rw (==_refl id) refl

  other_name :
      (other : List ℕ) (other_id : ℕ)
      → find_name other c.table_names ≡ some other_id
      → name_eq name other ≡ false
      → other_id ≢ id
      → answer_of with_table other ≡ answer_of c other
  other_name other other_id known new ne =
      answer_of-found with_table other other_id
        (find_name-set_name name other id c.table_names ∙ rw (new, known) refl)
      ∙ ap (λ (t : Option (Option TableInfo)). (db_success, value_or_null t)) untouched
      ∙ sym (answer_of-found c other other_id known)
    where
      untouched : lookup other_id with_table.tables ≡ lookup other_id c.tables
      untouched =
          lookup-insert id other_id (some new_info) c.tables
          ∙ rw (==_ne id other_id (λ e. ne (sym e))) refl

-- CreateTable of a name that is not known, when a page for the record and the pages of the heap can be had
-- and the record fits, enters a table with that name. Its id is in use already if there is any table;
-- GetTable answers with the new table for every name with that id, the names of older tables
-- included, and as before for the names with another id.
pub create_table-get_table :
    (c : CatalogManager) (name : List ℕ) (schema : Schema) (p1 p2 p3 : BufferPool)
    (heap : TableHeap) (f page_id id n : ℕ) (bytes page_data written : List ℕ) (answer : Bool)
    → find_name name c.table_names ≡ none
    → next_id c.catalog_meta.table_meta_pages ≡ id
    → new_page c.pool ≡ ok (p1, some (f, page_id))
    → TableHeaps.create p1 schema ≡ ok (p2, heap)
    → serialize_table_metadata (create_table_metadata id name heap.first_page_id schema)
      ≡ ok (bytes, n)
    → frame_data p2 f ≡ ok page_data
    → store page_data 0 bytes ≡ ok written
    → unpin_page (set_frame_data p2 f written) page_id true ≡ ok (p3, answer)
    → (c' : CatalogManager) × (info : TableInfo) × (create_table c name schema
        ≡ ok (c', db_success, some info))
      × (info.table_meta.table_name ≡ name)
      × ((c.catalog_meta.table_meta_pages ≡ [])
          ⊎ (lookup id c.catalog_meta.table_meta_pages ≢ none))
      × ((other : List ℕ)
          → (name_eq name other ≡ true) ⊎ (find_name other c.table_names ≡ some id)
          → answer_of c' other ≡ (db_success, some info))
      × ((other : List ℕ) (other_id : ℕ)
          → find_name other c.table_names ≡ some other_id
          → name_eq name other ≡ false
          → other_id ≢ id
          → answer_of c' other ≡ answer_of c other)
create_table-get_table c name schema p1 p2 p3 heap f page_id id n bytes page_data written answer
      fresh next made created serialized read wrote unpinned =
    (
      with_table c name schema p3 heap page_id id,
      new_info c name schema p3 heap page_id id,
      create_run c name schema p3 heap page_id id p1 p2 f n bytes page_data written answer fresh
          next made created serialized read wrote unpinned,
      refl,
      taken c.catalog_meta.table_meta_pages next,
      (λ other known.
          answer_of-found (with_table c name schema p3 heap page_id id) other id
            (shared_name c name schema p3 heap page_id id other known)
          ∙ ap (λ (t : Option (Option TableInfo)). (db_success, value_or_null t))
              (found_there c name schema p3 heap page_id id)),
      other_name c name schema p3 heap page_id id,
    )
  where
    taken : (pages : List (ℕ × ℕ)) → next_id pages ≡ id → (pages ≡ []) ⊎ (lookup id pages ≢ none)
    taken [] e = inl refl
    taken (entry ∷ rest) e =
        inr
          (λ missing. next_id-used entry rest (ap (λ (t : ℕ). lookup t (entry ∷ rest)) e ∙ missing))
