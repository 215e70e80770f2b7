-- ===== src/Catalog/Manager/Dropping.antt =====
-- DropTable of catalog/catalog.cpp, for tables that share an id.
use wslproject.Base.{
  ℕ, ◌≡◌, ◌≢◌, refl, sym, ap, ◌∙◌, List, Option, none, some, Bool, false, ok, ◌>>=◌, Bool-cases,
  inl, inr, ==_refl, ==_ne,
}
use wslproject.Base.Assoc.{lookup, erase, lookup-erase}
use wslproject.Record.Schema.{name_eq}
use wslproject.Buffer.Pool.{BufferPool, delete_page}
use wslproject.Buffer.Pool.Install.{some_injective}
use wslproject.Catalog.Names.{find_name, erase_name, name_eq_refl, name_eq-≡, find_name-erase_name}
use wslproject.Catalog.Manager.{
  CatalogManager, db_success, db_table_not_exist, TableInfo, get_table_named, drop_table_named,
  get_table, drop_table, page_or_zero, value_or_null,
}
use wslproject.Catalog.Manager.Sharing.{answer_of, answer_of-found}

gone {ℓ} : {V : Type ℓ} (id : ℕ) (m : List (ℕ × V)) → lookup id (erase id m) ≡ none
gone id m = lookup-erase id id m ∙ rw (==_refl id) refl

-- The catalog without a table.
module _ (c : CatalogManager) (name : List ℕ) (id : ℕ) (p' : BufferPool) where
  abbrev pub without_table : CatalogManager
  without_table = record {
    pool = p';
    catalog_meta = record c.catalog_meta {
      table_meta_pages = erase id c.catalog_meta.table_meta_pages;
    };
    table_names = erase_name name c.table_names;
    tables = erase id c.tables;
    index_names = c.index_names;
    indexes = c.indexes;
  }

  drop_run :
      (answer : Bool)
      → find_name name c.table_names ≡ some id
      → delete_page c.pool (page_or_zero (lookup id c.catalog_meta.table_meta_pages))
        ≡ ok (p', answer)
      → drop_table c name ≡ ok (without_table, db_success)
  unfolding drop_table drop_table_named
  drop_run answer known deleted = rw known (rw deleted refl)

  still :
      (other_id : ℕ)
      → other_id ≢ id
      → lookup other_id without_table.tables ≡ lookup other_id c.tables
  still other_id ne =
      lookup-erase id other_id c.tables ∙ rw (==_ne id other_id (λ e. ne (sym e))) refl

answer_of-unknown :
    (c : CatalogManager) (name : List ℕ)
    → find_name name c.table_names ≡ none
    → answer_of c name ≡ (db_table_not_exist, none)
unfolding get_table get_table_named
answer_of-unknown c name e = rw e refl

new_name :
    (c : CatalogManager) (name other : List ℕ) (id other_id : ℕ)
    → find_name name c.table_names ≡ some id
    → find_name other c.table_names ≡ some other_id
    → other_id ≢ id
    → name_eq name other ≡ false
new_name c name other id other_id known same ne = elim (Bool-cases (name_eq name other)) [
  | inr differ ↦ differ
  | inl here ↦ absurd (
      ne (
        some_injective other_id id (
          sym same
          ∙ ap (λ (t : List ℕ). find_name t c.table_names) (sym (name_eq-≡ name other here))
          ∙ known)))
]

-- The record of the table has no page: it is page 0 that is deleted.
drop_recordless :
    (c : CatalogManager) (name : List ℕ) (id : ℕ)
    → find_name name c.table_names ≡ some id
    → lookup id c.catalog_meta.table_meta_pages ≡ none
    → drop_table c name
      ≡ (delete_page c.pool 0 >>= λ deleted. ok (without_table c name id deleted.0, db_success))
unfolding drop_table drop_table_named
drop_recordless c name id known none_there = rw known (rw none_there refl)

-- DropTable of a known name, when the page of its record can be deleted: the page is deleted, and the name
-- is not known from then on. For every other name with the same id GetTable succeeds with a null
-- pointer, and DropTable of such a name deletes the catalog's own page, page 0, and succeeds if that
-- can be deleted. Names with another id are answered as before.
pub drop_table-get_table :
    (c : CatalogManager) (name : List ℕ) (id : ℕ) (p' : BufferPool) (answer : Bool)
    → find_name name c.table_names ≡ some id
    → delete_page c.pool (page_or_zero (lookup id c.catalog_meta.table_meta_pages))
      ≡ ok (p', answer)
    → (c' : CatalogManager) × (drop_table c name ≡ ok (c', db_success))
      × (c'.pool ≡ p')
      × (answer_of c' name ≡ (db_table_not_exist, none))
      × ((other : List ℕ)
          → find_name other c.table_names ≡ some id
          → name_eq name other ≡ false
          → answer_of c' other ≡ (db_success, none))
      × ((other : List ℕ)
          → find_name other c.table_names ≡ some id
          → name_eq name other ≡ false
          → drop_table c' other ≡ (
              delete_page c'.pool 0 >>= λ deleted.
              ok (without_table c' other id deleted.0, db_success)))
      × ((other : List ℕ) (other_id : ℕ)
          → find_name other c.table_names ≡ some other_id
          → other_id ≢ id
          → answer_of c' other ≡ answer_of c other)
drop_table-get_table c name id p' answer known deleted = (
  without_table c name id p',
  drop_run c name id p' answer known deleted,
  refl,
  answer_of-unknown (without_table c name id p') name
      (find_name-erase_name name name c.table_names ∙ rw (name_eq_refl name) refl),
  (λ other same new.
      answer_of-found (without_table c name id p') other id
        (find_name-erase_name name other c.table_names ∙ rw (new, same) refl)
      ∙ ap (λ (t : Option (Option TableInfo)). (db_success, value_or_null t)) (gone id c.tables)),
  (λ other same new.
      drop_recordless (without_table c name id p') other id
        (find_name-erase_name name other c.table_names ∙ rw (new, same) refl)
        (gone id c.catalog_meta.table_meta_pages)),
  (λ other other_id same ne.
      answer_of-found (without_table c name id p') other other_id (
        find_name-erase_name name other c.table_names
        ∙ rw (new_name c name other id other_id known same ne, same) refl)
      ∙ ap (λ (t : Option (Option TableInfo)). (db_success, value_or_null t))
          (still c name id p' other_id ne)
      ∙ sym (answer_of-found c other other_id same)),
)
