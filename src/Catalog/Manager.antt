-- ===== src/Catalog/Manager.antt =====
-- `CatalogManager` of lib/catalog/catalog.cpp: the maps of the tables, and the cursor on the schema's
-- tree, whose pager is the manager's. A map is an association list. The first page manager that the
-- source keeps is only written to, so that the page in the file stands for it.
pub mod Created
pub mod Dropped
use cpplite.Common.{
  ℕ, zero, suc, ◌+◌, ◌%◌, ◌^◌, Bool, true, false, Option, none, some, List, [], ◌∷◌, ◌++◌, ltb,
  if◌then◌else◌,
}
use cpplite.Common.Outcome.{Outcome, done, thrown, Error, Result, ok, err, out_of_fuel}
use cpplite.Encoding.{Bytes}
use cpplite.Binder.{is_same}
use cpplite.Record.Schema.{Table}
use cpplite.Pager.Disk.{M, PagerState}
use cpplite.Pager.Disk as Disk
use cpplite.Pager.FirstPage.{first_page_manager, set_next_oid}
use cpplite.Pager.Create.{create_leaf_page}
use cpplite.Pager.Seek.{get_num_pages}
use cpplite.BTree.Cursor.{BTreeCursor, T, default_config, new_cursor}
use cpplite.BTree.Cursor as Cursor
use cpplite.BTree.Move.{move_to_first, move_to_key, next}
use cpplite.BTree.Read.{is_empty, current_key, current_value}
use cpplite.BTree.Edit.{insert, remove}
use cpplite.Catalog.{serialize_table, deserialize_table}

-- `CPPLITE_SCHEMA_PGNO`
abbrev pub schema_pgno : ℕ
schema_pgno = 2

module _ {A : Type 0} where
  unfoldable pub find : Bytes → List (Bytes × A) → Option A
  find name [] = none
  find name ((key, value) ∷ entries) = if is_same key name then some value else find name entries

  unfoldable pub erase : Bytes → List (Bytes × A) → List (Bytes × A)
  erase name [] = []
  erase name ((key, value) ∷ entries) =
      if is_same key name then erase name entries else (key, value) ∷ erase name entries

  -- `map[name] = value`
  abbrev pub store : Bytes → A → List (Bytes × A) → List (Bytes × A)
  store name value entries = (name, value) ∷ erase name entries

  abbrev pub find_or : A → Bytes → List (Bytes × A) → A
  find_or default name entries = elim (find name entries) [ none ↦ default | some a ↦ a ]

pub record CatalogManager : Type 0 where
  pub tables : List (Bytes × Table)
  pub table_oids : List (Bytes × ℕ)
  pub table_root_pages : List (Bytes × ℕ)
  pub table_dependencies : List (Bytes × List Bytes)
  pub schema_cursor : BTreeCursor
  pub next_oid : ℕ

abbrev pub C : Type 0 → Type 0
C A = CatalogManager → Outcome CatalogManager A

abbrev pub pure : {A : Type 0} → A → C A
pure a m = done a m

abbrev pub throw : {A : Type 0} → Error → C A
throw e m = thrown e m

infixl 5 ◌>>=◌ ◌>>◌
abbrev pub ◌>>=◌ : {A B : Type 0} → C A → (A → C B) → C B
◌>>=◌ run f m = elim (run m) [ done a m' ↦ f a m' | thrown e m' ↦ thrown e m' ]

abbrev pub ◌>>◌ : {B : Type 0} → C (Unit {0}) → C B → C B
run >> k = run >>= λ _. k

abbrev pub update : (CatalogManager → CatalogManager) → C (Unit {0})
update f m = done tt (f m)

abbrev pub get_manager : C CatalogManager
get_manager m = done m m

-- A call of a method of the schema's cursor.
abbrev pub on_cursor : {A : Type 0} → T A → C A
on_cursor run m = elim (run m.schema_cursor) [
  | done a c ↦ done a (record m { schema_cursor = c })
  | thrown e c ↦ thrown e (record m { schema_cursor = c })
]

-- A call of the pager.
abbrev pub on_pager : {A : Type 0} → M A → C A
on_pager run = on_cursor (Cursor.lift run)

abbrev pub of_result : {A : Type 0} → Result A → C A
of_result (ok a) m = done a m
of_result (err e) m = thrown e m

unfoldable pub ensure_schema_page : M ℕ
unfolding get_num_pages create_leaf_page
ensure_schema_page s =
    Disk.◌>>=◌ get_num_pages
      (λ n.
        let create : M ℕ = Disk.◌>>=◌ create_leaf_page (λ p. Disk.pure schema_pgno) in
        if ltb n schema_pgno then create else Disk.pure schema_pgno)
      s

abbrev pub with_page : Bytes → ℕ → ℕ → CatalogManager → CatalogManager
with_page name oid root_pgno m = record m {
  table_oids = store name oid m.table_oids;
  table_root_pages = store name root_pgno m.table_root_pages;
}

-- `tables_[table.name] = table`, and the name among those that depend on the table's `tbl_name`.
abbrev pub with_table : Table → CatalogManager → CatalogManager
with_table t m = record m {
  tables = store t.name t m.tables;
  table_dependencies =
      store t.tbl_name (find_or [] t.tbl_name m.table_dependencies ++ (t.name ∷ []))
        m.table_dependencies;
}

-- The loop of `initialize_tables`, by its rounds.
unfoldable pub load_tables : ℕ → ℕ → C (Unit {0})
load_tables zero fuel = throw out_of_fuel
load_tables (suc rounds) fuel = do
  oid ← on_cursor current_key
  table_bytes ← on_cursor (current_value fuel)
  loaded ← of_result (deserialize_table table_bytes)
  update (λ m. with_table loaded.0 (with_page loaded.0.name oid loaded.1 m))
  more ← on_cursor (next fuel)
  let rest = load_tables rounds fuel
  if more then rest else pure tt

unfoldable pub initialize_tables : ℕ → ℕ → C (Unit {0})
unfolding load_tables
initialize_tables rounds fuel = do
  empty ← on_cursor is_empty
  let load : C (Unit {0}) = (do on_cursor (move_to_first fuel); load_tables rounds fuel)
  if empty then pure tt else load

-- The manager before `initialize_tables`.
unfoldable pub new_manager : M CatalogManager
unfolding ensure_schema_page
new_manager s =
    Disk.◌>>=◌ ensure_schema_page
      (λ root_pgno. Disk.◌>>=◌ (new_cursor root_pgno default_config) (λ cursor.
        Disk.◌>>=◌ first_page_manager (λ h. Disk.pure (record {
          tables = [];
          table_oids = [];
          table_root_pages = [];
          table_dependencies = [];
          schema_cursor = cursor;
          next_oid = h.next_oid;
        }))))
      s

abbrev with_loaded : ℕ → ℕ → Outcome PagerState CatalogManager → Outcome PagerState CatalogManager
with_loaded rounds fuel (thrown e s) = thrown e s
with_loaded rounds fuel (done m s) = elim (initialize_tables rounds fuel m) [
  | done a m' ↦ done m' m'.schema_cursor.pager
  | thrown e m' ↦ thrown e m'.schema_cursor.pager
]

-- The constructor.
unfoldable pub catalog_manager : ℕ → ℕ → M CatalogManager
unfolding new_manager
catalog_manager rounds fuel s = with_loaded rounds fuel (new_manager s)

-- `next_oid_` is a `uint32_t`.
unfoldable pub create_table : ℕ → Table → C (Unit {0})
create_table fuel t = do
  root_pgno ← on_pager create_leaf_page
  m ← get_manager
  on_cursor (insert fuel m.next_oid (serialize_table t root_pgno))
  let oid' = (m.next_oid + 1) % 2 ^ 32
  update (λ m'. record (with_page t.name m.next_oid root_pgno m') { next_oid = oid' })
  on_pager (set_next_oid oid')
  update (with_table t)

unfoldable pub each : (Bytes → C (Unit {0})) → List Bytes → C (Unit {0})
each f [] = pure tt
each f (name ∷ names) = do f name; each f names

-- `drop_table`, by the depth of the recursion: each call takes a table out of the map.
unfoldable pub drop_table : ℕ → ℕ → Bytes → C (Unit {0})
unfolding each
drop_table zero fuel name m = thrown out_of_fuel m
drop_table (suc depth) fuel name m =
    let drop_dependencies : List Bytes → C (Unit {0}) = each (drop_table depth fuel) in
    let drop_found : Table → C (Unit {0}) = λ t. (do
      update (λ m'. record m' { tables = erase name m'.tables })
      m' ← get_manager
      found ← on_cursor (move_to_key fuel (find_or 0 name m'.table_oids))
      update (λ m''. record m'' { table_oids = erase name m''.table_oids })
      on_cursor (remove fuel)
      drop_dependencies (find_or [] t.name m'.table_dependencies)) in
    elim (find name m.tables) [ none ↦ done tt m | some t ↦ drop_found t m ]

unfoldable pub get_table : Bytes → CatalogManager → Option Table
get_table name m = find name m.tables
