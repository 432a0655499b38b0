-- ===== src/Catalog/Manager/Dropped.antt =====
-- `drop_table`, when the leaf of the schema's tree has a cell to spare.
use cpplite.Common.{
  ℕ, suc, ◌^◌, ◌<◌, ◌≡◌, refl, ap, ◌∙◌, arith, true, false, none, some, List, [], ◌∷◌, ◌==◌,
  if◌then◌else◌,
}
use cpplite.Common.Outcome.{done}
use cpplite.Common.Sorted.{has, rank}
use cpplite.Encoding.{Bytes}
use cpplite.Record.Schema.{Table}
use cpplite.Pager.Leaf as Leaf
use cpplite.BTree.Cursor.{BTreeCursor}
use cpplite.BTree.Move.{move_to_key}
use cpplite.BTree.Edit.Remove.{HasSpare, remove-Removed}
use cpplite.BTree.Tree.{Tree, height, keys_of, leaf_for, path}
use cpplite.BTree.Tree.Order.{has-leaf_for}
use cpplite.BTree.Tree.Descent.{Holds, descend_tree}
use cpplite.BTree.Tree.Pages.{Distinct}
use cpplite.Catalog.Manager.{CatalogManager, find, find_or, erase, each, drop_table, get_table}

find-erase :
    {A : Type 0}
    → (name : Bytes) (entries : List (Bytes × A)) → find name (erase name entries) ≡ none
unfolding find erase
find-erase name [] = refl
find-erase name ((key, value) ∷ entries) = ground (arith, find-erase name entries)

-- No name but this one is in the list, which may be empty and may repeat the name.
abbrev pub Alone : Bytes → List Bytes → Type 0
Alone name [] = Unit {0}
Alone name (other ∷ names) = (other ≡ name) × Alone name names

-- The name is out of the map by now, so that each further `drop_table` of it returns at once.
each-drop_table :
    (depth fuel : ℕ) (name : Bytes) (names : List Bytes) (m : CatalogManager)
    → Alone name names
    → find name m.tables ≡ none
    → each (drop_table (suc depth) fuel) names m ≡ done tt m
unfolding drop_table each
each-drop_table depth fuel name [] m alone gone = refl
each-drop_table depth fuel name (other ∷ names) m alone gone =
    let out : find other m.tables ≡ none = ap (λ n. find n m.tables) alone.0 ∙ gone in
    ground (arith, out, each-drop_table depth fuel name names m alone.1 gone)

-- A table that is in the map and in the schema's tree, whose leaf has a cell to spare, and that no
-- other table is listed under as a dependency.
pub record CanDrop (fuel : ℕ) (m : CatalogManager) (name : Bytes) (oid : ℕ) (t : Table)
    (schema : Tree) : Type 0 where
  pub in_tables : find name m.tables ≡ some t
  pub in_oids : find name m.table_oids ≡ some oid
  pub named : t.name ≡ name
  pub alone : Alone name (find_or [] name m.table_dependencies)
  pub holds : Holds m.schema_cursor schema
  pub high : height schema < fuel
  pub distinct : Distinct schema
  pub uint32 : oid < 2 ^ 32
  pub there : has oid (keys_of schema) ≡ true
  pub spare : m.schema_cursor.config.leaf_min_cells < (leaf_for oid schema).num_cells

-- After `drop_table`: the schema's tree has the identifiers that it had but for the table's, and
-- `get_table` does not find the table.
abbrev pub TableDropped : ℕ → ℕ → CatalogManager → Bytes → ℕ → Tree → Type 0
TableDropped depth fuel m name oid schema =
    (m' : CatalogManager) × (schema' : Tree) × (drop_table depth fuel name m ≡ done tt m')
    × Holds m'.schema_cursor schema'
    × ((q : ℕ) → has q (keys_of schema') ≡ (if oid == q then false else has q (keys_of schema)))
    × (get_table name m' ≡ none)

-- `drop_table` of a table that is in the maps under its own name, with an identifier of 32 bits in a leaf of
-- more cells than the least number, of a well-formed schema's tree in the file with each page in it once,
-- and under whose name no other table is listed as a dependency (the list may be missing, and may have the
-- name itself any number of times), succeeds, given more fuel than the tree is high and a depth of two. The identifier is gone from the tree, and no other, and `get_table`
-- does not find the name.
pub drop_table-Dropped :
    (depth fuel : ℕ) (m : CatalogManager) (name : Bytes) (oid : ℕ) (t : Table) (schema : Tree)
    → CanDrop fuel m name oid t schema
    → TableDropped (suc (suc depth)) fuel m name oid schema
unfolding drop_table get_table each move_to_key
drop_table-Dropped depth fuel m name oid t schema r =
    let leaf = leaf_for oid schema in
    let c : BTreeCursor = record m.schema_cursor {
      cursor = (leaf.pgno, rank oid (Leaf.keys leaf.cells)) ∷ path oid schema [];
    } in
    let there = has-leaf_for oid 0 (2 ^ 32) schema r.holds.ordered ∙ r.there in
    let on_key : move_to_key fuel oid m.schema_cursor ≡ done true c = ground (
      arith,
      r.holds.root,
      there,
      descend_tree fuel oid schema [] m.schema_cursor.pager r.holds.in_file r.high,
    ) in
    let spare : HasSpare fuel oid (path oid schema []) c schema = record {
      holds = record { in_file = r.holds.in_file; root = r.holds.root; ordered = r.holds.ordered };
      high = r.high;
      distinct = r.distinct;
      uint32 = r.uint32;
      there = r.there;
      stack = refl;
      spare = r.spare;
    } in
    let (c', schema', run, holds, keys) =
      remove-Removed fuel oid (path oid schema []) c schema spare in
    let gone = find-erase name m.tables in
    let m' : CatalogManager = record m {
      tables = erase name m.tables;
      table_oids = erase name m.table_oids;
      schema_cursor = c';
    } in
    let rest =
      each-drop_table depth fuel name (find_or [] name m.table_dependencies) m' r.alone gone in
    (
      m',
      schema',
      ground (arith, r.in_tables, r.in_oids, r.named, rest, on_key, run),
      holds,
      keys,
      gone,
    )
