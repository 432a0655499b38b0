-- ===== src/Catalog/Manager/Created.antt =====
-- `create_table`, when the leaf of the schema's tree has room for the new cell.
use cpplite.Common.{
  ℕ, ◌+◌, ◌%◌, ◌^◌, ◌≤◌, ◌<◌, ◌≡◌, ◌∙◌, arith, true, false, some, List, ◌==◌, if◌then◌else◌, length,
  drop, head_or,
}
use cpplite.Common.Outcome.{done, ok}
use cpplite.Common.Sorted.{has}
use cpplite.Binder.Names.{is_same_refl}
use cpplite.Record.Schema.{Table}
use cpplite.Pager.Page.{FirstHeader, first, sizeof_leaf_cell}
use cpplite.Pager.Disk.{PagerState, update}
use cpplite.Pager.FirstPage.{set_next_oid}
use cpplite.Pager.FreeList.Chain.{FreeList}
use cpplite.Pager.FreeList.Stack.{with_head}
use cpplite.Pager.Create.Fresh.{Grown, create_leaf_page-Grown}
use cpplite.Pager.Create.{create_leaf_page}
use cpplite.BTree.Tree.Order.{has-leaf_for}
use cpplite.Pager.Overflow.{chunk_size}
use cpplite.Pager.Leaf as Leaf
use cpplite.Pager.Leaf.Payload.{chunk_count}
use cpplite.BTree.Cursor.{BTreeCursor}
use cpplite.BTree.Read.{current_key, current_value}
use cpplite.BTree.Edit.{insert}
use cpplite.BTree.Edit.Insert.{HasRoom, InUse, insert-Inserted}
use cpplite.BTree.Tree.{
  Tree, tip, branch, Kids, last, before, InFile, KidsInFile, height, keys_of, leaf_for,
}
use cpplite.BTree.Tree.Descent.{Holds, leaf_for-InFile}
use cpplite.BTree.Tree.Pages.{Pages, KidsPages, Distinct, Pages-map, leaf_for-Pages, InFile-Pages}
use cpplite.Catalog.{serialize_table, deserialize_table}
use cpplite.Catalog.RoundTrip.{AreNamed, deserialize_table-serialize_table}
use cpplite.Catalog.Manager.{CatalogManager, find, create_table, get_table, with_page, with_table}

mutual
  unfolding InFile Pages

  InFile-numbered : (s : PagerState) (t : Tree) → InFile s t → Pages (λ q. 1 < q) t
  InFile-numbered s (tip m) f = f.1.numbered
  InFile-numbered s (branch m ks) f = (f.0.1.numbered, KidsInFile-numbered s ks f.1)

  KidsInFile-numbered : (s : PagerState) (ks : Kids) → KidsInFile s ks → KidsPages (λ q. 1 < q) ks
  KidsInFile-numbered s (last t) f = InFile-numbered s t f
  KidsInFile-numbered s (before t k ks) f = (InFile-numbered s t f.0, KidsInFile-numbered s ks f.1)

-- A file with the same pages, but for the first, has the same tree.
Holds-pager :
    (c : BTreeCursor) (t : Tree) (s : PagerState)
    → Holds c t
    → Pages (λ q. s.file q ≡ c.pager.file q) t
    → Holds (record c { pager = s }) t
Holds-pager c t s h same = record {
  in_file = InFile-Pages c.pager s t same h.in_file;
  root = h.root;
  ordered = h.ordered;
}

set_next_oid-run :
    (oid : ℕ) (s : PagerState) (h : FirstHeader)
    → s.file 1 ≡ first h
    → set_next_oid oid s
      ≡ done tt (record s { file = update s.file 1 (first (record h { next_oid = oid })) })
unfolding set_next_oid
set_next_oid-run oid s h e = ground (arith, e)

-- A manager whose schema has room for one more table, and a table that fits a payload.
pub record CanCreate (fuel : ℕ) (m : CatalogManager) (t : Table) (schema : Tree) (h : FirstHeader)
    (ps : List ℕ) : Type 0 where
  pub holds : Holds m.schema_cursor schema
  pub high : height schema < fuel
  pub distinct : Distinct schema
  pub in_use : Pages (InUse m.schema_cursor.pager ps) schema
  pub free_list : FreeList m.schema_cursor.pager h ps
  pub total : m.schema_cursor.pager.total_num_pages ≡ m.schema_cursor.pager.file_pages
  pub new_oid : has m.next_oid (keys_of schema) ≡ false
  pub uint32 : m.next_oid + 1 < 2 ^ 32
  pub few : (leaf_for m.next_oid schema).num_cells < m.schema_cursor.config.leaf_max_cells
  pub room : sizeof_leaf_cell ≤ (leaf_for m.next_oid schema).total_bytes_free
  pub uint64 : m.schema_cursor.pager.file_pages + 1 < 2 ^ 64
  pub short_name : length t.name < 2 ^ 16
  pub short_tbl_name : length t.tbl_name < 2 ^ 16
  pub few_columns : length t.columns < 2 ^ 16
  pub named_columns : AreNamed t.columns
  pub short :
      length (serialize_table t (m.schema_cursor.pager.file_pages + 1)) + chunk_size ≤ 2 ^ 32

-- After `create_table`: the schema's tree has the new identifier, whose payload reads back as the table
-- with its root page, and the map has the table under its name. `c` is the schema's cursor before the
-- first page is written.
abbrev pub TableCreated : ℕ → CatalogManager → Table → Tree → Type 0
TableCreated fuel m t schema =
    let root_pgno = m.schema_cursor.pager.file_pages + 1 in
    let payload = serialize_table t root_pgno in
    (m' : CatalogManager) × (c : BTreeCursor) × (schema' : Tree) × (create_table fuel t m
      ≡ done tt m')
    × Holds m'.schema_cursor schema'
    × ((q : ℕ)
        → has q (keys_of schema') ≡ (if m.next_oid == q then true else has q (keys_of schema)))
    × ((q : ℕ) → 1 < q → m'.schema_cursor.pager.file q ≡ c.pager.file q)
    × (current_key c ≡ done m.next_oid c)
    × ((rounds : ℕ) → chunk_count payload < rounds → current_value rounds c ≡ done payload c)
    × (deserialize_table payload ≡ ok (t, root_pgno))
    × (get_table t.name m' ≡ some t)
    × (m'.next_oid ≡ m.next_oid + 1)

-- The manager that `create_table` leaves, when `insert` leaves the cursor `c`.
abbrev manager_after : CatalogManager → Table → FirstHeader → BTreeCursor → CatalogManager
manager_after m t h c =
    let oid = (m.next_oid + 1) % 2 ^ 32 in
    let root_pgno = m.schema_cursor.pager.file_pages + 1 in
    let file = update c.pager.file 1 (first (record h { next_oid = oid })) in
    let cursor = record c { pager = record c.pager { file = file } } in
    with_table t
      (record (with_page t.name m.next_oid root_pgno m) { next_oid = oid; schema_cursor = cursor })

create_table-run :
    (fuel : ℕ) (m : CatalogManager) (t : Table) (h : FirstHeader) (s : PagerState) (c : BTreeCursor)
    → create_leaf_page m.schema_cursor.pager ≡ done (m.schema_cursor.pager.file_pages + 1) s
    → insert fuel m.next_oid
        (serialize_table t (m.schema_cursor.pager.file_pages + 1))
        (record m.schema_cursor { pager = s })
      ≡ done tt c
    → c.pager.file 1 ≡ first h
    → create_table fuel t m ≡ done tt (manager_after m t h c)
unfolding create_table
create_table-run fuel m t h s c e i p =
    ground (arith, e, i, set_next_oid-run ((m.next_oid + 1) % 2 ^ 32) c.pager h p)

module _ (fuel : ℕ) (m : CatalogManager) (t : Table) (schema : Tree) (h : FirstHeader) (ps : List ℕ)
    (r : CanCreate fuel m t schema h ps) (s : PagerState)
    (g : Grown m.schema_cursor.pager s h ps) where
  abbrev leaf : Leaf.LeafPageManager
  leaf = leaf_for m.next_oid schema

  -- The new root page leaves room in the schema's tree.
  room-after :
      HasRoom fuel m.next_oid
        (serialize_table t (m.schema_cursor.pager.file_pages + 1))
        (record m.schema_cursor { pager = s })
        schema
        (record h { num_pages = m.schema_cursor.pager.file_pages + 1 })
        ps
  room-after =
      let old = m.schema_cursor.pager in
      let same =
        Pages-map (InUse old ps) (λ q. s.file q ≡ old.file q) schema (λ q a. g.kept q a.0 a.1)
          r.in_use in
      let holds = Holds-pager m.schema_cursor schema s r.holds same in
      let in_use =
        Pages-map (InUse old ps) (InUse s ps) schema
          (λ q a. (a.0, omega (arith, a.1, g.grows), a.2)) r.in_use in
      let (v, o) = leaf_for-InFile m.next_oid schema s holds.in_file in
      let used = leaf_for-Pages (InUse s ps) m.next_oid schema in_use in
      record {
        holds = holds;
        high = r.high;
        distinct = r.distinct;
        in_use = in_use;
        uint32 = omega (arith, r.uint32);
        new_key = r.new_oid;
        few = r.few;
        can_insert = record {
          valid = v;
          page = o;
          room = r.room;
          new_key = has-leaf_for m.next_oid 0 (2 ^ 32) schema r.holds.ordered ∙ r.new_oid;
          free_list = g.list;
          total = g.total;
          in_file = used.1;
          in_use = used.2;
          short = r.short;
        };
      }

-- `create_table` succeeds under these conditions: the names of the table and its columns, and the number
-- of the columns, are below 2 ^ 16, and the payload's length and `chunk_size` are at most 2 ^ 32 together;
-- the next identifier and the one behind it are below 2 ^ 32, and the schema's tree, which stands in the
-- file, does not have it; its leaf there has fewer cells than `leaf_max_cells` and the bytes for one more;
-- the pager's `total_num_pages_` is the number of pages of the file, which is below 2 ^ 64 - 1; the free
-- list is well formed; each page of the tree is in the tree once, is a page of the file behind the first,
-- and is not free; the fuel is more than the height of the tree. The tree then has the identifier and those that it had; the payload
-- that the cursor reads there is the table with its new root page; `get_table` finds the table by its
-- name; and the next identifier is the following one.
pub create_table-Created :
    (fuel : ℕ) (m : CatalogManager) (t : Table) (schema : Tree) (h : FirstHeader) (ps : List ℕ)
    → CanCreate fuel m t schema h ps
    → TableCreated fuel m t schema
unfolding find get_table
create_table-Created fuel m t schema h ps r =
    let old = m.schema_cursor.pager in
    let root_pgno = old.file_pages + 1 in
    let payload = serialize_table t root_pgno in
    let used = leaf_for-Pages (InUse old ps) m.next_oid schema r.in_use in
    let (s, created, g, v, o) =
      create_leaf_page-Grown old h ps r.free_list r.total (omega (arith, used.0, used.1)) in
    let room = room-after fuel m t schema h ps r s g in
    let (c, schema', run, holds, keys, key, value, free) =
      insert-Inserted fuel m.next_oid payload (record m.schema_cursor { pager = s }) schema
        (record h { num_pages = root_pgno }) ps room in
    let h' =
      with_head (record h { num_pages = root_pgno }) (head_or (drop (chunk_count payload) ps) 0) in
    let m' = manager_after m t h' c in
    (
      m',
      c,
      schema',
      create_table-run fuel m t h' s c created run free.header,
      Holds-pager c schema' m'.schema_cursor.pager holds (
          Pages-map (λ q. 1 < q) (λ q. m'.schema_cursor.pager.file q ≡ c.pager.file q) schema'
            (λ q l. ground (arith, l)) (InFile-numbered c.pager schema' holds.in_file)),
      keys,
      λ q l. ground (arith, l),
      key,
      value,
      deserialize_table-serialize_table t root_pgno r.short_name r.short_tbl_name r.few_columns
          r.named_columns r.uint64,
      ground (arith, is_same_refl t.name),
      omega (arith, r.uint32),
    )
