-- ===== src/Catalog/Examples.antt =====
-- The table `t` of two columns, with its root on page 3, and a schema that takes it.
use cpplite.Common.{◌≡◌, ◌==◌, if◌then◌else◌, refl, arith, true, false, [], ◌∷◌, length}
use cpplite.Common.Sorted.{has}
use cpplite.Common.Outcome.{ok}
use cpplite.Record.Schema.{integer, text, table, Table}
use cpplite.Pager.Page.{first, leaf, blank, FirstHeader}
use cpplite.Pager.Disk.{PagerState}
use cpplite.Pager.Leaf.{LeafPageManager, header_of}
use cpplite.BTree.Cursor.{default_config}
use cpplite.BTree.Tree.{tip, InFile, height, entries, leaf_for, Ordered}
use cpplite.BTree.Tree.Pages.{Pages, Distinct}
use cpplite.Encoding.{append_uint8, append_uint16, append_uint64}
use cpplite.Catalog.{serialize_table, deserialize_table, append_columns, append_column, append_name}
use cpplite.Catalog.RoundTrip.{deserialize_table-serialize_table}
use cpplite.Binder.{is_same}
use cpplite.Catalog.Manager.{CatalogManager, find}
use cpplite.Catalog.Manager.Dropped.{CanDrop, TableDropped, drop_table-Dropped}
use cpplite.Catalog.Manager.Created.{CanCreate, TableCreated, create_table-Created}

abbrev two_columns : Table
two_columns = record {
  schema_type = table;
  name = 116 ∷ [];
  tbl_name = 116 ∷ [];
  columns =
      record { data_type = integer; name = 105 ∷ []; is_primary_key = true; is_nullable = false }
      ∷ record {
        data_type = text;
        name = 110 ∷ 97 ∷ [];
        is_primary_key = false;
        is_nullable = true;
      }
      ∷ [];
}

deserialize_table-serialize_table_example :
    deserialize_table (serialize_table two_columns 3) ≡ ok (two_columns, 3)
deserialize_table-serialize_table_example =
    deserialize_table-serialize_table two_columns 3 (omega arith) (omega arith) (omega arith)
      (omega arith, (omega arith, tt)) (omega arith)

-- A schema of one leaf, with one table.
abbrev schema_leaf : LeafPageManager
schema_leaf = record {
  pgno = 2;
  cells = record { payload_size = 0; key = 1; record_page = 0 } ∷ [];
  num_cells = 1;
  total_bytes_free = 4040;
  prev_page = 0;
  next_page = 0;
}

abbrev header : FirstHeader
header = record { num_pages = 2; free_page_head = 0; next_oid = 2 }

abbrev schema_pager : PagerState
schema_pager = record {
  file = λ p.
      if p == 1
      then first header
      else (if p == 2 then leaf (header_of schema_leaf) schema_leaf.cells else blank);
  file_pages = 2;
  total_num_pages = 2;
}

abbrev manager : CatalogManager
manager = record {
  tables = [];
  table_oids = [];
  table_root_pages = [];
  table_dependencies = [];
  schema_cursor = record {
    cursor = [];
    pager = schema_pager;
    root_pgno = 2;
    config = default_config;
  };
  next_oid = 2;
}

schema_leaf-InFile : InFile schema_pager (tip schema_leaf)
unfolding InFile
schema_leaf-InFile = (
  record { count = refl; sorted = tt; room = refl },
  record { old_cells = []; page = refl; numbered = omega arith },
)

payload-length : length (serialize_table two_columns 3) ≡ 30
unfolding serialize_table append_columns append_column append_uint8 append_name append_uint16
    append_uint64
payload-length = refl

manager-CanCreate : CanCreate 1 manager two_columns (tip schema_leaf) header []
unfolding has height entries leaf_for Ordered Pages Distinct serialize_table
manager-CanCreate = record {
  holds = record {
    in_file = schema_leaf-InFile;
    root = refl;
    ordered = (omega arith, omega arith, tt);
  };
  high = omega arith;
  distinct = tt;
  in_use = (omega arith, omega arith, tt);
  free_list = record { header = refl; head = refl; chain = tt; distinct = tt; in_file = tt };
  total = refl;
  new_oid = refl;
  uint32 = omega arith;
  few = omega arith;
  room = omega arith;
  uint64 = omega arith;
  short_name = omega arith;
  short_tbl_name = omega arith;
  few_columns = omega arith;
  named_columns = (omega arith, (omega arith, tt));
  short = omega (arith, payload-length);
}

create_table-Created_example : TableCreated 1 manager two_columns (tip schema_leaf)
create_table-Created_example =
    create_table-Created 1 manager two_columns (tip schema_leaf) header [] manager-CanCreate

-- A schema of one leaf, with a table to drop; its least number of cells is none.
abbrev lone_manager : CatalogManager
lone_manager = record {
  tables = (two_columns.name, two_columns) ∷ [];
  table_oids = (two_columns.name, 1) ∷ [];
  table_root_pages = (two_columns.name, 3) ∷ [];
  table_dependencies = (two_columns.name, two_columns.name ∷ two_columns.name ∷ []) ∷ [];
  schema_cursor = record {
    cursor = [];
    pager = schema_pager;
    root_pgno = 2;
    config = record default_config { leaf_min_cells = 0 };
  };
  next_oid = 2;
}

lone_manager-CanDrop : CanDrop 1 lone_manager two_columns.name 1 two_columns (tip schema_leaf)
unfolding has height entries leaf_for Ordered Distinct find is_same
lone_manager-CanDrop = record {
  in_tables = refl;
  in_oids = refl;
  named = refl;
  alone = (refl, (refl, tt));
  holds = record {
    in_file = schema_leaf-InFile;
    root = refl;
    ordered = (omega arith, omega arith, tt);
  };
  high = omega arith;
  distinct = tt;
  uint32 = omega arith;
  there = refl;
  spare = omega arith;
}

drop_table-Dropped_example : TableDropped 2 1 lone_manager two_columns.name 1 (tip schema_leaf)
drop_table-Dropped_example =
    drop_table-Dropped 0 1 lone_manager two_columns.name 1 two_columns (tip schema_leaf)
      lone_manager-CanDrop
