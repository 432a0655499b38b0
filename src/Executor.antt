-- ===== src/Executor.antt =====
-- lib/executor/ddl.cpp: a bound statement is carried out by the catalog. A statement is a sum, so that
-- its `type()` is its constructor.
use cpplite.Common.{ℕ, List}
use cpplite.Encoding.{Bytes}
use cpplite.Record.Schema.{Table, table, Column}
use cpplite.Binder.{BoundStmt, create_table_stmt, drop_table_stmt}
use cpplite.Catalog.Manager.{C, create_table, drop_table}

abbrev pub new_table : Bytes → List Column → Table
new_table name columns = record {
  schema_type = table;
  name = name;
  tbl_name = name;
  columns = columns;
}

unfoldable pub execute_create_table : ℕ → Bytes → List Column → C (Unit {0})
unfolding create_table
execute_create_table fuel name columns = create_table fuel (new_table name columns)

unfoldable pub execute_drop_table : ℕ → ℕ → Bytes → C (Unit {0})
unfolding drop_table
execute_drop_table depth fuel name = drop_table depth fuel name

unfoldable pub execute : ℕ → ℕ → BoundStmt → C (Unit {0})
unfolding execute_create_table execute_drop_table
execute depth fuel (create_table_stmt name columns) = execute_create_table fuel name columns
execute depth fuel (drop_table_stmt name) = execute_drop_table depth fuel name
