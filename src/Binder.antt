-- ===== src/Binder.antt =====
-- lib/binder/binder.cpp with the statements of lib/ast/ast.h and lib/binder/binder.h: names of types
-- become types of the schema. A string is the list of its bytes; `toupper` is that of the C locale.
pub mod Binding
pub mod Names
mod Examples
use cpplite.Common.{
  ℕ, ◌+◌, ◌-◌, Bool, true, false, ◌&&◌, List, [], ◌∷◌, ◌++◌, map, leb, ◌==◌, if◌then◌else◌,
}
use cpplite.Common.Outcome.{Result, ok, err, ◌>>=◌, unknown_type}
use cpplite.Encoding.{Bytes}
use cpplite.Record.Schema.{DataType, integer, boolean, text, Column}

pub record ColumnDef : Type 0 where
  pub name : Bytes
  pub datatype_str : Bytes
  pub is_primary_key : Bool
  pub is_nullable : Bool

-- The statements of the syntax tree.
pub data Stmt : Type 0 where
  create_table_node : (name : Bytes) (columns : List ColumnDef) → Stmt
  drop_table_node : (name : Bytes) → Stmt

pub data BoundStmt : Type 0 where
  create_table_stmt : (name : Bytes) (columns : List Column) → BoundStmt
  drop_table_stmt : (name : Bytes) → BoundStmt

unfoldable pub toupper : ℕ → ℕ
toupper c = if leb 97 c && leb c 122 then c - 32 else c

unfoldable pub is_same : Bytes → Bytes → Bool
is_same [] [] = true
is_same [] (y ∷ ys) = false
is_same (x ∷ xs) [] = false
is_same (x ∷ xs) (y ∷ ys) = (x == y) && is_same xs ys

-- "INT", "INTEGER", "TEXT", "BOOL" and "BOOLEAN"
abbrev int_name : Bytes
int_name = 73 ∷ 78 ∷ 84 ∷ []

abbrev bool_name : Bytes
bool_name = 66 ∷ 79 ∷ 79 ∷ 76 ∷ []

abbrev pub type_map : List (Bytes × DataType)
type_map =
    (int_name ++ (69 ∷ 71 ∷ 69 ∷ 82 ∷ []), integer)
    ∷ (int_name, integer)
    ∷ (84 ∷ 69 ∷ 88 ∷ 84 ∷ [], text)
    ∷ (bool_name ++ (69 ∷ 65 ∷ 78 ∷ []), boolean)
    ∷ (bool_name, boolean)
    ∷ []

unfoldable pub find_type : Bytes → List (Bytes × DataType) → Result DataType
find_type name [] = err unknown_type
find_type name ((key, data_type) ∷ entries) =
    if is_same name key then ok data_type else find_type name entries

unfoldable pub bind_column : ColumnDef → Result Column
bind_column col_def = do
  data_type ← find_type (map toupper col_def.datatype_str) type_map
  let col_schema : Column = record {
    data_type = data_type;
    name = col_def.name;
    is_primary_key = col_def.is_primary_key;
    is_nullable = col_def.is_nullable;
  }
  ok col_schema

unfoldable pub bind_columns : List ColumnDef → Result (List Column)
bind_columns [] = ok []
bind_columns (col_def ∷ col_defs) = do
  col ← bind_column col_def
  cols ← bind_columns col_defs
  ok (col ∷ cols)

unfoldable pub bind : Stmt → Result BoundStmt
bind (create_table_node name columns) = do
  cols ← bind_columns columns
  ok (create_table_stmt name cols)
bind (drop_table_node name) = ok (drop_table_stmt name)
