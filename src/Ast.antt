-- ===== src/Ast.antt =====
-- lib/ast/ast.cpp: the syntax tree that is built of the parser's tree. The tree is the generated parser's:
-- a context is a record of what the builder asks of it. A field that the source gives no value holds
-- what the memory held, which is an argument.
pub mod Flags
mod Examples
use cpplite.Common.{ℕ, ◌+◌, Bool, true, List, [], ◌∷◌, if◌then◌else◌}
use cpplite.Encoding.{Bytes}
use cpplite.Binder.{ColumnDef, Stmt, create_table_node, drop_table_node}

-- Whether `PRIMARY_()` and `NULL_()` of a constraint are there; `NULL_()` is, in `NOT NULL` too.
pub record ColumnConstraint : Type 0 where
  pub primary : Bool
  pub null : Bool

pub record ColumnContext : Type 0 where
  pub column_name : Bytes
  pub type_name : Bytes
  pub column_constraint : List ColumnConstraint

-- `is_primary_key` and `is_nullable` of a column that has just been declared.
abbrev pub Memory : Type 0
Memory = Bool × Bool

unfoldable pub visit_constraints : List ColumnConstraint → ColumnDef → ColumnDef
visit_constraints [] ast_col = ast_col
visit_constraints (constraint ∷ constraints) ast_col =
    visit_constraints constraints (record ast_col {
      is_primary_key = if constraint.primary then true else ast_col.is_primary_key;
      is_nullable = if constraint.null then true else ast_col.is_nullable;
    })

unfoldable pub visit_column : Memory → ColumnContext → ColumnDef
unfolding visit_constraints
visit_column memory ctx = visit_constraints ctx.column_constraint (record {
  name = ctx.column_name;
  datatype_str = ctx.type_name;
  is_primary_key = memory.0;
  is_nullable = memory.1;
})

-- One column after the other, the first being the `i`-th of the statement.
unfoldable pub visit_columns : (ℕ → Memory) → ℕ → List ColumnContext → List ColumnDef
unfolding visit_column
visit_columns memory i [] = []
visit_columns memory i (ctx ∷ contexts) =
    visit_column (memory i) ctx ∷ visit_columns memory (i + 1) contexts

unfoldable pub visit_create_table_stmt : (ℕ → Memory) → Bytes → List ColumnContext → Stmt
unfolding visit_columns
visit_create_table_stmt memory table_name column_def =
    create_table_node table_name (visit_columns memory 0 column_def)

unfoldable pub visit_drop_stmt : Bytes → Stmt
visit_drop_stmt any_name = drop_table_node any_name
