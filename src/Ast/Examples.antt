-- ===== src/Ast/Examples.antt =====
-- A column of type "I" without a constraint, after memory that holds 1 and 0.
use cpplite.Common.{◌≡◌, true, false, ◌||◌, [], ◌∷◌}
use cpplite.Ast.{ColumnContext, visit_column}
use cpplite.Ast.Flags.{any_primary, any_null, visit_column_lem}

abbrev plain_column : ColumnContext
plain_column = record { column_name = b'c' ∷ []; type_name = b'I' ∷ []; column_constraint = [] }

visit_column_lem_example :
    ((visit_column (true, false) plain_column).is_primary_key ≡ (any_primary [] || true))
    × ((visit_column (true, false) plain_column).is_nullable ≡ (any_null [] || false))
    × ((visit_column (true, false) plain_column).name ≡ b'c' ∷ [])
    × ((visit_column (true, false) plain_column).datatype_str ≡ b'I' ∷ [])
visit_column_lem_example = visit_column_lem (true, false) plain_column
