-- ===== src/Ast/Flags.antt =====
-- The flags of a column.
use cpplite.Common.{◌≡◌, refl, arith, Bool, true, false, ◌||◌, [], ◌∷◌, List, if◌then◌else◌}
use cpplite.Binder.{ColumnDef}
use cpplite.Ast.{ColumnConstraint, ColumnContext, Memory, visit_constraints, visit_column}

abbrev pub any_primary : List ColumnConstraint → Bool
any_primary [] = false
any_primary (c ∷ cs) = c.primary || any_primary cs

abbrev pub any_null : List ColumnConstraint → Bool
any_null [] = false
any_null (c ∷ cs) = c.null || any_null cs

visit_constraints_lem :
    (cs : List ColumnConstraint) (col : ColumnDef)
    → ((visit_constraints cs col).is_primary_key ≡ (any_primary cs || col.is_primary_key))
      × ((visit_constraints cs col).is_nullable ≡ (any_null cs || col.is_nullable))
      × ((visit_constraints cs col).name ≡ col.name)
      × ((visit_constraints cs col).datatype_str ≡ col.datatype_str)
unfolding visit_constraints
visit_constraints_lem [] col = (refl, refl, refl, refl)
visit_constraints_lem (c ∷ cs) col =
    let col' = record col {
      is_primary_key = if c.primary then true else col.is_primary_key;
      is_nullable = if c.null then true else col.is_nullable;
    } in
    let (p, n, name, datatype) = visit_constraints_lem cs col' in
    (ground (arith, p), ground (arith, n), name, datatype)

-- A column keeps its name and the name of its type. It is a primary key if a constraint says so, and
-- nullable if a constraint has the word NULL, also in NOT NULL; if no constraint does, each of the two is
-- what the memory held before.
pub visit_column_lem :
    (memory : Memory) (ctx : ColumnContext)
    → ((visit_column memory ctx).is_primary_key ≡ (any_primary ctx.column_constraint || memory.0))
      × ((visit_column memory ctx).is_nullable ≡ (any_null ctx.column_constraint || memory.1))
      × ((visit_column memory ctx).name ≡ ctx.column_name)
      × ((visit_column memory ctx).datatype_str ≡ ctx.type_name)
unfolding visit_column
visit_column_lem memory ctx = visit_constraints_lem ctx.column_constraint (record {
  name = ctx.column_name;
  datatype_str = ctx.type_name;
  is_primary_key = memory.0;
  is_nullable = memory.1;
})
