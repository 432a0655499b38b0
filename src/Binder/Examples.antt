-- ===== src/Binder/Examples.antt =====
-- A table with a column of type `Int`.
use cpplite.Common.{true, false, List, [], ◌∷◌}
use cpplite.Encoding.{Bytes}
use cpplite.Binder.{ColumnDef}
use cpplite.Binder.Binding.{Bound, bind-Bound}

abbrev table_name : Bytes
table_name = 116 ∷ []

abbrev one_column : List ColumnDef
one_column =
    record {
      name = 105 ∷ [];
      datatype_str = 73 ∷ 110 ∷ 116 ∷ [];
      is_primary_key = true;
      is_nullable = false;
    }
    ∷ []

bind-Bound_example : Bound table_name one_column
bind-Bound_example = bind-Bound table_name one_column
