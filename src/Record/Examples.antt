-- ===== src/Record/Examples.antt =====
-- A table with a nullable text column.
use cpplite.Common.{refl, arith, true, false, List, [], ◌∷◌}
use cpplite.Record.Schema.{integer, boolean, text, table, Table}
use cpplite.Record.{Value, null_value, integer_value, text_value, bool_value}
use cpplite.Record.RoundTrip.{ReadBack, deserialize-serialize}

abbrev users : Table
users = record {
  schema_type = table;
  name = 117 ∷ [];
  tbl_name = 117 ∷ [];
  columns =
      record { data_type = integer; name = 105 ∷ []; is_primary_key = true; is_nullable = false }
      ∷ record { data_type = text; name = 110 ∷ []; is_primary_key = false; is_nullable = true }
      ∷ record { data_type = boolean; name = 98 ∷ []; is_primary_key = false; is_nullable = false }
      ∷ [];
}

abbrev nameless : List Value
nameless = integer_value 7 ∷ null_value ∷ bool_value true ∷ []

deserialize-serialize_example : ReadBack nameless users
deserialize-serialize_example =
    deserialize-serialize nameless users ((refl, omega arith), (refl, (refl, tt))) (omega arith)

abbrev keyless : List Value
keyless = null_value ∷ text_value (65 ∷ []) ∷ bool_value true ∷ []
