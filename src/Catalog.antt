-- ===== src/Catalog.antt =====
-- `serialize_table` and `deserialize_table` of lib/catalog/catalog.cpp: a table of the schema as the
-- payload of its cell. A string is the list of its bytes. The bytes that the source reads by a raw
-- pointer are zero behind the payload, where that read is undefined; so is an enumeration whose byte
-- is none of its values, which is an error here.
pub mod RoundTrip
pub mod Manager
mod Examples
use cpplite.Common.{
  ℕ, zero, suc, ◌+◌, ◌%◌, ◌^◌, Bool, true, false, not, List, [], ◌∷◌, ◌++◌, ◌==◌, if◌then◌else◌,
  length, get_or, take, drop, take_or,
}
use cpplite.Common.Outcome.{Result, ok, err, ◌>>=◌, assertion, unknown_type}
use cpplite.Encoding.{Bytes, append_uint8, append_uint16, append_uint64, read_uint16, read_uint64}
use cpplite.Record.Schema.{DataType, integer, boolean, text, SchemaType, table, Column, Table}

-- The values of the enumerations.
abbrev pub data_type_byte : DataType → ℕ
data_type_byte integer = 1
data_type_byte boolean = 2
data_type_byte text = 3

abbrev pub data_type_of : ℕ → Result DataType
data_type_of b =
    if b == 1
    then ok integer
    else (if b == 2 then ok boolean else (if b == 3 then ok text else err unknown_type))

abbrev pub schema_type_of : ℕ → Result SchemaType
schema_type_of b = if b == 1 then ok table else err unknown_type

-- A length in a `uint16_t`, and as many characters.
unfoldable pub append_name : Bytes → Bytes → Bytes
append_name serialized name =
    let name_len = length name % 2 ^ 16 in append_uint16 serialized name_len ++ take name_len name

unfoldable pub append_column : Bytes → Column → Bytes
append_column serialized col =
    append_uint8
      (append_uint8 (append_name (append_uint8 serialized (data_type_byte col.data_type)) col.name)
        (if col.is_primary_key then 1 else 0))
      (if col.is_nullable then 1 else 0)

unfoldable pub append_columns : Bytes → List Column → Bytes
append_columns serialized [] = serialized
append_columns serialized (col ∷ cols) = append_columns (append_column serialized col) cols

unfoldable pub serialize_table : Table → ℕ → Bytes
serialize_table t root_pgno =
    let num_cols = length t.columns % 2 ^ 16 in
    let names = append_name (append_name (append_uint8 [] 1) t.name) t.tbl_name in
    append_columns (append_uint16 (append_uint64 names root_pgno) num_cols)
      (take num_cols t.columns)

unfoldable pub read_name : Bytes → ℕ → Result (Bytes × ℕ)
read_name payload offset = do
  name_len ← read_uint16 payload offset
  ok (take_or name_len.0 0 (drop name_len.1 payload), name_len.1 + name_len.0)

unfoldable pub read_column : Bytes → ℕ → Result (Column × ℕ)
read_column payload offset = do
  name ← read_name payload (offset + 1)
  data_type ← data_type_of (get_or payload offset 0)
  let col : Column = record {
    data_type = data_type;
    name = name.0;
    is_primary_key = not (get_or payload name.1 0 == 0);
    is_nullable = not (get_or payload (name.1 + 1) 0 == 0);
  }
  ok (col, name.1 + 2)

unfoldable pub read_columns : ℕ → Bytes → ℕ → Result (List Column × ℕ)
read_columns zero payload offset = ok ([], offset)
read_columns (suc n) payload offset = do
  col ← read_column payload offset
  cols ← read_columns n payload col.1
  ok (col.0 ∷ cols.0, cols.1)

unfoldable pub deserialize_table : Bytes → Result (Table × ℕ)
deserialize_table payload = do
  name ← read_name payload 1
  tbl_name ← read_name payload name.1
  root_pgno ← read_uint64 payload tbl_name.1
  num_cols ← read_uint16 payload root_pgno.1
  cols ← read_columns num_cols.0 payload num_cols.1
  schema_type ← schema_type_of (get_or payload 0 0)
  let t : Table = record {
    schema_type = schema_type;
    name = name.0;
    tbl_name = tbl_name.0;
    columns = cols.0;
  }
  if length payload == cols.1 then ok (t, root_pgno.0) else err assertion
