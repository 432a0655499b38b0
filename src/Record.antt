-- ===== src/Record.antt =====
-- lib/record/record.h and record.cpp: a row of values as bytes. An `int64_t` is the number below
-- 2 ^ 64 that its cast to `uint64_t` gives. `deserialize` counts the columns in a `uint16_t`: for a
-- table of 2 ^ 16 columns or more its loop does not end, and the model says nothing of such a table.
pub mod Schema
pub mod Bitmap
pub mod Values
pub mod RoundTrip
pub mod Refused
mod Examples
use cpplite.Common.{
  ℕ, zero, suc, ◌+◌, ◌-◌, ◌*◌, ◌/◌, ◌%◌, ◌^◌, Bool, true, false, not, Option, none, some, List, [],
  ◌∷◌, ◌++◌, ltb, ◌==◌, if◌then◌else◌, length, get_or, set, drop, replicate,
}
use cpplite.Common.Outcome.{Result, ok, err, ◌>>=◌, assertion, out_of_range, null_violation}
use cpplite.Encoding.{
  Bytes, append_uint16, append_uint32, append_uint64, append_bool, read_uint8, read_uint16,
  read_uint32, read_uint64, read_str,
}
use Schema.{DataType, integer, boolean, text, Column, Table}

pub data Flag : Type 0 where
  has_null : Flag

pub data Value : Type 0 where
  null_value : Value
  integer_value : ℕ → Value
  text_value : Bytes → Value
  bool_value : Bool → Value

pub record RowHeader : Type 0 where
  pub xmin : ℕ
  pub xmax : ℕ
  pub flags : ℕ

-- `ValueSerializer`
abbrev pub append_value : Bytes → Value → Result Bytes
append_value buf null_value = ok buf
append_value buf (integer_value v) = ok (append_uint64 buf v)
append_value buf (bool_value v) = ok (append_bool buf v)
append_value buf (text_value v) =
    if ltb (2 ^ 32 - 1) (length v) then err assertion else ok (append_uint32 buf (length v) ++ v)

-- `b & (1 << k)`
unfoldable pub test_bit : ℕ → ℕ → Bool
test_bit zero b = b % 2 == 1
test_bit (suc k) b = test_bit k (b / 2)

-- `b | (1 << k)`
unfoldable pub or_bit : ℕ → ℕ → ℕ
or_bit zero b = if b % 2 == 1 then b else b + 1
or_bit (suc k) b = b % 2 + 2 * or_bit k (b / 2)

unfoldable pub extract_flags : ℕ → List Flag
unfolding test_bit
extract_flags flags = if test_bit 0 flags then has_null ∷ [] else []

unfoldable pub is_null : Bytes → ℕ → Bool
is_null bitmap col_idx = test_bit (col_idx % 8) (get_or bitmap (col_idx / 8) 0)

unfoldable pub set_bit : Bytes → ℕ → Bytes
set_bit nullbytes idx = set nullbytes (idx / 8) (or_bit (idx % 8) (get_or nullbytes (idx / 8) 0))

unfoldable pub flags_of : List Column → ℕ → ℕ
flags_of [] flags = flags
flags_of (c ∷ cs) flags = flags_of cs (if c.is_nullable then or_bit 0 flags else flags)

unfoldable pub build_row_header : Table → RowHeader
build_row_header t = record { xmin = 0; xmax = 0; flags = flags_of t.columns 0 }

-- The loop of `serialize`, on the columns and the values from the `i`th on.
unfoldable pub serialize_values :
    List Column → List Value → ℕ → Bytes → Bytes → Result (Bytes × Bytes)
serialize_values cs [] i nullbytes values = ok (nullbytes, values)
serialize_values [] (v ∷ vs) i nullbytes values = err out_of_range
serialize_values (c ∷ cs) (null_value ∷ vs) i nullbytes values =
    let rest = serialize_values cs vs (suc i) (set_bit nullbytes i) values in
    if c.is_nullable then rest else err null_violation
serialize_values (c ∷ cs) (v ∷ vs) i nullbytes values = do
  values' ← append_value values v
  serialize_values cs vs (suc i) nullbytes values'

abbrev pub num_nullbytes : Table → ℕ
num_nullbytes t = (length t.columns + 7) / 8

abbrev pub append_header : RowHeader → Bytes
append_header h = append_uint16 (append_uint64 (append_uint64 [] h.xmin) h.xmax) h.flags

abbrev pub with_bitmap : ℕ → Bytes → Bytes → Bytes
with_bitmap flags buffer nullbytes = if test_bit 0 flags then buffer ++ nullbytes else buffer

unfoldable pub serialize : List Value → Table → Result Bytes
serialize row t =
    let header = build_row_header t in
    let written = serialize_values t.columns row 0 (replicate (num_nullbytes t) 0) [] in
    if length t.columns == length row
    then (written >>= λ r. ok (with_bitmap header.flags (append_header header) r.0 ++ r.1))
    else err assertion

-- The loop of `deserialize` over the flags: where the bitmap is, and the offset behind it.
unfoldable pub null_bits : List Flag → ℕ → Option ℕ → ℕ → Option ℕ × ℕ
null_bits [] size nullbits offset = (nullbits, offset)
null_bits (has_null ∷ flags) size nullbits offset =
    null_bits flags size (some offset) (offset + size)

-- `nullbits != nullptr && is_null(nullbits, i)`
abbrev pub is_marked : Bytes → Option ℕ → ℕ → Bool
is_marked bytes none i = false
is_marked bytes (some base) i = is_null (drop base bytes) i

unfoldable pub read_value : DataType → Bytes → ℕ → Result (Value × ℕ)
read_value boolean bytes offset = do
  r ← read_uint8 bytes offset
  ok (bool_value (not (r.0 == 0)), r.1)
read_value integer bytes offset = do r ← read_uint64 bytes offset; ok (integer_value r.0, r.1)
read_value text bytes offset = do
  r ← read_uint32 bytes offset
  s ← read_str bytes r.0 r.1
  ok (text_value s.0, s.1)

-- The loop of `deserialize` over the columns.
unfoldable pub deserialize_values : List Column → Option ℕ → Bytes → ℕ → ℕ → Result (List Value)
deserialize_values [] nullbits bytes i offset = ok []
deserialize_values (c ∷ cs) nullbits bytes i offset =
    let i' = (i + 1) % 2 ^ 16 in
    let null_first : Result (List Value) = (do
      rest ← deserialize_values cs nullbits bytes i' offset
      ok (null_value ∷ rest)) in
    let value_first : Result (List Value) = (do
      r ← read_value c.data_type bytes offset
      rest ← deserialize_values cs nullbits bytes i' r.1
      ok (r.0 ∷ rest)) in
    if is_marked bytes nullbits i then null_first else value_first

unfoldable pub deserialize : Bytes → Table → Result (List Value)
deserialize bytes t = do
  xmin ← read_uint64 bytes 0
  xmax ← read_uint64 bytes xmin.1
  flagbits ← read_uint16 bytes xmax.1
  let found = null_bits (extract_flags flagbits.0) (num_nullbytes t) none flagbits.1
  deserialize_values t.columns found.0 bytes 0 found.1
