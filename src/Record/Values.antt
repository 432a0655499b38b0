-- ===== src/Record/Values.antt =====
-- The two loops over the columns.
use mathlib.Core.List.{append_assoc, append-nil}
use cpplite.Common.{
  ℕ, suc, ◌+◌, ◌^◌, ◌<◌, ◌≡◌, refl, ap, arith, Bool, true, false, Option, List, [], ◌∷◌, ◌++◌,
  if◌then◌else◌, Bool-cases, inl, inr, length, length-append,
}
use cpplite.Common.Outcome.{ok}
use cpplite.Encoding.{Bytes, append_bool, append_uint8, read_uint8, read_str, append_str}
use cpplite.Encoding.RoundTrip.{be, append_uint-be, length-be, read32, read64, read-append_str}
use cpplite.Record.Schema.{integer, boolean, text, Column}
use cpplite.Record.Bitmap.{nulls, holds_null, Marks}
use cpplite.Record.{
  Value, null_value, integer_value, text_value, bool_value, append_value, set_bit, serialize_values,
  read_value, is_marked, deserialize_values,
}

-- A value fits a column that has its type, or that takes nulls.
abbrev pub Fits : Column → Value → Type 0
Fits c null_value = c.is_nullable ≡ true
Fits c (integer_value v) = (c.data_type ≡ integer) × (v < 2 ^ 64)
Fits c (text_value v) = (c.data_type ≡ text) × (length v < 2 ^ 32)
Fits c (bool_value v) = c.data_type ≡ boolean

abbrev pub RowFits : List Column → List Value → Type 0
RowFits [] [] = Unit {0}
RowFits [] (v ∷ vs) = ⊥
RowFits (c ∷ cs) [] = ⊥
RowFits (c ∷ cs) (v ∷ vs) = Fits c v × RowFits cs vs

unfoldable pub value_bytes : Value → Bytes
value_bytes null_value = []
value_bytes (integer_value v) = be 8 v
value_bytes (text_value v) = be 4 (length v) ++ v
value_bytes (bool_value v) = (if v then 1 else 0) ∷ []

unfoldable pub row_bytes : List Value → Bytes
row_bytes [] = []
row_bytes (v ∷ vs) = value_bytes v ++ row_bytes vs

append_value-bytes :
    (c : Column) (v : Value) (buf : Bytes)
    → Fits c v
    → append_value buf v ≡ ok (buf ++ value_bytes v)
unfolding value_bytes append_bool
append_value-bytes c null_value buf f = ground (arith, append-nil buf)
append_value-bytes c (integer_value v) buf f = ap ok ((append_uint-be buf v).2)
append_value-bytes c (text_value v) buf f =
    ground (arith, (append_uint-be buf (length v)).1, append_assoc buf (be 4 (length v)) v)
append_value-bytes c (bool_value v) buf f = refl

pub length-RowFits : (cs : List Column) (vs : List Value) → RowFits cs vs → length cs ≡ length vs
length-RowFits [] [] f = refl
length-RowFits [] (v ∷ vs) f = absurd f
length-RowFits (c ∷ cs) [] f = absurd f
length-RowFits (c ∷ cs) (v ∷ vs) f = ap suc (length-RowFits cs vs f.1)

pub serialize_values_lem :
    (cs : List Column) (vs : List Value) (i : ℕ) (nullbytes values : Bytes)
    → RowFits cs vs
    → serialize_values cs vs i nullbytes values ≡ ok (nulls vs i nullbytes, values ++ row_bytes vs)
unfolding serialize_values nulls row_bytes value_bytes
serialize_values_lem [] [] i nullbytes values f = ground (arith, append-nil values)
serialize_values_lem [] (v ∷ vs) i nullbytes values f = absurd f
serialize_values_lem (c ∷ cs) [] i nullbytes values f = absurd f
serialize_values_lem (c ∷ cs) (null_value ∷ vs) i nullbytes values f =
    ground (arith, f.0, serialize_values_lem cs vs (suc i) (set_bit nullbytes i) values f.1)
serialize_values_lem (c ∷ cs) (integer_value v ∷ vs) i nullbytes values f =
    let more = value_bytes (integer_value v) in
    ground (
      arith,
      append_value-bytes c (integer_value v) values f.0,
      serialize_values_lem cs vs (suc i) nullbytes (values ++ more) f.1,
      append_assoc values more (row_bytes vs),
    )
serialize_values_lem (c ∷ cs) (text_value v ∷ vs) i nullbytes values f =
    let more = value_bytes (text_value v) in
    ground (
      arith,
      append_value-bytes c (text_value v) values f.0,
      serialize_values_lem cs vs (suc i) nullbytes (values ++ more) f.1,
      append_assoc values more (row_bytes vs),
    )
serialize_values_lem (c ∷ cs) (bool_value v ∷ vs) i nullbytes values f =
    let more = value_bytes (bool_value v) in
    ground (
      arith,
      append_value-bytes c (bool_value v) values f.0,
      serialize_values_lem cs vs (suc i) nullbytes (values ++ more) f.1,
      append_assoc values more (row_bytes vs),
    )

append_str-bytes :
    (pre str rest : Bytes)
    → read_str (pre ++ (str ++ rest)) (length str) (length pre) ≡ ok (str, length pre + length str)
unfolding append_str
append_str-bytes pre str rest =
    rw (← append_assoc pre str rest) ((read-append_str pre rest str 0 true).2)

text_at :
    (pre v rest : Bytes)
    → read_str (pre ++ (be 4 (length v) ++ (v ++ rest))) (length v) (length pre + 4)
      ≡ ok (v, length pre + 4 + length v)
text_at pre v rest =
    let head = be 4 (length v) in
    let at : length (pre ++ head) ≡ length pre + 4 =
      ground (arith, length-append pre head, length-be 4 (length v)) in
    rw (← append_assoc pre head (v ++ rest), ← at)
      (ground (arith, append_str-bytes (pre ++ head) v rest))

byte_of :
    (pre rest : Bytes) (v : Bool)
    → read_uint8 (pre ++ ((if v then 1 else 0) ∷ rest)) (length pre)
      ≡ ok (if v then 1 else 0, length pre + 1)
unfolding append_uint8
byte_of pre rest v =
    let b : ℕ = if v then 1 else 0 in
    rw (← append_assoc pre (b ∷ []) rest) ((read-append_str pre rest [] b v).0)

read_value-bytes :
    (c : Column) (v : Value) (pre rest : Bytes)
    → Fits c v
    → holds_null v ≡ false
    → read_value c.data_type (pre ++ (value_bytes v ++ rest)) (length pre)
      ≡ ok (v, length (pre ++ value_bytes v))
unfolding read_value value_bytes
read_value-bytes c null_value pre rest f h = cc
read_value-bytes c (integer_value v) pre rest f h =
    ground (arith, f.0, read64 pre rest v f.1, length-append pre (be 8 v), length-be 8 v)
read_value-bytes c (text_value v) pre rest f h = ground (
  arith,
  f.0,
  read32 pre (v ++ rest) (length v) f.1,
  append_assoc (be 4 (length v)) v rest,
  text_at pre v rest,
  length-append pre (be 4 (length v) ++ v),
  length-append (be 4 (length v)) v,
  length-be 4 (length v),
)
read_value-bytes c (bool_value v) pre rest f h =
    ground (arith, f, byte_of pre rest v, length-append pre ((if v then 1 else 0) ∷ []))

null_bytes : (v : Value) → holds_null v ≡ true → (v ≡ null_value) × (value_bytes v ≡ [])
unfolding value_bytes
null_bytes null_value h = (refl, refl)
null_bytes (integer_value v) h = cc
null_bytes (text_value v) h = cc
null_bytes (bool_value v) h = cc

pub deserialize_values_lem :
    (cs : List Column) (vs : List Value) (nullbits : Option ℕ) (bytes pre : Bytes) (i : ℕ)
    → RowFits cs vs
    → Marks (is_marked bytes nullbits) i vs
    → i + length vs < 2 ^ 16
    → bytes ≡ pre ++ row_bytes vs
    → deserialize_values cs nullbits bytes i (length pre) ≡ ok vs
unfolding deserialize_values row_bytes
deserialize_values_lem [] [] nullbits bytes pre i f m l p = refl
deserialize_values_lem [] (v ∷ vs) nullbits bytes pre i f m l p = absurd f
deserialize_values_lem (c ∷ cs) [] nullbits bytes pre i f m l p = absurd f
deserialize_values_lem (c ∷ cs) (v ∷ vs) nullbits bytes pre i f m l p =
    elim (Bool-cases (holds_null v)) [
      | inl null ↦ ground (
        arith,
        null_bytes v null,
        m.0,
        deserialize_values_lem cs vs nullbits bytes pre (suc i) f.1 m.1,
        p,
      )
      | inr value ↦ ground (
        arith,
        value,
        m.0,
        p,
        read_value-bytes c v pre (row_bytes vs) f.0,
        deserialize_values_lem cs vs nullbits bytes (pre ++ value_bytes v) (suc i) f.1 m.1,
        append_assoc pre (value_bytes v) (row_bytes vs),
      )
    ]
