-- ===== src/Record/Refused.antt =====
-- The rows that `serialize` refuses.
use cpplite.Common.{
  ℕ, suc, ◌^◌, ◌<◌, ◌≡◌, arith, Bool, true, false, not, ◌||◌, List, [], ◌∷◌, ◌++◌, ◌==◌,
  if◌then◌else◌, length, replicate,
}
use cpplite.Common.Outcome.{err, assertion, null_violation}
use cpplite.Encoding.{Bytes, append_uint32, append_uint64, append_bool}
use cpplite.Record.Schema.{Column, Table}
use cpplite.Record.{
  Value, null_value, integer_value, text_value, bool_value, num_nullbytes, serialize_values,
  set_bit, serialize,
}

-- A null where its column takes none.
abbrev pub violates : List Column → List Value → Bool
violates (c ∷ cs) (null_value ∷ vs) = not c.is_nullable || violates cs vs
violates (c ∷ cs) (v ∷ vs) = violates cs vs
violates cs vs = false

-- The texts whose length `append_uint32` can hold.
abbrev pub AreShort : List Value → Type 0
AreShort [] = Unit {0}
AreShort (text_value v ∷ vs) = (length v < 2 ^ 32) × AreShort vs
AreShort (v ∷ vs) = AreShort vs

serialize_values_refused :
    (cs : List Column) (vs : List Value) (i : ℕ) (nullbytes values : Bytes)
    → AreShort vs
    → length cs ≡ length vs
    → violates cs vs ≡ true
    → serialize_values cs vs i nullbytes values ≡ err null_violation
unfolding serialize_values
serialize_values_refused [] [] i nullbytes values s l h = cc
serialize_values_refused (c ∷ cs) [] i nullbytes values s l h = absurd (omega arith)
serialize_values_refused [] (v ∷ vs) i nullbytes values s l h = absurd (omega arith)
serialize_values_refused (c ∷ cs) (null_value ∷ vs) i nullbytes values s l h =
    ground (arith, serialize_values_refused cs vs (suc i) (set_bit nullbytes i) values)
serialize_values_refused (c ∷ cs) (integer_value v ∷ vs) i nullbytes values s l h =
    serialize_values_refused cs vs (suc i) nullbytes (append_uint64 values v) s (omega arith) h
serialize_values_refused (c ∷ cs) (text_value v ∷ vs) i nullbytes values s l h = ground (
  arith,
  s.0,
  serialize_values_refused cs vs (suc i) nullbytes (append_uint32 values (length v) ++ v) s.1,
)
serialize_values_refused (c ∷ cs) (bool_value v ∷ vs) i nullbytes values s l h =
    serialize_values_refused cs vs (suc i) nullbytes (append_bool values v) s (omega arith) h

-- `serialize` of a row whose texts are shorter than 2 ^ 32 bytes, and that has a null in a column that
-- takes none or another number of values than the table has columns, writes nothing: with another
-- number an assertion fails, and with the right one the violation is reported.
pub serialize_refused :
    (row : List Value) (t : Table)
    → AreShort row
    → (violates t.columns row || not (length t.columns == length row)) ≡ true
    → serialize row t
      ≡ (if length t.columns == length row then err null_violation else err assertion)
unfolding serialize
serialize_refused row t s h =
    ground (arith, serialize_values_refused t.columns row 0 (replicate (num_nullbytes t) 0) [] s)
