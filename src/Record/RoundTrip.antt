-- ===== src/Record/RoundTrip.antt =====
-- What `deserialize` makes of what `serialize` wrote.
use mathlib.Core.List.{append_assoc}
use cpplite.Common.{
  ℕ, zero, suc, ◌+◌, ◌*◌, ◌/◌, ◌^◌, ◌≤◌, ◌<◌, ◌≡◌, refl, sym, ◌∙◌, arith, Bool, false, none, some,
  List, [], ◌∷◌, ◌++◌, inl, inr, ◌⊎◌, length, length-append, length-replicate, get_or, drop,
  replicate,
}
use cpplite.Common.Outcome.{ok}
use cpplite.Encoding.{Bytes, append_uint64, read_uint16, read_uint64}
use cpplite.Encoding.RoundTrip.{be, append_uint-be, length-be, read16, read64}
use cpplite.Record.Schema.{Column, Table}
use cpplite.Record.Bitmap.{nulls, Marks, nulls-Marks, length-nulls, replicate-IsClear}
use cpplite.Record.Values.{
  RowFits, length-RowFits, row_bytes, serialize_values_lem, deserialize_values_lem,
}
use cpplite.Record.{
  RowHeader, Value, null_value, integer_value, text_value, bool_value, is_null, is_marked, or_bit,
  test_bit, flags_of, build_row_header, append_header, num_nullbytes, serialize, extract_flags,
  null_bits, deserialize,
}

drop-append : (xs ys : Bytes) → drop (length xs) (xs ++ ys) ≡ ys
drop-append [] ys = refl
drop-append (x ∷ xs) ys = drop-append xs ys

get_or-left : (xs ys : Bytes) (i : ℕ) → i < length xs → get_or (xs ++ ys) i 0 ≡ get_or xs i 0
get_or-left [] ys i h = absurd (omega arith)
get_or-left (x ∷ xs) ys zero h = refl
get_or-left (x ∷ xs) ys (suc i) h = get_or-left xs ys i (omega arith)

is_null-left :
    (nullbytes ys : Bytes) (j : ℕ)
    → j < 8 * length nullbytes
    → is_null nullbytes j ≡ is_null (nullbytes ++ ys) j
unfolding is_null
is_null-left nullbytes ys j h = rw (get_or-left nullbytes ys (j / 8) (omega arith)) refl

Marks-agree :
    (bit bit' : ℕ → Bool) (i n : ℕ) (vs : List Value)
    → ((j : ℕ) → j < n → bit j ≡ bit' j)
    → i + length vs ≤ n
    → Marks bit i vs
    → Marks bit' i vs
Marks-agree bit bit' i n [] e l m = tt
Marks-agree bit bit' i n (v ∷ vs) e l m =
    (sym (e i (omega arith)) ∙ m.0, Marks-agree bit bit' (suc i) n vs e (omega arith) m.1)

flags_of-set : (cs : List Column) → flags_of cs 1 ≡ 1
unfolding flags_of or_bit
flags_of-set [] = refl
flags_of-set (c ∷ cs) = ground (arith, flags_of-set cs)

-- Without a column that takes nulls there is no bitmap and no null.
flags_of-cases :
    (cs : List Column) (vs : List Value) (i : ℕ)
    → RowFits cs vs
    → (flags_of cs 0 ≡ 1) ⊎ ((flags_of cs 0 ≡ 0) × Marks (λ _. false) i vs)
unfolding flags_of or_bit
flags_of-cases [] [] i f = inr (refl, tt)
flags_of-cases [] (v ∷ vs) i f = absurd f
flags_of-cases (c ∷ cs) [] i f = absurd f
flags_of-cases (c ∷ cs) (null_value ∷ vs) i f = inl (ground (arith, f.0, flags_of-set cs))
flags_of-cases (c ∷ cs) (integer_value v ∷ vs) i f =
    ground (arith, flags_of-set cs, flags_of-cases cs vs (suc i) f.1)
flags_of-cases (c ∷ cs) (text_value v ∷ vs) i f =
    ground (arith, flags_of-set cs, flags_of-cases cs vs (suc i) f.1)
flags_of-cases (c ∷ cs) (bool_value v ∷ vs) i f =
    ground (arith, flags_of-set cs, flags_of-cases cs vs (suc i) f.1)

abbrev header_with : ℕ → RowHeader
header_with flags = record { xmin = 0; xmax = 0; flags = flags }

header_bytes : (flags : ℕ) → append_header (header_with flags) ≡ be 8 0 ++ (be 8 0 ++ be 2 flags)
header_bytes flags = ground (
  arith,
  (append_uint-be (append_uint64 (append_uint64 [] 0) 0) flags).0,
  (append_uint-be (append_uint64 [] 0) 0).2,
  (append_uint-be [] 0).2,
  append_assoc (be 8 0) (be 8 0) (be 2 flags),
)

length-header : (flags : ℕ) → length (append_header (header_with flags)) ≡ 18
length-header flags = ground (
  arith,
  header_bytes flags,
  length-append (be 8 0) (be 8 0 ++ be 2 flags),
  length-append (be 8 0) (be 2 flags),
  length-be 8 0,
  length-be 2 flags,
)

header_rest :
    (flags : ℕ) (body : Bytes)
    → append_header (header_with flags) ++ body ≡ be 8 0 ++ (be 8 0 ++ (be 2 flags ++ body))
header_rest flags body = ground (
  arith,
  header_bytes flags,
  append_assoc (be 8 0) (be 8 0 ++ be 2 flags) body,
  append_assoc (be 8 0) (be 2 flags) body,
)

read_header :
    (flags : ℕ) (body : Bytes)
    → flags < 2 ^ 16
    → let bytes = append_header (header_with flags) ++ body in
      (read_uint64 bytes 0 ≡ ok (0, 8))
      × (read_uint64 bytes 8 ≡ ok (0, 16))
      × (read_uint16 bytes 16 ≡ ok (flags, 18))
read_header flags body h = (
  ground (arith, header_rest flags body, read64 [] (be 8 0 ++ (be 2 flags ++ body)) 0),
  ground (arith, header_rest flags body, read64 (be 8 0) (be 2 flags ++ body) 0, length-be 8 0),
  ground (
    arith,
    header_rest flags body,
    append_assoc (be 8 0) (be 8 0) (be 2 flags ++ body),
    read16 (be 8 0 ++ be 8 0) body flags,
    length-append (be 8 0) (be 8 0),
    length-be 8 0,
  ),
)

-- A row of a table is written, and what is written is read back.
abbrev pub ReadBack : List Value → Table → Type 0
ReadBack row t = (bytes : Bytes) × (serialize row t ≡ ok bytes) × (deserialize bytes t ≡ ok row)

module _ (row : List Value) (t : Table) (f : RowFits t.columns row)
    (l : length t.columns < 2 ^ 16) where
  with_nulls : flags_of t.columns 0 ≡ 1 → ReadBack row t
  unfolding serialize build_row_header deserialize extract_flags null_bits test_bit
  with_nulls e =
      let blank : Bytes = replicate (num_nullbytes t) 0 in
      let nullbytes : Bytes = nulls row 0 blank in
      let head : Bytes = append_header (header_with 1) in
      let vals : Bytes = row_bytes row in
      let count : length t.columns ≡ length row = length-RowFits t.columns row f in
      let size : length nullbytes ≡ num_nullbytes t =
        length-nulls row 0 blank ∙ length-replicate (num_nullbytes t) 0 in
      let enough : length row ≤ 8 * length nullbytes = omega (arith, size, count) in
      let bytes : Bytes = (head ++ nullbytes) ++ vals in
      let split : bytes ≡ head ++ (nullbytes ++ vals) = append_assoc head nullbytes vals in
      let behind : drop 18 bytes ≡ nullbytes ++ vals =
        ground (arith, split, length-header 1, drop-append head (nullbytes ++ vals)) in
      let marks : Marks (is_marked bytes (some 18)) 0 row =
        Marks-agree (is_null nullbytes) (is_marked bytes (some 18)) 0 (length row) row
          (λ j h. ground (arith, behind, is_null-left nullbytes vals j)) (omega arith)
          (nulls-Marks row 0 blank (replicate-IsClear (num_nullbytes t) 0)
            (ground (arith, enough, size, length-replicate {A = ℕ} (num_nullbytes t) 0))) in
      let reads = read_header 1 (nullbytes ++ vals) (omega arith) in
      (
        bytes,
        ground (arith, e, count, serialize_values_lem t.columns row 0 blank [] f),
        ground (
          arith,
          split,
          reads.0,
          reads.1,
          reads.2,
          length-header 1,
          size,
          length-append head nullbytes,
          deserialize_values_lem t.columns row (some 18) bytes (head ++ nullbytes) 0 f marks
              (omega (arith, l, count)) refl,
        ),
      )

  without_nulls : flags_of t.columns 0 ≡ 0 → Marks (λ _. false) 0 row → ReadBack row t
  unfolding serialize build_row_header deserialize extract_flags null_bits test_bit
  without_nulls e m =
      let blank : Bytes = replicate (num_nullbytes t) 0 in
      let head : Bytes = append_header (header_with 0) in
      let vals : Bytes = row_bytes row in
      let count : length t.columns ≡ length row = length-RowFits t.columns row f in
      let bytes : Bytes = head ++ vals in
      let reads = read_header 0 vals (omega arith) in
      (
        bytes,
        ground (arith, e, count, serialize_values_lem t.columns row 0 blank [] f),
        ground (
          arith,
          reads.0,
          reads.1,
          reads.2,
          length-header 0,
          deserialize_values_lem t.columns row none bytes head 0 f m (omega (arith, l, count)) refl,
        ),
      )

  -- `deserialize` gives back a row that `serialize` wrote, whichever of its values are null, when each
  -- value has its column's type and width, only columns that take nulls hold one, and the columns can
  -- be counted in 16 bits.
  pub deserialize-serialize : ReadBack row t
  deserialize-serialize = elim (flags_of-cases t.columns row 0 f) [
    | inl e ↦ with_nulls e
    | inr h ↦ without_nulls h.0 h.1
  ]
