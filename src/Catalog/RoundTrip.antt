-- ===== src/Catalog/RoundTrip.antt =====
-- What `deserialize_table` makes of what `serialize_table` wrote.
use mathlib.Core.List.{append_assoc, append-nil}
use cpplite.Common.{
  ℕ, ◌^◌, ◌<◌, ◌≡◌, refl, sym, ap, ◌∙◌, arith, Bool, true, false, not, List, [], ◌∷◌, ◌++◌, ◌==◌,
  if◌then◌else◌, length, length-append, get_or-append, take, drop, take_or-append,
}
use cpplite.Common.Outcome.{ok}
use cpplite.Encoding.{Bytes, append_uint8}
use cpplite.Encoding.RoundTrip.{be, append_uint-be, length-be, read16, read64}
use cpplite.Record.Schema.{DataType, integer, boolean, text, Column, Table}
use cpplite.Catalog.{
  data_type_byte, data_type_of, append_name, append_column, append_columns, serialize_table,
  read_name, read_column, read_columns, deserialize_table,
}

unfoldable pub name_bytes : Bytes → Bytes
name_bytes name = be 2 (length name) ++ name

take-all : {A : Type 0} (xs : List A) → take (length xs) xs ≡ xs
take-all [] = refl
take-all (x ∷ xs) = ap (◌∷◌ x) (take-all xs)

append_name-bytes :
    (buf name : Bytes) → length name < 2 ^ 16 → append_name buf name ≡ buf ++ name_bytes name
unfolding append_name name_bytes
append_name-bytes buf name h = ground (
  arith,
  (append_uint-be buf (length name)).0,
  take-all name,
  append_assoc buf (be 2 (length name)) name,
)

drop-append : (xs ys : Bytes) → drop (length xs) (xs ++ ys) ≡ ys
drop-append [] ys = refl
drop-append (x ∷ xs) ys = drop-append xs ys

read_name-bytes :
    (pre name rest : Bytes)
    → length name < 2 ^ 16
    → read_name (pre ++ (name_bytes name ++ rest)) (length pre)
      ≡ ok (name, length (pre ++ name_bytes name))
unfolding read_name name_bytes
read_name-bytes pre name rest h =
    let head : Bytes = be 2 (length name) in
    ground (
      arith,
      read16 pre (name ++ rest) (length name) h,
      append_assoc head name rest,
      append_assoc pre head (name ++ rest),
      drop-append (pre ++ head) (name ++ rest),
      take_or-append 0 name rest,
      length-append pre head,
      length-append pre (head ++ name),
      length-append head name,
      length-be 2 (length name),
    )

abbrev pub bool_byte : Bool → ℕ
bool_byte b = if b then 1 else 0

unfoldable pub column_bytes : Column → Bytes
column_bytes c =
    data_type_byte c.data_type
    ∷ (name_bytes c.name ++ (bool_byte c.is_primary_key ∷ bool_byte c.is_nullable ∷ []))

append_column-bytes :
    (buf : Bytes) (c : Column)
    → length c.name < 2 ^ 16
    → append_column buf c ≡ buf ++ column_bytes c
unfolding append_column column_bytes append_uint8
append_column-bytes buf c h =
    let typed : Bytes = buf ++ (data_type_byte c.data_type ∷ []) in
    let key : Bytes = bool_byte c.is_primary_key ∷ [] in
    let nullable : Bytes = bool_byte c.is_nullable ∷ [] in
    ground (
      arith,
      append_name-bytes typed c.name h,
      append_assoc (typed ++ name_bytes c.name) key nullable,
      append_assoc typed (name_bytes c.name) (key ++ nullable),
      append_assoc buf (data_type_byte c.data_type ∷ []) (name_bytes c.name ++ (key ++ nullable)),
    )

data_type_of-byte : (d : DataType) → data_type_of (data_type_byte d) ≡ ok d
data_type_of-byte integer = refl
data_type_of-byte boolean = refl
data_type_of-byte text = refl

bool_of-byte : (b : Bool) → not (bool_byte b == 0) ≡ b
bool_of-byte true = refl
bool_of-byte false = refl

read_column-bytes :
    (pre rest : Bytes) (c : Column)
    → length c.name < 2 ^ 16
    → read_column (pre ++ (column_bytes c ++ rest)) (length pre)
      ≡ ok (c, length (pre ++ column_bytes c))
unfolding read_column column_bytes
read_column-bytes pre rest c h =
    let b : Bytes = data_type_byte c.data_type ∷ [] in
    let name : Bytes = name_bytes c.name in
    let flags : Bytes = bool_byte c.is_primary_key ∷ bool_byte c.is_nullable ∷ [] in
    let payload : Bytes = pre ++ (b ++ ((name ++ flags) ++ rest)) in
    let at_name : payload ≡ (pre ++ b) ++ (name ++ (flags ++ rest)) =
      ground (arith, append_assoc name flags rest, append_assoc pre b (name ++ (flags ++ rest))) in
    let at_flags : payload ≡ ((pre ++ b) ++ name) ++ (flags ++ rest) =
      at_name ∙ sym (append_assoc (pre ++ b) name (flags ++ rest)) in
    ground (
      arith,
      at_name,
      at_flags,
      get_or-append pre (b ++ ((name ++ flags) ++ rest)) 0 0,
      read_name-bytes (pre ++ b) c.name (flags ++ rest) h,
      get_or-append ((pre ++ b) ++ name) (flags ++ rest) 0 0,
      get_or-append ((pre ++ b) ++ name) (flags ++ rest) 1 0,
      data_type_of-byte c.data_type,
      bool_of-byte c.is_primary_key,
      bool_of-byte c.is_nullable,
      length-append pre b,
      length-append pre (b ++ (name ++ flags)),
      length-append (pre ++ b) name,
      length-append name flags,
    )

unfoldable pub columns_bytes : List Column → Bytes
columns_bytes [] = []
columns_bytes (c ∷ cs) = column_bytes c ++ columns_bytes cs

-- The names that a `uint16_t` can measure.
abbrev pub AreNamed : List Column → Type 0
AreNamed [] = Unit {0}
AreNamed (c ∷ cs) = (length c.name < 2 ^ 16) × AreNamed cs

append_columns-bytes :
    (buf : Bytes) (cs : List Column) → AreNamed cs → append_columns buf cs ≡ buf ++ columns_bytes cs
unfolding append_columns columns_bytes
append_columns-bytes buf [] h = sym (append-nil buf)
append_columns-bytes buf (c ∷ cs) h = ground (
  arith,
  append_column-bytes buf c h.0,
  append_columns-bytes (buf ++ column_bytes c) cs h.1,
  append_assoc buf (column_bytes c) (columns_bytes cs),
)

read_columns-bytes :
    (cs : List Column) (payload pre : Bytes)
    → AreNamed cs
    → payload ≡ pre ++ columns_bytes cs
    → read_columns (length cs) payload (length pre) ≡ ok (cs, length payload)
unfolding read_columns columns_bytes
read_columns-bytes [] payload pre h p = ground (arith, p, append-nil pre)
read_columns-bytes (c ∷ cs) payload pre h p = ground (
  arith,
  p,
  read_column-bytes pre (columns_bytes cs) c h.0,
  append_assoc pre (column_bytes c) (columns_bytes cs),
  read_columns-bytes cs payload (pre ++ column_bytes c) h.1,
)

unfoldable table_head : Table → ℕ → Bytes
table_head t root_pgno =
    (((1 ∷ []) ++ name_bytes t.name) ++ name_bytes t.tbl_name) ++ be 8 root_pgno

serialize_table-bytes :
    (t : Table) (root_pgno : ℕ)
    → length t.name < 2 ^ 16
    → length t.tbl_name < 2 ^ 16
    → length t.columns < 2 ^ 16
    → AreNamed t.columns
    → serialize_table t root_pgno
      ≡ (table_head t root_pgno ++ be 2 (length t.columns)) ++ columns_bytes t.columns
unfolding serialize_table append_uint8 table_head
serialize_table-bytes t root_pgno h k l a = ground (
  arith,
  append_name-bytes (1 ∷ []) t.name h,
  append_name-bytes ((1 ∷ []) ++ name_bytes t.name) t.tbl_name k,
  (append_uint-be (((1 ∷ []) ++ name_bytes t.name) ++ name_bytes t.tbl_name) root_pgno).2,
  (append_uint-be (table_head t root_pgno) (length t.columns)).0,
  take-all t.columns,
  append_columns-bytes (table_head t root_pgno ++ be 2 (length t.columns)) t.columns a,
)

-- A table whose names are shorter than 2 ^ 16 bytes and which has fewer than 2 ^ 16 columns is read
-- back with its root page, when the page's number fits 64 bits.
pub deserialize_table-serialize_table :
    (t : Table) (root_pgno : ℕ)
    → length t.name < 2 ^ 16
    → length t.tbl_name < 2 ^ 16
    → length t.columns < 2 ^ 16
    → AreNamed t.columns
    → root_pgno < 2 ^ 64
    → deserialize_table (serialize_table t root_pgno) ≡ ok (t, root_pgno)
unfolding deserialize_table table_head
deserialize_table-serialize_table t root_pgno h k l a r =
    let one : Bytes = 1 ∷ [] in
    let name : Bytes = name_bytes t.name in
    let tbl_name : Bytes = name_bytes t.tbl_name in
    let root : Bytes = be 8 root_pgno in
    let count : Bytes = be 2 (length t.columns) in
    let cols : Bytes = columns_bytes t.columns in
    let payload : Bytes = serialize_table t root_pgno in
    let at_cols : payload ≡ ((((one ++ name) ++ tbl_name) ++ root) ++ count) ++ cols =
      serialize_table-bytes t root_pgno h k l a in
    let at_count : payload ≡ (((one ++ name) ++ tbl_name) ++ root) ++ (count ++ cols) =
      at_cols ∙ append_assoc (((one ++ name) ++ tbl_name) ++ root) count cols in
    let at_root : payload ≡ ((one ++ name) ++ tbl_name) ++ (root ++ (count ++ cols)) =
      at_count ∙ append_assoc ((one ++ name) ++ tbl_name) root (count ++ cols) in
    let at_tbl_name : payload ≡ (one ++ name) ++ (tbl_name ++ (root ++ (count ++ cols))) =
      at_root ∙ append_assoc (one ++ name) tbl_name (root ++ (count ++ cols)) in
    let at_name : payload ≡ one ++ (name ++ (tbl_name ++ (root ++ (count ++ cols)))) =
      at_tbl_name in
    ground (
      arith,
      at_cols,
      at_count,
      at_root,
      at_tbl_name,
      at_name,
      read_name-bytes one t.name (tbl_name ++ (root ++ (count ++ cols))) h,
      read_name-bytes (one ++ name) t.tbl_name (root ++ (count ++ cols)) k,
      read64 ((one ++ name) ++ tbl_name) (count ++ cols) root_pgno r,
      read16 (((one ++ name) ++ tbl_name) ++ root) cols (length t.columns) l,
      length-append ((one ++ name) ++ tbl_name) root,
      length-append (((one ++ name) ++ tbl_name) ++ root) count,
      length-be 8 root_pgno,
      length-be 2 (length t.columns),
      read_columns-bytes t.columns payload ((((one ++ name) ++ tbl_name) ++ root) ++ count) a
          at_cols,
    )
