-- ===== src/Binder/Binding.antt =====
-- What `bind` makes of a statement.
use cpplite.Common.{
  ℕ, ◌+◌, ◌≡◌, refl, sym, ◌∙◌, arith, Bool, true, false, ◌&&◌, ◌||◌, ◌⊎◌, inl, inr, Bool-cases,
  List, [], ◌∷◌, map, leb, ◌==◌, if◌then◌else◌,
}
use cpplite.Common.Outcome.{Result, ok, err, unknown_type}
use cpplite.Encoding.{Bytes}
use cpplite.Record.Schema.{DataType, integer, boolean, text, Column}
use cpplite.Binder.{
  ColumnDef, create_table_node, create_table_stmt, toupper, is_same, type_map, find_type,
  bind_column, bind_columns, bind,
}

-- The bytes spell a word of capital letters, each letter as a capital or as a small one.
unfoldable pub spells : Bytes → Bytes → Bool
spells [] [] = true
spells [] (u ∷ us) = false
spells (c ∷ cs) [] = false
spells (c ∷ cs) (u ∷ us) = (c == u || c == u + 32) && spells cs us

abbrev int_word : Bytes
int_word = b'I' ∷ b'N' ∷ b'T' ∷ []

abbrev integer_word : Bytes
integer_word = b'I' ∷ b'N' ∷ b'T' ∷ b'E' ∷ b'G' ∷ b'E' ∷ b'R' ∷ []

abbrev text_word : Bytes
text_word = b'T' ∷ b'E' ∷ b'X' ∷ b'T' ∷ []

abbrev bool_word : Bytes
bool_word = b'B' ∷ b'O' ∷ b'O' ∷ b'L' ∷ []

abbrev boolean_word : Bytes
boolean_word = b'B' ∷ b'O' ∷ b'O' ∷ b'L' ∷ b'E' ∷ b'A' ∷ b'N' ∷ []

-- The type that a name means: "int" and "integer", "text", "bool" and "boolean", in any case of letters.
abbrev pub type_of_name : Bytes → Result DataType
type_of_name name =
    if spells name int_word || spells name integer_word
    then ok integer
    else (if spells name text_word
        then ok text
        else (if spells name bool_word || spells name boolean_word
            then ok boolean
            else err unknown_type))

-- Every byte is a capital letter.
abbrev capitals : Bytes → Bool
capitals [] = true
capitals (u ∷ us) = leb 65 u && leb u 90 && capitals us

toupper-capital :
    (c u : ℕ) → (leb 65 u && leb u 90) ≡ true → (toupper c == u) ≡ (c == u || c == u + 32)
unfolding toupper
toupper-capital c u capital = ground arith

is_same-toupper : (cs us : Bytes) → capitals us ≡ true → is_same (map toupper cs) us ≡ spells cs us
unfolding is_same spells
is_same-toupper [] [] k = refl
is_same-toupper [] (u ∷ us) k = refl
is_same-toupper (c ∷ cs) [] k = refl
is_same-toupper (c ∷ cs) (u ∷ us) k =
    ground
      (arith, k, toupper-capital c u (ground (arith, k)), is_same-toupper cs us (ground (arith, k)))

-- The table of the binder has the meaning of each name.
find_type-toupper : (name : Bytes) → find_type (map toupper name) type_map ≡ type_of_name name
unfolding find_type
find_type-toupper name = ground (
  arith,
  is_same-toupper name integer_word refl,
  is_same-toupper name int_word refl,
  is_same-toupper name text_word refl,
  is_same-toupper name boolean_word refl,
  is_same-toupper name bool_word refl,
)

-- A column is its definition with the type that the name means, in any case of letters.
abbrev pub Binds : List ColumnDef → List Column → Type 0
Binds [] [] = Unit {0}
Binds (d ∷ ds) (c ∷ cs) =
    (type_of_name d.datatype_str ≡ ok c.data_type)
    × (c.name ≡ d.name)
    × (c.is_primary_key ≡ d.is_primary_key)
    × (c.is_nullable ≡ d.is_nullable)
    × Binds ds cs
Binds ds cs = ⊥

abbrev pub is_unknown : Result DataType → Bool
is_unknown (ok d) = false
is_unknown (err e) = true

abbrev pub has_unknown : List ColumnDef → Bool
has_unknown [] = false
has_unknown (d ∷ ds) = is_unknown (type_of_name d.datatype_str) || has_unknown ds

find_type-cases :
    (name : Bytes) (entries : List (Bytes × DataType))
    → (find_type name entries ≡ err unknown_type)
      ⊎ ((d : DataType) × (find_type name entries ≡ ok d))
unfolding find_type
find_type-cases name [] = inl refl
find_type-cases name ((key, d) ∷ entries) = elim (Bool-cases (is_same name key)) [
  | inl p ↦ inr (d, ground (arith, p))
  | inr p ↦ ground (arith, p, find_type-cases name entries)
]

bind_columns_lem :
    (ds : List ColumnDef)
    → ((has_unknown ds ≡ true) × (bind_columns ds ≡ err unknown_type))
      ⊎ ((has_unknown ds ≡ false) × ((cs : List Column) × (bind_columns ds ≡ ok cs) × Binds ds cs))
unfolding bind_columns bind_column
bind_columns_lem [] = inr (refl, ([], refl, tt))
bind_columns_lem (d ∷ ds) = elim (find_type-cases (map toupper d.datatype_str) type_map) [
  | inl p ↦
      let meant = sym (find_type-toupper d.datatype_str) ∙ p in
      inl (ground (arith, meant), ground (arith, p))
  | inr (t, p) ↦
      let meant = sym (find_type-toupper d.datatype_str) ∙ p in
      elim (bind_columns_lem ds) [
        | inl q ↦ inl (ground (arith, meant, q.0), ground (arith, p, q.1))
        | inr (q, (cs, e, b)) ↦ inr (
          ground (arith, meant, q),
          (
            record {
              data_type = t;
              name = d.name;
              is_primary_key = d.is_primary_key;
              is_nullable = d.is_nullable;
            }
                ∷ cs,
            ground (arith, p, e),
            (meant, refl, refl, refl, b),
          ),
        )
      ]
]

-- What `bind` does of a statement that makes a table.
abbrev pub Bound : Bytes → List ColumnDef → Type 0
Bound name ds =
    ((has_unknown ds ≡ true) × (bind (create_table_node name ds) ≡ err unknown_type))
    ⊎ ((has_unknown ds ≡ false)
        × ((cs : List Column) × (bind (create_table_node name ds) ≡ ok (create_table_stmt name cs))
            × Binds ds cs))

-- `bind` of a statement that makes a table throws just when one of its columns has a type of no known
-- name. Otherwise it keeps the table's name and gives a column for each definition, in their order,
-- with its name, its two flags and the type that its type's name spells, each letter a capital or a small
-- one: INT and INTEGER are integers, TEXT is text, BOOL and BOOLEAN are Booleans.
pub bind-Bound : (name : Bytes) (ds : List ColumnDef) → Bound name ds
unfolding bind
bind-Bound name ds = elim (bind_columns_lem ds) [
  | inl q ↦ inl (q.0, ground (arith, q.1))
  | inr (q, (cs, e, b)) ↦ inr (q, (cs, ground (arith, e), b))
]
