-- ===== src/Storage/Engine/Tables/Known.antt =====
-- The map of the tables' metadata.
use cpplite.Common.{ℕ, ◌≡◌, ◌≢◌, arith, some, [], ◌∷◌, ltb, ◌==◌, inl, inr, Bool-cases}
use cpplite.Storage.Engine.{TableMetadata, Metadata, find_table, set_table}

pub find-set_table :
    (tbl_id : ℕ) (m : TableMetadata) (tables : Metadata)
    → find_table tbl_id (set_table tbl_id m tables) ≡ some m
unfolding find_table set_table
find-set_table tbl_id m [] = ground arith
find-set_table tbl_id m ((other, m') ∷ tables) = elim (Bool-cases (tbl_id == other)) [
  | inl e ↦ ground (arith, e)
  | inr e ↦ elim (Bool-cases (ltb tbl_id other)) [
    | inl l ↦ ground (arith, e, l)
    | inr l ↦ rw (e, l) (rw e (find-set_table tbl_id m tables))
  ]
]

pub find-set_table_other :
    (tbl_id other : ℕ) (m : TableMetadata) (tables : Metadata)
    → other ≢ tbl_id
    → find_table other (set_table tbl_id m tables) ≡ find_table other tables
unfolding find_table set_table
find-set_table_other tbl_id other m [] d = ground (arith, d)
find-set_table_other tbl_id other m ((t, m') ∷ tables) d =
    ground (arith, d, find-set_table_other tbl_id other m tables d)
