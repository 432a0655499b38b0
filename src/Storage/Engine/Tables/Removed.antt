-- ===== src/Storage/Engine/Tables/Removed.antt =====
-- What `delete_table` leaves in memory.
use cpplite.Common.{
  ℕ, ◌⊎◌, ◌≡◌, refl, ap, ◌∙◌, arith, false, some, List, [], ◌∷◌, length, ◌==◌, subst, inl, inr,
  Bool-cases,
}
use cpplite.Common.Outcome.{Outcome, Error, Result, ok, err, done, thrown, assertion}
use cpplite.Encoding.{Bytes}
use cpplite.Vfs.{VirtualFs}
use cpplite.Storage.{pgno_to_segid}
use cpplite.Storage.Paths.{tbl_path, seg_path}
use cpplite.Storage.Engine.{StorageEngine, TableMetadata, find_table}
use cpplite.Storage.Engine.Tables.{
  unlink_all, truncate_table, delete_table, flush_metadata, flush_table,
}

Outcome-cases :
    {S A : Type 0} (o : Outcome S A)
    → ((a : A) × (s : S) × (o ≡ done a s)) ⊎ ((r : Error) × (s : S) × (o ≡ thrown r s))
Outcome-cases (done a s) = inl (a, s, refl)
Outcome-cases (thrown r s) = inr (r, s, refl)

Result-cases : {A : Type 0} (o : Result A) → ((a : A) × (o ≡ ok a)) ⊎ ((r : Error) × (o ≡ err r))
Result-cases (ok a) = inl (a, refl)
Result-cases (err r) = inr (r, refl)

module _ {v : VirtualFs} where
  -- All but the files on the disk.
  abbrev SameMemory : StorageEngine v → StorageEngine v → Type 0
  SameMemory e e' =
      (e'.config ≡ e.config) × (e'.table_metadata ≡ e.table_metadata) × (e'.filecache ≡ e.filecache)

  abbrev finished : StorageEngine v → Outcome (StorageEngine v) (Unit {0})
  finished e = done tt e

  done_inj : {e e' : StorageEngine v} → finished e ≡ finished e' → e ≡ e'
  done_inj p = cc

  unlink_all-SameMemory :
      (paths : List Bytes) (e e' : StorageEngine v)
      → unlink_all paths e ≡ done tt e'
      → SameMemory e e'
  unfolding unlink_all
  unlink_all-SameMemory [] e e' p = subst (SameMemory e) (done_inj p) (refl, refl, refl)
  unlink_all-SameMemory (path ∷ paths) e e' p = elim (Outcome-cases (v.unlink path e.fs)) [
    | inl (a, s, q) ↦ unlink_all-SameMemory paths (record e { fs = s }) e' (ground (arith, p, q))
    | inr (r, s, q) ↦ absurd (ground (arith, p, q))
  ]

  truncate_table-SameMemory :
      (tbl_id : ℕ) (e e' : StorageEngine v) → truncate_table tbl_id e ≡ done tt e' → SameMemory e e'
  unfolding truncate_table
  truncate_table-SameMemory tbl_id e e' p = elim (Result-cases (v.ls (tbl_path tbl_id) e.fs)) [
    | inr (r, q) ↦ absurd (ground (arith, p, q))
    | inl (paths, q) ↦ elim (Outcome-cases (unlink_all paths e)) [
      | inr (r, e1, q1) ↦ absurd (ground (arith, p, q, q1))
      | inl (a, e1, q1) ↦
          let kept = unlink_all-SameMemory paths e e1 q1 in
          elim (Result-cases (v.ls (tbl_path tbl_id) e1.fs)) [
            | inr (r, q2) ↦ absurd (ground (arith, p, q, q1, q2))
            | inl (left, q2) ↦ elim (Bool-cases (length left == 0)) [
              | inl empty ↦
                  let same : e1 ≡ e' = done_inj (ground (arith, p, q, q1, q2, empty)) in
                  subst (SameMemory e) same kept
              | inr more ↦ absurd (ground (arith, p, q, q1, q2, more))
            ]
          ]
    ]
  ]

  -- After `delete_table` the engine holds the table's metadata and open files as before, and the
  -- table's folder is gone.
  delete_table-SameMemory :
      (tbl_id : ℕ) (e e' : StorageEngine v)
      → delete_table tbl_id e ≡ done tt e'
      → SameMemory e e' × (v.exists (tbl_path tbl_id) e'.fs ≡ false)
  unfolding delete_table
  delete_table-SameMemory tbl_id e e' p = elim (Outcome-cases (truncate_table tbl_id e)) [
    | inr (r, e1, q) ↦ absurd (ground (arith, p, q))
    | inl (a, e1, q) ↦
        let kept = truncate_table-SameMemory tbl_id e e1 q in
        elim (Outcome-cases (v.rmdir (tbl_path tbl_id) e1.fs)) [
          | inr (r, s, q1) ↦ absurd (ground (arith, p, q, q1))
          | inl (a, s, q1) ↦ elim (Bool-cases (v.exists (tbl_path tbl_id) s)) [
            | inl there ↦ absurd (ground (arith, p, q, q1, there))
            | inr gone ↦
                let same : record e1 { fs = s } ≡ e' = done_inj (ground (arith, p, q, q1, gone)) in
                subst
                  (λ (x : StorageEngine v).
                    SameMemory e x × (v.exists (tbl_path tbl_id) x.fs ≡ false))
                  same (kept, gone)
          ]
        ]
  ]

  -- After a `delete_table` that succeeds of a table whose metadata is in memory, the table's folder is
  -- gone, while all metadata and the cache of open files are as they were; so, if no segment of the table
  -- is in a folder that is gone, `flush_table` of the table fails at its assertion, with nothing changed.
  pub deleted_unflushed :
      (tbl_id : ℕ) (m : TableMetadata) (e e' : StorageEngine v)
      → delete_table tbl_id e ≡ done tt e'
      → find_table tbl_id e.table_metadata ≡ some m
      → (v.exists (tbl_path tbl_id) e'.fs ≡ false
          → (seg_id : ℕ) → v.exists (seg_path tbl_id seg_id) e'.fs ≡ false)
      → (v.exists (tbl_path tbl_id) e'.fs ≡ false)
        × (e'.table_metadata ≡ e.table_metadata)
        × (e'.filecache ≡ e.filecache)
        × (flush_table tbl_id e' ≡ thrown assertion e')
  unfolding flush_table flush_metadata
  deleted_unflushed tbl_id m e e' p known outside =
      let ((config, tables, cache), gone) = delete_table-SameMemory tbl_id e e' p in
      let none_left = outside gone (pgno_to_segid 0 e'.config.segment_size) in
      let there = ap (find_table tbl_id) tables ∙ known in
      let fails : flush_table tbl_id e' ≡ thrown assertion e' = ground (arith, there, none_left) in
      (gone, tables, cache, fails)
