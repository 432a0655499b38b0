-- ===== src/Storage/Engine/Tables.antt =====
-- Tables made, flushed and removed by the storage engine, and how it starts and shuts down.
pub mod Created
pub mod Known
pub mod Start
pub mod Removed
use Prim.Native.Nat.{bit_or}
use cpplite.Common.{
  ℕ, ◌+◌, ◌%◌, ◌^◌, Bool, true, false, not, Option, none, some, List, [], ◌∷◌, ltb, ◌==◌,
  if◌then◌else◌, length,
}
use cpplite.Common.Outcome.{
  Outcome, done, thrown, Result, ok, err, assertion, no_segment, table_exists,
}
use cpplite.Encoding.{Bytes}
use cpplite.Vfs.{VirtualFs}
use cpplite.Storage.{pgno_to_segid, pgno_to_file_offset}
use cpplite.Storage.Paths.{tbl_path, seg_path, path_to_seg_id}
use cpplite.Storage.Engine.{
  StorageEngine, TableMetadata, Metadata, find_table, set_table, to_bytes, metadata_size,
  default_table_metadata_pgno, open_segment, need_segment,
}

module _ {v : VirtualFs} where
  -- The first page of a new table holds its metadata.
  unfoldable pub first_page : ℕ → v.File → StorageEngine v → Outcome (StorageEngine v) (Unit {0})
  unfolding to_bytes
  first_page tbl_id first_segmt e =
      let metadata : TableMetadata = record {
        last_pgno = default_table_metadata_pgno;
        total_pages = default_table_metadata_pgno + 1;
      } in
      let e' = record e { table_metadata = set_table tbl_id metadata e.table_metadata } in
      elim (v.write first_segmt (some (to_bytes metadata)) e'.config.page_size 0 e'.fs) [
        | thrown r s ↦ thrown r (record e' { fs = s })
        | done buffer s ↦ done tt (record e' { fs = s })
      ]

  unfoldable pub create_table : ℕ → StorageEngine v → Outcome (StorageEngine v) (Unit {0})
  unfolding open_segment first_page
  create_table tbl_id e =
      let seg_id = pgno_to_segid default_table_metadata_pgno e.config.segment_size in
      if v.exists (tbl_path tbl_id) e.fs
      then thrown table_exists e
      else elim (v.mkdir (tbl_path tbl_id) e.fs) [
        | thrown r s ↦ thrown r (record e { fs = s })
        | done _ s ↦ elim (need_segment tbl_id seg_id no_segment (record e { fs = s })) [
          | thrown r e' ↦ thrown r e'
          | done first_segmt e' ↦ first_page tbl_id first_segmt e'
        ]
      ]

  unfoldable pub flush_metadata :
      ℕ → TableMetadata → StorageEngine v → Outcome (StorageEngine v) (Unit {0})
  unfolding open_segment to_bytes
  flush_metadata tbl_id metadata e =
      let seg_id = pgno_to_segid default_table_metadata_pgno e.config.segment_size in
      if v.exists (seg_path tbl_id seg_id) e.fs
      then elim (need_segment tbl_id seg_id no_segment e) [
        | thrown r e' ↦ thrown r e'
        | done segmt e' ↦
            let offset =
              pgno_to_file_offset default_table_metadata_pgno e'.config.segment_size
                e'.config.page_size in
            elim (v.write segmt (some (to_bytes metadata)) metadata_size offset e'.fs) [
              | thrown r s ↦ thrown r (record e' { fs = s })
              | done buffer s ↦ done tt (record e' { fs = s })
            ]
      ]
      else thrown assertion e

  unfoldable pub sync_segments :
      ℕ → List Bytes → StorageEngine v → Outcome (StorageEngine v) (Unit {0})
  unfolding open_segment
  sync_segments tbl_id [] e = done tt e
  sync_segments tbl_id (path ∷ paths) e = elim (path_to_seg_id path) [
    | err r ↦ thrown r e
    | ok seg_id ↦ elim (need_segment tbl_id seg_id no_segment e) [
      | thrown r e' ↦ thrown r e'
      | done seg e' ↦ elim (v.sync seg e'.fs) [
        | thrown r s ↦ thrown r (record e' { fs = s })
        | done _ s ↦ sync_segments tbl_id paths (record e' { fs = s })
      ]
    ]
  ]

  abbrev pub flush_known : ℕ → StorageEngine v → Outcome (StorageEngine v) (Unit {0})
  flush_known tbl_id e = elim (find_table tbl_id e.table_metadata) [
    | none ↦ done tt e
    | some metadata ↦ flush_metadata tbl_id metadata e
  ]

  unfoldable pub flush_table : ℕ → StorageEngine v → Outcome (StorageEngine v) (Unit {0})
  unfolding flush_metadata sync_segments
  flush_table tbl_id e = elim (flush_known tbl_id e) [
    | thrown r e' ↦ thrown r e'
    | done _ e' ↦ elim (v.ls (tbl_path tbl_id) e'.fs) [
      | err r ↦ thrown r e'
      | ok seg_files ↦ sync_segments tbl_id seg_files e'
    ]
  ]

  unfoldable pub unlink_all : List Bytes → StorageEngine v → Outcome (StorageEngine v) (Unit {0})
  unlink_all [] e = done tt e
  unlink_all (path ∷ paths) e = elim (v.unlink path e.fs) [
    | thrown r s ↦ thrown r (record e { fs = s })
    | done _ s ↦ unlink_all paths (record e { fs = s })
  ]

  unfoldable pub truncate_table : ℕ → StorageEngine v → Outcome (StorageEngine v) (Unit {0})
  unfolding unlink_all
  truncate_table tbl_id e = elim (v.ls (tbl_path tbl_id) e.fs) [
    | err r ↦ thrown r e
    | ok segfiles ↦ elim (unlink_all segfiles e) [
      | thrown r e' ↦ thrown r e'
      | done _ e' ↦ elim (v.ls (tbl_path tbl_id) e'.fs) [
        | err r ↦ thrown r e'
        | ok left ↦ if length left == 0 then done tt e' else thrown assertion e'
      ]
    ]
  ]

  unfoldable pub delete_table : ℕ → StorageEngine v → Outcome (StorageEngine v) (Unit {0})
  unfolding truncate_table
  delete_table tbl_id e = elim (truncate_table tbl_id e) [
    | thrown r e' ↦ thrown r e'
    | done _ e' ↦ elim (v.rmdir (tbl_path tbl_id) e'.fs) [
      | thrown r s ↦ thrown r (record e' { fs = s })
      | done _ s ↦
          if not (v.exists (tbl_path tbl_id) s)
          then done tt (record e' { fs = s })
          else thrown assertion (record e' { fs = s })
    ]
  ]

  unfoldable pub flush_tables : Metadata → StorageEngine v → Outcome (StorageEngine v) (Unit {0})
  unfolding flush_table
  flush_tables [] e = done tt e
  flush_tables ((tbl_id, m) ∷ tables) e = elim (flush_table tbl_id e) [
    | thrown r e' ↦ thrown r e'
    | done _ e' ↦ flush_tables tables e'
  ]

  unfoldable pub shutdown : StorageEngine v → Outcome (StorageEngine v) (Unit {0})
  unfolding flush_tables
  shutdown e = flush_tables e.table_metadata e
