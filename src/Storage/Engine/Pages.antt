-- ===== src/Storage/Engine/Pages.antt =====
-- `read_page`, `write_page` and `allocate_page` of the storage engine.
pub mod Allocated
pub mod Laid
pub mod Refused
pub mod Stored
use cpplite.Common.{ℕ, ◌+◌, ◌%◌, ◌^◌, Bool, Option, none, some, List, [], ltb, ◌==◌, if◌then◌else◌}
use cpplite.Common.Outcome.{
  Outcome, done, thrown, Result, ok, err, assertion, no_segment, past_last_page,
}
use cpplite.Encoding.{Bytes}
use cpplite.Vfs.{VirtualFs}
use cpplite.Storage.{pgno_to_segid, pgno_to_file_offset}
use cpplite.Storage.Paths.{tbl_path}
use cpplite.Storage.Engine.{
  StorageEngine, TableMetadata, Metadata, find_table, set_table, open_segment, need_segment,
  get_segment, get_latest_page,
}

-- `table_metadata_[tbl_id]`, a new entry being zero
abbrev pub metadata_or_new : ℕ → Metadata → TableMetadata
metadata_or_new tbl_id tables = elim (find_table tbl_id tables) [
  | none ↦ record { last_pgno = 0; total_pages = 0 }
  | some m ↦ m
]

module _ {v : VirtualFs} where
  -- The file of a page that is not past the last one, and its place there.
  abbrev pub locate : ℕ × ℕ → StorageEngine v → Outcome (StorageEngine v) (v.File × ℕ)
  locate (tbl_id, pgno) e = elim (get_latest_page tbl_id e) [
    | thrown r e' ↦ thrown r e'
    | done last e' ↦
        if ltb last pgno then thrown past_last_page e' else elim (get_segment tbl_id pgno e') [
          | thrown r e'' ↦ thrown r e''
          | done seg e'' ↦
              done (seg, pgno_to_file_offset pgno e''.config.segment_size e''.config.page_size) e''
        ]
  ]

  unfoldable pub read_page : ℕ × ℕ → Bytes → StorageEngine v → Outcome (StorageEngine v) Bytes
  unfolding get_latest_page get_segment
  read_page pgkey buffer e = elim (locate pgkey e) [
    | thrown r e' ↦ thrown r e'
    | done (seg, offset) e' ↦ elim (v.read seg buffer e'.config.page_size offset e'.fs) [
      | err r ↦ thrown r e'
      | ok buffer' ↦ done buffer' e'
    ]
  ]

  -- `buffer.data()` written with the size of a page
  unfoldable pub write_page : ℕ × ℕ → Bytes → StorageEngine v → Outcome (StorageEngine v) Bytes
  unfolding get_latest_page get_segment
  write_page pgkey buffer e = elim (locate pgkey e) [
    | thrown r e' ↦ thrown r e'
    | done (seg, offset) e' ↦ elim (v.write seg (some buffer) e'.config.page_size offset e'.fs) [
      | thrown r s ↦ thrown r (record e' { fs = s })
      | done buffer' s ↦ done buffer' (record e' { fs = s })
    ]
  ]

  abbrev pub bump : ℕ → StorageEngine v → StorageEngine v
  bump tbl_id e =
      let m = metadata_or_new tbl_id e.table_metadata in
      record e {
        table_metadata =
            set_table tbl_id
              (record {
                last_pgno = (m.last_pgno + 1) % 2 ^ 64;
                total_pages = (m.total_pages + 1) % 2 ^ 64;
              })
              e.table_metadata;
      }

  -- The next page is written with zeros and counted; `no_segment` stands for the use of a null pointer.
  unfoldable pub add_page : ℕ → ℕ → StorageEngine v → Outcome (StorageEngine v) (ℕ × ℕ)
  unfolding open_segment
  add_page tbl_id latest_page e =
      let seg_id = pgno_to_segid latest_page e.config.segment_size in
      elim (need_segment tbl_id seg_id no_segment e) [
        | thrown r e' ↦ thrown r e'
        | done segmt e' ↦
            let offset =
              pgno_to_file_offset latest_page e'.config.segment_size e'.config.page_size in
            elim (v.write segmt none e'.config.page_size offset e'.fs) [
              | thrown r s ↦ thrown r (record e' { fs = s })
              | done buffer s ↦
                  let e'' = bump tbl_id (record e' { fs = s }) in
                  if latest_page == (metadata_or_new tbl_id e''.table_metadata).last_pgno
                  then done (tbl_id, latest_page) e''
                  else thrown assertion e''
            ]
      ]

  unfoldable pub allocate_page : ℕ → StorageEngine v → Outcome (StorageEngine v) (ℕ × ℕ)
  unfolding get_latest_page add_page
  allocate_page tbl_id e =
      if v.exists (tbl_path tbl_id) e.fs
      then elim (get_latest_page tbl_id e) [
        | thrown r e' ↦ thrown r e'
        | done latest_page e' ↦ add_page tbl_id ((latest_page + 1) % 2 ^ 64) e'
      ]
      else thrown assertion e
