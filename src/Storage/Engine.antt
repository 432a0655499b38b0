-- ===== src/Storage/Engine.antt =====
-- `StorageEngine` of lib/storage/storage.cpp over a virtual file system. A method takes the engine and
-- leaves it changed, by an exception too.
pub mod Cached
pub mod Open
pub mod Pages
pub mod Tables
use Prim.Native.Nat.{bit_or}
use cpplite.Common.{
  ℕ, zero, suc, ◌+◌, ◌-◌, ◌*◌, ◌/◌, ◌%◌, ◌^◌, Bool, true, false, ◌&&◌, Option, none, some, List, [],
  ◌∷◌, ltb, ◌==◌, if◌then◌else◌, length, replicate,
}
use cpplite.Common.Outcome.{Outcome, done, thrown, Result, ok, err, Error, assertion, no_segment}
use cpplite.Encoding.{Bytes, append_uint64, append_uint32, read_uint64, read_uint32}
use cpplite.FileCache
use cpplite.FileCache.{FileCache, FileKey, put, get}
use cpplite.Vfs.{VirtualFs, o_rdwr, o_creat, rdwr_creat}
use cpplite.Storage.{pgno_to_segid}
use cpplite.Storage.Paths.{tbl_path, seg_path, path_to_tbl_id}

-- `DEFAULT_TABLE_METADATA_PGNO`, `DEFAULT_CATALOG_TABLE`, `DEFAULT_CATALOG_PGNO` and `CONTROL_FILE`
abbrev pub default_table_metadata_pgno : ℕ
default_table_metadata_pgno = 0

abbrev pub default_catalog_table : ℕ
default_catalog_table = 0

abbrev pub default_catalog_pgno : ℕ
default_catalog_pgno = 0

abbrev pub control_file : Bytes
control_file = b'd' ∷ b'b' ∷ b'.' ∷ b'c' ∷ b'o' ∷ b'n' ∷ b't' ∷ b'r' ∷ b'o' ∷ b'l' ∷ []

abbrev pub checksum : ℕ
checksum = 123456

pub record EngineConfig : Type 0 where
  pub segment_size : ℕ
  pub page_size : ℕ

abbrev pub default_config : EngineConfig
default_config = record { segment_size = 131072; page_size = 4096 }

pub record TableMetadata : Type 0 where
  pub last_pgno : ℕ
  pub total_pages : ℕ

-- `sizeof(PageNumber) + sizeof(PageNumber)`
abbrev pub metadata_size : ℕ
metadata_size = 16

unfoldable pub to_bytes : TableMetadata → Bytes
to_bytes m = append_uint64 (append_uint64 [] m.last_pgno) m.total_pages

-- `TableMetadata(buffer, offset)`, and the offset that it leaves
unfoldable pub of_bytes : Bytes → ℕ → Result (TableMetadata × ℕ)
of_bytes buffer offset = elim (read_uint64 buffer offset) [
  | err e ↦ err e
  | ok (last_pgno, offset') ↦ elim (read_uint64 buffer offset') [
    | err e ↦ err e
    | ok (total_pages, offset'') ↦
        ok (record { last_pgno = last_pgno; total_pages = total_pages }, offset'')
  ]
]

-- `table_metadata_`, a map in the order of its keys
abbrev pub Metadata : Type 0
Metadata = List (ℕ × TableMetadata)

unfoldable pub find_table : ℕ → Metadata → Option TableMetadata
find_table tbl_id [] = none
find_table tbl_id ((other, m) ∷ tables) =
    if tbl_id == other then some m else find_table tbl_id tables

unfoldable pub set_table : ℕ → TableMetadata → Metadata → Metadata
set_table tbl_id m [] = (tbl_id, m) ∷ []
set_table tbl_id m ((other, m') ∷ tables) =
    let rest = set_table tbl_id m tables in
    if tbl_id == other
    then (tbl_id, m) ∷ tables
    else if ltb tbl_id other
    then (tbl_id, m) ∷ (other, m') ∷ tables
    else (other, m') ∷ rest

-- `control_` has no value until the control file is read.
pub record StorageEngine (v : VirtualFs) : Type 0 where
  pub fs : v.Fs
  pub config : EngineConfig
  pub control : Option (ℕ × ℕ)
  pub table_metadata : Metadata
  pub filecache : FileCache v.File

-- What `put` has closed, the first closed last.
unfoldable pub close_all : (v : VirtualFs) → List v.File → v.Fs → Outcome v.Fs (Unit {0})
close_all v [] s = done tt s
close_all v (file ∷ files) s = elim (close_all v files s) [
  | thrown e s' ↦ thrown e s'
  | done _ s' ↦ elim (v.close file s') [ thrown e s'' ↦ thrown e s'' | done _ s'' ↦ done tt s'' ]
]

module _ {v : VirtualFs} where
  -- `filecache_.put(key, file)` with the calls of `close`.
  unfoldable pub cache_file :
      FileKey → v.File → StorageEngine v → Outcome (StorageEngine v) (Unit {0})
  unfolding close_all
  cache_file key file e = elim (put key file (record e.filecache { closed = [] })) [
    | thrown r c ↦ thrown r (record e { filecache = c })
    | done _ c ↦ elim (close_all v c.closed e.fs) [
      | thrown r s ↦ thrown r (record e { fs = s; filecache = c })
      | done _ s ↦ done tt (record e { fs = s; filecache = c })
    ]
  ]

  abbrev pub get_file : FileKey → StorageEngine v → Outcome (StorageEngine v) (Option v.File)
  get_file key e = let (file, c) = get key e.filecache in done file (record e { filecache = c })

  unfoldable pub open_segment : ℕ → ℕ → StorageEngine v → Outcome (StorageEngine v) (Option v.File)
  unfolding cache_file
  open_segment tbl_id seg_id e =
      let key : FileKey = (tbl_id, seg_id) in
      if FileCache.exists key e.filecache
      then get_file key e
      else elim (v.open_file (seg_path tbl_id seg_id) (bit_or o_rdwr o_creat) e.fs) [
        | thrown r s ↦ thrown r (record e { fs = s })
        | done file s ↦ elim (cache_file key file (record e { fs = s })) [
          | thrown r e' ↦ thrown r e'
          | done _ e' ↦ get_file key e'
        ]
      ]

  -- The file of a segment for a caller who fails without one.
  abbrev pub need_segment : ℕ → ℕ → Error → StorageEngine v → Outcome (StorageEngine v) v.File
  need_segment tbl_id seg_id missing e = elim (open_segment tbl_id seg_id e) [
    | thrown r e' ↦ thrown r e'
    | done none e' ↦ thrown missing e'
    | done (some file) e' ↦ done file e'
  ]

  unfoldable pub get_segment : ℕ → ℕ → StorageEngine v → Outcome (StorageEngine v) v.File
  unfolding open_segment
  get_segment tbl_id pgno e =
      let seg_id = pgno_to_segid pgno e.config.segment_size in
      if v.exists (tbl_path tbl_id) e.fs && v.exists (seg_path tbl_id seg_id) e.fs
      then need_segment tbl_id seg_id no_segment e
      else thrown assertion e

  -- A table without metadata has it read from its first page.
  unfoldable pub load_metadata : ℕ → StorageEngine v → Outcome (StorageEngine v) TableMetadata
  unfolding open_segment
  load_metadata tbl_id e =
      let seg_id = pgno_to_segid default_table_metadata_pgno e.config.segment_size in
      elim (need_segment tbl_id seg_id assertion e) [
        | thrown r e' ↦ thrown r e'
        | done first_segmt e' ↦ elim (v.read first_segmt [] e'.config.page_size 0 e'.fs) [
          | err r ↦ thrown r e'
          | ok buffer ↦ elim (of_bytes buffer 0) [
            | err r ↦ thrown r e'
            | ok (metadata, offset) ↦
                if offset == length buffer
                then done metadata
                    (record e' { table_metadata = set_table tbl_id metadata e'.table_metadata })
                else thrown assertion e'
          ]
        ]
      ]

  unfoldable pub get_latest_page : ℕ → StorageEngine v → Outcome (StorageEngine v) ℕ
  unfolding load_metadata
  get_latest_page tbl_id e = elim (find_table tbl_id e.table_metadata) [
    | some m ↦ done m.last_pgno e
    | none ↦ elim (load_metadata tbl_id e) [
      | thrown r e' ↦ thrown r e'
      | done m e' ↦ done m.last_pgno e'
    ]
  ]
