-- ===== src/Storage/Engine/Tables/Start.antt =====
-- The constructor of the storage engine: the control file and the tables that are found on the disk.
use Prim.Native.Nat.{bit_or}
use cpplite.Common.{
  ℕ, ◌+◌, ◌-◌, ◌*◌, ◌/◌, ◌%◌, ◌^◌, Option, none, some, List, [], ◌∷◌, ◌==◌, if◌then◌else◌, length,
  replicate,
}
use cpplite.Common.Outcome.{Outcome, done, thrown, Result, ok, err, assertion}
use cpplite.Encoding.{Bytes, append_uint32, append_uint64, read_uint32, read_uint64}
use cpplite.FileCache.{new_cache}
use cpplite.Vfs.{VirtualFs, o_rdwr, o_creat}
use cpplite.Vfs.Local.{Posix, local_fs}
use cpplite.Storage.Paths.{path_to_tbl_id}
use cpplite.Storage.Engine.{
  StorageEngine, EngineConfig, TableMetadata, set_table, control_file, checksum,
  default_catalog_table, default_catalog_pgno,
}

-- `Control::to_bytes` of the default catalog
abbrev pub default_control : Bytes
default_control =
    append_uint64 (append_uint64 (append_uint32 [] checksum) default_catalog_table)
      default_catalog_pgno

-- `Control::SIZE`
abbrev pub control_size : ℕ
control_size = 20

-- The catalog's key, if the control's checksum is right.
unfoldable pub read_control : Bytes → Result (Option (ℕ × ℕ))
read_control buffer = elim (read_uint32 buffer 0) [
  | err r ↦ err r
  | ok (control_checksum, offset) ↦
      if control_checksum == checksum
      then elim (read_uint64 buffer offset) [
        | err r ↦ err r
        | ok (tbl_id, offset') ↦ elim (read_uint64 buffer offset') [
          | err r ↦ err r
          | ok (pgno, offset'') ↦ ok (some (tbl_id, pgno))
        ]
      ]
      else ok none
]

module _ {v : VirtualFs} where
  unfoldable pub create_control : StorageEngine v → Outcome (StorageEngine v) (Unit {0})
  create_control e = elim (v.open_file control_file (bit_or o_rdwr o_creat) e.fs) [
    | thrown r s ↦ thrown r (record e { fs = s })
    | done file s ↦ elim (v.write file (some default_control) (length default_control) 0 s) [
      | thrown r s' ↦ thrown r (record e { fs = s' })
      | done buffer s' ↦ done tt (record e { fs = s' })
    ]
  ]

  unfoldable pub load_control : StorageEngine v → Outcome (StorageEngine v) (Unit {0})
  unfolding read_control
  load_control e = elim (v.open_file control_file o_rdwr e.fs) [
    | thrown r s ↦ thrown r (record e { fs = s })
    | done file s ↦ elim (v.read file (replicate control_size 0) control_size 0 s) [
      | err r ↦ thrown r (record e { fs = s })
      | ok buffer ↦ elim (read_control buffer) [
        | err r ↦ thrown r (record e { fs = s })
        | ok none ↦ done tt (record e { fs = s })
        | ok (some key) ↦ done tt (record e { fs = s; control = some key })
      ]
    ]
  ]

  unfoldable pub init_control : StorageEngine v → Outcome (StorageEngine v) (Unit {0})
  unfolding create_control load_control
  init_control e = if v.exists control_file e.fs then load_control e else create_control e

  -- The pages of a table by its segments' files, of which there must be one.
  unfoldable pub count_pages : List Bytes → StorageEngine v → Result TableMetadata
  count_pages [] e = err assertion
  count_pages (last ∷ []) e = elim (v.filesize last e.fs) [
    | err r ↦ err r
    | ok size ↦
        let total_pages = (0 * e.config.segment_size + size / e.config.page_size) % 2 ^ 64 in
        ok (record { last_pgno = (total_pages + (2 ^ 64 - 1)) % 2 ^ 64; total_pages = total_pages })
  ]
  count_pages (first ∷ second ∷ more) e = err assertion

  unfoldable pub init_table : Bytes → StorageEngine v → Outcome (StorageEngine v) (Unit {0})
  unfolding count_pages
  init_table path e = elim (v.ls path e.fs) [
    | err r ↦ thrown r e
    | ok segments ↦ elim (count_pages segments e) [
      | err r ↦ thrown r e
      | ok metadata ↦ elim (path_to_tbl_id path) [
        | err r ↦ thrown r e
        | ok tbl_id ↦
            done tt (record e { table_metadata = set_table tbl_id metadata e.table_metadata })
      ]
    ]
  ]

  unfoldable pub init_tables : List Bytes → StorageEngine v → Outcome (StorageEngine v) (Unit {0})
  unfolding init_table
  init_tables [] e = done tt e
  init_tables (path ∷ paths) e =
      let rest = init_tables paths e in
      if v.is_dir path e.fs
      then elim (init_table path e) [ thrown r e' ↦ thrown r e' | done _ e' ↦ init_tables paths e' ]
      else rest

  unfoldable pub init_table_metadata : StorageEngine v → Outcome (StorageEngine v) (Unit {0})
  unfolding init_tables
  init_table_metadata e = elim (v.ls [] e.fs) [
    | err r ↦ thrown r e
    | ok paths ↦ init_tables paths e
  ]

  abbrev pub init : StorageEngine v → Outcome (StorageEngine v) (Unit {0})
  init e = elim (init_control e) [ thrown r e' ↦ thrown r e' | done _ e' ↦ init_table_metadata e' ]

-- `StorageEngine::open(basepath, config)`
unfoldable pub open_engine :
    (p : Posix) (basepath : Bytes)
    → EngineConfig
    → p.Os
    → Outcome (StorageEngine (local_fs p basepath)) (Unit {0})
unfolding init_control init_table_metadata
open_engine p basepath config s = init (record {
  fs = s;
  config = config;
  control = none;
  table_metadata = [];
  filecache = new_cache (record { fd = none });
})
