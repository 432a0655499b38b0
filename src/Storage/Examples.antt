-- ===== src/Storage/Examples.antt =====
-- Names of files, and the engine of the sample.
use cpplite.Common.{◌≡◌, false, refl, sym, subst, ◌||◌, arith, none, [], ◌∷◌}
use cpplite.Common.Outcome.{ok, thrown, assertion}
use cpplite.Binder.{is_same}
use cpplite.FileCache.{find}
use cpplite.FileCache.Order.{new_cache-IsValid}
use cpplite.Vfs.Local.{local_fs, exists, is_dir, ls, rmdir}
use cpplite.Vfs.Memory.{memory, empty_disk, remove_dir, listed, without}
use cpplite.Storage.{pgno_to_segid}
use cpplite.Storage.Paths.{tbl_path, seg_path, path_to_tbl_id, path_to_seg_id}
use cpplite.Storage.Paths.RoundTrip.{path_to_id-path}
use cpplite.Storage.Engine.{StorageEngine, EngineConfig, find_table}
use cpplite.Storage.Engine.Open.{HasPlace}
use cpplite.Storage.Engine.Pages.{read_page, write_page, allocate_page}
use cpplite.Storage.Engine.Pages.Allocated.{Allocates, allocate_page-Allocates}
use cpplite.Storage.Engine.Pages.Laid.{seg_key}
use cpplite.Storage.Engine.Pages.Refused.{Fails, metadata_unloaded}
use cpplite.Storage.Engine.Pages.Stored.{Stores, write_page-Stores}
use cpplite.Storage.Engine.Tables.Created.{one_page, Creates, create_table-Creates}
use cpplite.Storage.Engine.Tables.Removed.{deleted_unflushed}
use cpplite.Storage.Engine.Tables.{delete_table, truncate_table, unlink_all, flush_table}
use cpplite.Storage.Sample.{
  base, fs, view, works, empty_engine, empty_engine-EngineValid, made, one_table, sized,
}

path_to_id-path_example :
    (path_to_tbl_id (tbl_path 7) ≡ ok 7) × (path_to_seg_id (seg_path 7 12) ≡ ok 12)
path_to_id-path_example = path_to_id-path 7 12 (omega arith) (omega arith)

create_table-Creates_example : Creates view 1 empty_engine
unfolding is_same exists is_dir tbl_path seg_path
create_table-Creates_example =
    create_table-Creates view works empty_engine 1 empty_engine-EngineValid
      (omega arith, omega arith) (omega arith) refl refl refl

write_page-Stores_example : Stores view (1, 0) (b'a' ∷ b'b' ∷ []) one_table
unfolding one_table
write_page-Stores_example =
    write_page-Stores view works (1, 0) (b'a' ∷ b'b' ∷ []) one_table made.2 sized made.4

-- The table's folder, with an engine that knows nothing of the table.
abbrev unknown_engine : StorageEngine (local_fs memory base)
unknown_engine = record empty_engine {
  fs = record empty_disk { dirs = λ q. is_same base q || is_same (b'd' ∷ b'/' ∷ b'1' ∷ []) q };
}

metadata_unloaded_example :
    Fails view (read_page (1, 3) [] unknown_engine)
    × Fails view (write_page (1, 3) [] unknown_engine)
    × Fails view (allocate_page 1 unknown_engine)
unfolding is_same is_dir tbl_path seg_path find find_table
metadata_unloaded_example =
    metadata_unloaded view works unknown_engine 1 3 []
      (record {
        cache = new_cache-IsValid (record { fd = none });
        room = omega arith;
        opened = λ key a e. absurd (ground (arith, e));
      })
      (omega arith) (refl, refl) refl (omega arith)

allocate_page-Allocates_example : Allocates view 1 one_page one_table
unfolding one_table pgno_to_segid
allocate_page-Allocates_example =
    allocate_page-Allocates view works one_table 1 one_page made.2 sized made.5 (omega arith)
      (omega arith)
      (subst (λ (c : EngineConfig). HasPlace view one_table.fs (seg_key c (1, 1))) (sym made.3)
        (subst (λ (c : EngineConfig). HasPlace view one_table.fs (seg_key c (1, 0))) made.3
          made.4.2))
      made.4.3

abbrev known_engine : StorageEngine (local_fs memory base)
known_engine = record unknown_engine { table_metadata = (1, one_page) ∷ [] }

abbrev deleted_engine : StorageEngine (local_fs memory base)
deleted_engine = record known_engine {
  fs = (remove_dir (b'd' ∷ b'/' ∷ b'1' ∷ []) known_engine.fs).1;
}

deleted_unflushed_example :
    (fs.exists (tbl_path 1) deleted_engine.fs ≡ false)
    × (deleted_engine.table_metadata ≡ known_engine.table_metadata)
    × (deleted_engine.filecache ≡ known_engine.filecache)
    × (flush_table 1 deleted_engine ≡ thrown assertion deleted_engine)
unfolding is_same exists tbl_path seg_path delete_table truncate_table unlink_all ls rmdir listed
    without find_table
deleted_unflushed_example =
    deleted_unflushed 1 one_page known_engine deleted_engine refl refl (λ gone seg_id. refl)
