-- ===== src/Storage/Sample.antt =====
-- For the tests: an engine on the local file system of an operating system in memory, with two pages of
-- 4096 bytes in a segment, and the same with a table.
use cpplite.Common.{refl, sym, subst, arith, none, [], ◌∷◌}
use cpplite.Encoding.{Bytes}
use cpplite.Binder.{is_same}
use cpplite.FileCache.{find, new_cache}
use cpplite.FileCache.Order.{new_cache-IsValid}
use cpplite.Pager.Page.{page_size}
use cpplite.Vfs.{VirtualFs}
use cpplite.Vfs.Laws.{View, Works}
use cpplite.Vfs.Local.{local_fs, exists, is_dir}
use cpplite.Vfs.Local.Implements.{local_view, local_fs-Works}
use cpplite.Vfs.Memory.{memory, memory_view, memory-Documented, empty_disk}
use cpplite.Storage.Paths.{tbl_path, seg_path}
use cpplite.Storage.Engine.{StorageEngine}
use cpplite.Storage.Engine.Cached.{EngineValid}
use cpplite.Storage.Engine.Pages.Laid.{IsSized}
use cpplite.Storage.Engine.Tables.Created.{Creates, create_table-Creates}

abbrev pub base : Bytes
base = b'd' ∷ []

abbrev pub fs : VirtualFs
fs = local_fs memory base

abbrev pub view : View (local_fs memory base)
view = local_view memory memory_view base

pub works : Works (local_fs memory base) (local_view memory memory_view base)
works = local_fs-Works memory memory_view memory-Documented base

abbrev pub empty_engine : StorageEngine (local_fs memory base)
empty_engine = record {
  fs = empty_disk;
  config = record { segment_size = 2; page_size = page_size };
  control = none;
  table_metadata = [];
  filecache = new_cache (record { fd = none });
}

pub empty_engine-EngineValid : EngineValid view empty_engine
unfolding find
empty_engine-EngineValid = record {
  cache = new_cache-IsValid (record { fd = none });
  room = omega arith;
  opened = λ key a e. absurd (ground (arith, e));
}

-- The engine after a table is made.
abbrev pub made : Creates view 1 empty_engine
unfolding is_same exists is_dir tbl_path seg_path
made =
    create_table-Creates view works empty_engine 1 empty_engine-EngineValid
      (omega arith, omega arith) (omega arith) refl refl refl

unfoldable pub one_table : StorageEngine (local_fs memory base)
one_table = made.0

pub sized : IsSized one_table.config
unfolding one_table made
sized = subst IsSized (sym made.3) (omega arith, omega arith)
