-- ===== src/BufferPool/Examples.antt =====
-- A pool of one frame over the engine of the storage's sample.
use cpplite.Common.{◌≡◌, refl, ap, arith, true, false, [], ◌∷◌, replicate}
use cpplite.Common.Outcome.{done, thrown, assertion}
use cpplite.Evictor.{LrukEvictor, init, evict, record_access, set_evictable}
use cpplite.Evictor.Set.{set_insert}
use cpplite.FileCache.{find}
use cpplite.Pager.Page.{page_size}
use cpplite.Vfs.Local.{local_fs}
use cpplite.Vfs.Memory.{memory}
use cpplite.Storage.Engine.{EngineConfig}
use cpplite.Storage.Sample.{base, view, works, made, one_table, sized}
use cpplite.Storage.Engine.Pages.Laid.{page_at}
use cpplite.Storage.Engine.Pages.Stored.{read_page-Reads}
use cpplite.BufferPool.{PageKey, Latch, readers, writer, new_frame, BufferPoolManager, evictor_k}
use cpplite.Evictor.Access.{record_access-IsValid}
use cpplite.Evictor.Invariant.{IsValid, init-IsValid, set_evictable-IsValid}
use cpplite.BufferPool.Evictable.{Guards, read_page-Guards}
use cpplite.BufferPool.Evicted.{new_page_full, Confuses, read_page-Confuses}
use cpplite.BufferPool.Flushed.{Flushes, flush_page-Flushes}
use cpplite.BufferPool.Pinned.{Pins, read_page-Pins}
use cpplite.BufferPool.Pool.{flush_page, new_page}
use cpplite.BufferPool.Waits.{Deadlocks, get_page-Deadlocks}

-- The frame's accesses: one, and nothing pins it.
abbrev accessed : LrukEvictor
accessed = set_evictable (record_access (init evictor_k) 0) 0 true

-- The frame has a page, and a latch.
abbrev pool : PageKey → Latch → BufferPoolManager (local_fs memory base)
pool pgkey latch = record {
  num_frames = 1;
  bpm_latch = false;
  frames = λ id. record new_frame { rwlatch = latch; dirty = true; bytes = replicate page_size 7 };
  frame_table = (pgkey, 0) ∷ [];
  free_list = [];
  storage_engine = made.0;
  evictor = accessed;
}

flush_page-Flushes_example :
    (p' : BufferPoolManager (local_fs memory base)) × (flush_page (1, 0) (pool (1, 0) (readers 0))
      ≡ done true p')
    × Flushes view (1, 0) 0 (pool (1, 0) (readers 0)) p'
unfolding one_table find
flush_page-Flushes_example =
    flush_page-Flushes view works (pool (1, 0) (readers 0)) (1, 0) 0
      (record {
        valid = made.2;
        sized = sized;
        there = made.4;
        paged = ap (λ (c : EngineConfig). c.page_size) made.3;
        whole = refl;
      })
      refl refl (omega arith) refl

read_page-Pins_example :
    Pins
      (1, 0)
      0
      2
      2
      (record (pool (1, 0) (readers 2)) {
        frames = λ id. record new_frame { rwlatch = readers 2; pins = 2 };
      })
unfolding find
read_page-Pins_example =
    read_page-Pins
      (record (pool (1, 0) (readers 2)) {
        frames = λ id. record new_frame { rwlatch = readers 2; pins = 2 };
      })
      (1, 0) 0 2 2 refl refl (omega arith) refl refl (omega arith)

get_page-Deadlocks_example : Deadlocks (1, 0) 0 (pool (1, 0) writer)
unfolding find
get_page-Deadlocks_example =
    get_page-Deadlocks (pool (1, 0) writer) (1, 0) 0 refl refl (omega arith) refl

new_page_full_example :
    (p' : BufferPoolManager (local_fs memory base)) × (new_page 1 (pool (2, 0) (readers 0))
      ≡ thrown assertion p')
    × (p'.frame_table ≡ (pool (2, 0) (readers 0)).frame_table)
    × (p'.storage_engine ≡ (pool (2, 0) (readers 0)).storage_engine)
unfolding evict set_evictable record_access init set_insert
new_page_full_example =
    new_page_full (pool (2, 0) (readers 0)) 0 (evict accessed).1 1
      (record { unlatched = refl; none_free = refl; evicts = refl }) refl

read_page-Confuses_example :
    Confuses
      (2, 0)
      (1, 0)
      (page_at view made.0 (1, 0))
      (read_page-Reads view works (1, 0) made.0 made.2 made.4).0
      (pool (2, 0) (readers 0))
unfolding find evict set_evictable record_access init set_insert
read_page-Confuses_example =
    let (e, run, follows, same) = read_page-Reads view works (1, 0) made.0 made.2 made.4 in
    read_page-Confuses (pool (2, 0) (readers 0)) 0 (evict accessed).1 (2, 0) (1, 0)
      (page_at view made.0 (1, 0)) e 0
      (record { unlatched = refl; none_free = refl; evicts = refl }) refl refl (omega arith) refl
      run

accessed-IsValid : IsValid accessed
accessed-IsValid =
    let start = init-IsValid evictor_k (omega arith) in
    let (touched, at) = record_access-IsValid (init evictor_k) 0 start in
    (set_evictable-IsValid (record_access (init evictor_k) 0) 0 touched true).0

read_page-Guards_example : Guards (1, 0) 0 (pool (1, 0) (readers 0))
unfolding find
read_page-Guards_example =
    read_page-Guards (pool (1, 0) (readers 0)) (1, 0) 0 0
      (record { valid = accessed-IsValid; held = λ g h. absurd (omega (arith, h)) }) refl refl
      (omega arith) refl (omega arith)
