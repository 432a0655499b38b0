-- ===== src/BufferPool/Waits.antt =====
-- Threads of the pool that wait for each other for good.
use cpplite.Common.{ℕ, ◌<◌, ◌≡◌, refl, arith, true, false, none, some, List, [], ◌∷◌}
use cpplite.Common.Outcome.{thrown, Error, waiting}
use cpplite.Evictor.{record_access, set_evictable}
use cpplite.FileCache.{find}
use cpplite.Storage.Engine.{StorageEngine}
use cpplite.Storage.Engine.Pages as Pages
use cpplite.Vfs.{VirtualFs}
use cpplite.BufferPool.{
  PageKey, writer, incr_pins, lock_read, lock_write, BufferPoolManager, set_frame,
}
use cpplite.BufferPool.Guard.{PageGuard, make_guard, drop}
use cpplite.BufferPool.Pool.{
  new_page, frame_of, get_page, read_page, write_page, evict_page, flush_page, flush_all_pages,
  get_pin_count, ensure_free_frame, insert_frame,
}

module _ {v : VirtualFs} where
  -- Every operation of the pool that takes its latch waits, as does `drop` of every valid guard.
  abbrev pub Stuck : BufferPoolManager v → Type 0
  Stuck p =
      ((tbl_id : ℕ) → new_page tbl_id p ≡ thrown waiting p)
      × ((pgkey : PageKey) → read_page pgkey p ≡ thrown waiting p)
      × ((pgkey : PageKey) → write_page pgkey p ≡ thrown waiting p)
      × ((pgkey : PageKey) → evict_page pgkey p ≡ thrown waiting p)
      × ((pgkey : PageKey) → flush_page pgkey p ≡ thrown waiting p)
      × (flush_all_pages p ≡ thrown waiting p)
      × ((pgkey : PageKey) → get_pin_count pgkey p ≡ thrown waiting p)
      × ((guard : PageGuard) → guard.is_valid ≡ true → drop guard p ≡ thrown waiting p)

  pub latched-Stuck : (p : BufferPoolManager v) → p.bpm_latch ≡ true → Stuck p
  unfolding new_page read_page write_page get_page evict_page flush_page flush_all_pages
      get_pin_count drop
  latched-Stuck p held = (
    λ tbl_id. ground (arith, held),
    λ pgkey. ground (arith, held),
    λ pgkey. ground (arith, held),
    λ pgkey. ground (arith, held),
    λ pgkey. ground (arith, held),
    ground (arith, held),
    λ pgkey. ground (arith, held),
    λ guard valid. ground (arith, held, valid),
  )

  -- What `read_page` and `write_page` of a page leave if its frame has a writer.
  abbrev pub Deadlocks : PageKey → ℕ → BufferPoolManager v → Type 0
  Deadlocks pgkey id p =
      (p' : BufferPoolManager v) × (read_page pgkey p ≡ thrown waiting p')
      × (write_page pgkey p ≡ thrown waiting p')
      × ((p'.frames id).rwlatch ≡ writer)
      × Stuck p'

  -- `read_page` or `write_page` of a page whose frame a writer has latched waits for the frame's latch
  -- with the latch of the pool held. From then on every operation of the pool but `size` waits, and so
  -- does `drop` of every valid guard, the writer's too, so that the writer never gives its latch up.
  pub get_page-Deadlocks :
      (p : BufferPoolManager v) (pgkey : PageKey) (id : ℕ)
      → p.bpm_latch ≡ false
      → find pgkey p.frame_table ≡ some id
      → id < p.num_frames
      → (p.frames id).rwlatch ≡ writer
      → Deadlocks pgkey id p
  unfolding read_page write_page get_page frame_of make_guard lock_read lock_write incr_pins
  get_page-Deadlocks p pgkey id free there inside latched =
      let pinned = incr_pins (p.frames id) in
      let p' : BufferPoolManager v =
        record (set_frame id pinned (record p {
          bpm_latch = true;
          evictor = set_evictable (record_access p.evictor id) id false;
        })) { evictor = record_access (set_evictable (record_access p.evictor id) id false) id } in
      (
        p',
        ground (arith, free, there, inside, latched),
        ground (arith, free, there, inside, latched),
        ground (arith, latched),
        latched-Stuck p' refl,
      )

  -- `read_page` of a page that is in no frame, and that the storage engine does not read: the exception
  -- leaves the latch of the pool held, so that from then on every operation of the pool but `size` waits.
  pub failed_read :
      (p : BufferPoolManager v) (pgkey : PageKey) (id : ℕ) (free_list : List ℕ) (reason : Error)
      (e : StorageEngine v)
      → p.bpm_latch ≡ false
      → find pgkey p.frame_table ≡ none
      → p.free_list ≡ id ∷ free_list
      → Pages.read_page pgkey [] p.storage_engine ≡ thrown reason e
      → (p' : BufferPoolManager v) × (read_page pgkey p ≡ thrown reason p') × Stuck p'
  unfolding read_page get_page frame_of ensure_free_frame insert_frame
  failed_read p pgkey id free_list reason e free absent some_frame fails = (
    record p { bpm_latch = true; storage_engine = e },
    ground (arith, free, absent, some_frame, fails),
    latched-Stuck (record p { bpm_latch = true; storage_engine = e }) refl,
  )
