-- ===== src/BufferPool/Pinned.antt =====
-- A page stays in its frame as long as a guard of it is there.
use cpplite.Common.{ℕ, suc, ◌+◌, ◌^◌, ◌<◌, ◌≡◌, refl, arith, true, false, some, ◌==◌, if◌then◌else◌}
use cpplite.Common.Outcome.{done}
use cpplite.Evictor.{record_access, set_evictable}
use cpplite.FileCache.{find}
use cpplite.Vfs.{VirtualFs}
use cpplite.BufferPool.{
  PageKey, readers, incr_pins, decr_pins, lock_read, unlock_read, BufferPoolManager, set_frame,
  unlock_pool,
}
use cpplite.BufferPool.Guard.{reading, PageGuard, make_guard, get_data, drop}
use cpplite.BufferPool.Pool.{frame_of, get_page, read_page, evict_page, get_pin_count}

module _ {v : VirtualFs} where
  -- The guard of a read, while it is there and after its `drop`.
  abbrev pub Pins : PageKey → ℕ → ℕ → ℕ → BufferPoolManager v → Type 0
  Pins pgkey id n k p =
      (guard : PageGuard) × (p' : BufferPoolManager v) × (read_page pgkey p ≡ done guard p')
      × (get_data guard p' ≡ (p.frames id).bytes)
      × (get_pin_count pgkey p' ≡ done (some (k + 1)) p')
      × (evict_page pgkey p' ≡ done false p')
      × ((guard' : PageGuard) × (p'' : BufferPoolManager v) × (drop guard p' ≡ done guard' p'')
          × (drop guard' p'' ≡ done guard' p'')
          × (get_pin_count pgkey p'' ≡ done (some k) p'')
          × ((p''.frames id).rwlatch ≡ readers n)
          × ((p''.frames id).bytes ≡ (p.frames id).bytes)
          × (p''.evictor ≡ (if k == 0 then set_evictable p'.evictor id true else p'.evictor)))

  -- `read_page` of a page that is in a frame with `n` readers, no writer, and `k` pins returns a guard
  -- with the frame's bytes. While the guard is there the page has one pin more, and `evict_page` of it
  -- returns false and changes nothing. `drop` takes the pin and the reader away again, and makes the
  -- frame evictable if no pin is left; a second `drop` does nothing.
  pub read_page-Pins :
      (p : BufferPoolManager v) (pgkey : PageKey) (id n k : ℕ)
      → p.bpm_latch ≡ false
      → find pgkey p.frame_table ≡ some id
      → id < p.num_frames
      → (p.frames id).rwlatch ≡ readers n
      → (p.frames id).pins ≡ k
      → k + 1 < 2 ^ 64
      → Pins pgkey id n k p
  unfolding read_page get_page frame_of make_guard lock_read unlock_read incr_pins decr_pins
      get_data evict_page get_pin_count drop
  read_page-Pins p pgkey id n k free there inside latch pins below =
      let pinned = incr_pins (p.frames id) in
      let p1 : BufferPoolManager v = record p {
        bpm_latch = true;
        evictor = set_evictable (record_access p.evictor id) id false;
      } in
      let p2 = record (set_frame id pinned p1) { evictor = record_access p1.evictor id } in
      let frame = record pinned { rwlatch = readers (suc n) } in
      let p' = unlock_pool (set_frame id frame p2) in
      let guard : PageGuard = record {
        kind = reading;
        pgkey = pgkey;
        frame = id;
        is_valid = true;
      } in
      let unpinned = set_frame id (decr_pins frame) (record p' { bpm_latch = true }) in
      let released = record unpinned {
        evictor = if k == 0 then set_evictable p'.evictor id true else p'.evictor;
      } in
      let open_again = unlock_pool released in
      let p'' = set_frame id (record (decr_pins frame) { rwlatch = readers n }) open_again in
      let guard' = record guard { is_valid = false } in
      (
        guard,
        p',
        ground (arith, free, there, inside, latch),
        ground arith,
        ground (arith, there, inside, pins, below),
        ground (arith, there, inside, pins, below),
        (
          guard',
          p'',
          ground (arith, pins, below),
          refl,
          ground (arith, there, inside, pins, below),
          ground arith,
          ground arith,
          refl,
        ),
      )
