-- ===== src/BufferPool/Evicted.antt =====
-- What is left of a page whose frame `ensure_free_frame` takes away.
use cpplite.Common.{
  ℕ, suc, ◌+◌, ◌<◌, ◌≡◌, refl, arith, true, false, none, some, [], ◌∷◌, length, take_or, ◌==◌, ◌∙◌,
  if◌then◌else◌,
}
use cpplite.Common.Outcome.{done, thrown, assertion}
use cpplite.Encoding.{Bytes}
use cpplite.Evictor.{LrukEvictor, evict, record_access, set_evictable}
use cpplite.FileCache.{is_key, find}
use cpplite.Pager.Page.{page_size}
use cpplite.Storage.Engine.{StorageEngine}
use cpplite.Storage.Engine.Pages as Pages
use cpplite.Vfs.{VirtualFs}
use cpplite.BufferPool.{
  PageKey, FrameTable, readers, reset, incr_pins, lock_read, set_entry, BufferPoolManager,
  set_frame, unlock_pool,
}
use cpplite.BufferPool.Guard.{reading, PageGuard, make_guard, get_data}
use cpplite.BufferPool.Pool.{
  size, fill_frame, insert_frame, ensure_free_frame, new_page, frame_of, get_page, read_page,
}

pub find-set_entry :
    (key other : PageKey) (id : ℕ) (entries : FrameTable)
    → find other (set_entry key id entries)
      ≡ (if is_key key other then some id else find other entries)
unfolding find set_entry
find-set_entry key other id [] = refl
find-set_entry key other id ((k, f) ∷ entries) = ground (arith, find-set_entry key other id entries)

module _ {v : VirtualFs} where
  -- A pool without a free frame, whose evictor gives a frame up.
  pub record IsFull (p : BufferPoolManager v) (victim : ℕ) (evictor : LrukEvictor) : Type 0 where
    pub unlatched : p.bpm_latch ≡ false
    pub none_free : p.free_list ≡ []
    pub evicts : evict p.evictor ≡ (some victim, evictor)

  -- In a pool whose latch is free and that has as many entries in its table as it has frames, none of them
  -- free, `new_page` fails at an assertion when the evictor gives a frame up: the entry of the old page is
  -- still in the table, as all other entries are, and the storage engine has not been called.
  pub new_page_full :
      (p : BufferPoolManager v) (victim : ℕ) (evictor : LrukEvictor) (tbl_id : ℕ)
      → IsFull p victim evictor
      → length p.frame_table ≡ p.num_frames
      → (p' : BufferPoolManager v) × (new_page tbl_id p ≡ thrown assertion p')
        × (p'.frame_table ≡ p.frame_table)
        × (p'.storage_engine ≡ p.storage_engine)
  unfolding new_page ensure_free_frame size
  new_page_full p victim evictor tbl_id full count =
      let p' = record p { bpm_latch = true; evictor = evictor; free_list = victim ∷ [] } in
      (p', ground (arith, full.unlatched, full.none_free, full.evicts, count), refl, refl)

  -- A page that is in a frame, which no writer has latched.
  hit :
      (p : BufferPoolManager v) (pgkey : PageKey) (id n : ℕ)
      → p.bpm_latch ≡ false
      → find pgkey p.frame_table ≡ some id
      → id < p.num_frames
      → (p.frames id).rwlatch ≡ readers n
      → (guard : PageGuard) × (p' : BufferPoolManager v) × (read_page pgkey p ≡ done guard p')
        × (get_data guard p' ≡ (p.frames id).bytes)
  unfolding read_page get_page frame_of make_guard lock_read incr_pins get_data
  hit p pgkey id n free there inside latch =
      let pinned = incr_pins (p.frames id) in
      let p1 : BufferPoolManager v = record p {
        bpm_latch = true;
        evictor = set_evictable (record_access p.evictor id) id false;
      } in
      let p2 = record (set_frame id pinned p1) { evictor = record_access p1.evictor id } in
      (
        record { kind = reading; pgkey = pgkey; frame = id; is_valid = true },
        unlock_pool (set_frame id (record pinned { rwlatch = readers (suc n) }) p2),
        ground (arith, free, there, inside, latch),
        ground (arith),
      )

  -- What `read_page` of another page leaves of the page whose frame it takes, and what `read_page` of
  -- that page then returns.
  abbrev pub Confuses : PageKey → PageKey → Bytes → StorageEngine v → BufferPoolManager v → Type 0
  Confuses old new buffer e p =
      (guard : PageGuard) × (p' : BufferPoolManager v) × (read_page new p ≡ done guard p')
      × (get_data guard p' ≡ take_or page_size 0 buffer)
      × (p'.storage_engine ≡ e)
      × ((guard' : PageGuard) × (p'' : BufferPoolManager v) × (read_page old p' ≡ done guard' p'')
          × (get_data guard' p'' ≡ take_or page_size 0 buffer))

  -- `read_page` of a page that takes the frame of another page away: nothing is written to the disk,
  -- also if that frame is dirty, since the engine is as reading the new page leaves it; and `read_page`
  -- of the old page afterwards returns the bytes of the new page.
  pub read_page-Confuses :
      (p : BufferPoolManager v) (victim : ℕ) (evictor : LrukEvictor) (old new : PageKey)
      (buffer : Bytes) (e : StorageEngine v) (n : ℕ)
      → IsFull p victim evictor
      → find new p.frame_table ≡ none
      → find old p.frame_table ≡ some victim
      → victim < p.num_frames
      → (p.frames victim).rwlatch ≡ readers n
      → Pages.read_page new [] p.storage_engine ≡ done buffer e
      → Confuses old new buffer e p
  unfolding read_page get_page frame_of ensure_free_frame insert_frame fill_frame make_guard
      lock_read incr_pins reset get_data
  read_page-Confuses p victim evictor old new buffer e n full absent there inside latch reads =
      let frame = record (reset (p.frames victim)) { bytes = take_or page_size 0 buffer } in
      let ev1 = set_evictable (record_access evictor victim) victim false in
      let frame1 = record (incr_pins frame) { rwlatch = readers (n + 1) } in
      let p1 : BufferPoolManager v = record p {
        frames = λ other.
            if other == victim
            then frame1
            else (if other == victim
                then incr_pins frame
                else (if other == victim then frame else p.frames other));
        free_list = [];
        frame_table = set_entry new victim p.frame_table;
        evictor = record_access ev1 victim;
        storage_engine = e;
      } in
      let still : find old p1.frame_table ≡ some victim =
        ground (arith, there, find-set_entry new old victim p.frame_table) in
      let (guard', p'', run', same) =
        hit p1 old victim (n + 1) full.unlatched still inside (ground arith) in
      (
        record { kind = reading; pgkey = new; frame = victim; is_valid = true },
        p1,
        ground (arith, full.unlatched, full.none_free, full.evicts, absent, inside, latch, reads),
        ground arith,
        refl,
        (guard', p'', run', same ∙ ground arith),
      )
