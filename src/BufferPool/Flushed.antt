-- ===== src/BufferPool/Flushed.antt =====
-- What the pool writes to the disk.
use mathlib.Core.List.{append-nil}
use cpplite.Common.{
  ℕ, ◌-◌, ◌<◌, ◌≡◌, refl, sym, ap, ◌∙◌, arith, true, false, some, [], ◌∷◌, length, take,
}
use cpplite.Common.Outcome.{done}
use cpplite.Encoding.{Bytes}
use cpplite.FileCache.{is_key, find}
use cpplite.Pager.Page.{page_size}
use cpplite.Vfs.{VirtualFs, grow}
use cpplite.Vfs.Laws.{View, Works}
use cpplite.Storage.Engine.{StorageEngine}
use cpplite.Storage.Engine.Cached.{IsSmall, EngineValid}
use cpplite.Storage.Engine.Pages as Pages
use cpplite.Storage.Engine.Pages.Laid.{IsSized, page_at}
use cpplite.Storage.Engine.Pages.Stored.{HasPage, write_page-Stores}
use cpplite.BufferPool.{
  PageKey, readers, writer, lock_write, unlock_write, BufferPoolManager, set_frame, unlock_pool,
}
use cpplite.BufferPool.Guard.{writing, PageGuard, write_back, flush}
use cpplite.BufferPool.Pool.{flush_frame, flush_page}

take-all : (xs : Bytes) → take (length xs) xs ≡ xs
take-all [] = refl
take-all (x ∷ xs) = ap (◌∷◌ x) (take-all xs)

-- A whole page is written as it is.
take-grow : (len : ℕ) (xs : Bytes) → length xs ≡ len → take len (grow len xs) ≡ xs
take-grow len xs e =
    let none_missing : len - length xs ≡ 0 = omega (arith, e) in
    rw none_missing (rw (sym e, append-nil xs) (take-all xs))

module _ {v : VirtualFs} (w : View v) where
  -- The engine after the bytes of a page are written.
  abbrev pub Keeps : PageKey → Bytes → StorageEngine v → StorageEngine v → Type 0
  Keeps pgkey bytes e e' =
      EngineValid w e'
      × ((e'' : StorageEngine v) × (Pages.read_page pgkey [] e' ≡ done bytes e''))
      × ((other : PageKey)
          → IsSmall other
          → is_key pgkey other ≡ false
          → page_at w e' other ≡ page_at w e other)

  -- The engine may write the page, its pages are of PAGE_SIZE bytes, as a frame is, and so are the
  -- frame's bytes.
  pub record IsReady (p : BufferPoolManager v) (pgkey : PageKey) (id : ℕ) : Type 0 where
    pub valid : EngineValid w p.storage_engine
    pub sized : IsSized p.storage_engine.config
    pub there : HasPage w p.storage_engine pgkey
    pub paged : p.storage_engine.config.page_size ≡ page_size
    pub whole : length (p.frames id).bytes ≡ page_size

  write-Keeps :
      (works : Works v w) (p : BufferPoolManager v) (pgkey : PageKey) (id : ℕ)
      → IsReady p pgkey id
      → (e' : StorageEngine v) × (buffer : Bytes) × (Pages.write_page pgkey
            (p.frames id).bytes
            p.storage_engine
          ≡ done buffer e')
        × Keeps pgkey (p.frames id).bytes p.storage_engine e'
  write-Keeps works p pgkey id ready =
      let e = p.storage_engine in
      let bytes = (p.frames id).bytes in
      let (e', run, valid, (e'', read), others) =
        write_page-Stores w works pgkey bytes e ready.valid ready.sized ready.there in
      let same = take-grow e.config.page_size bytes (ready.whole ∙ sym ready.paged) in
      (
        e',
        grow e.config.page_size bytes,
        run,
        (valid, (e'', read ∙ ap (λ (b : Bytes). done b e'') same), others),
      )

  -- A frame that has been flushed.
  abbrev pub Flushes : PageKey → ℕ → BufferPoolManager v → BufferPoolManager v → Type 0
  Flushes pgkey id p p' =
      Keeps pgkey (p.frames id).bytes p.storage_engine p'.storage_engine
      × ((p'.frames id).dirty ≡ false)
      × ((p'.frames id).bytes ≡ (p.frames id).bytes)
      × ((p'.frames id).pins ≡ (p.frames id).pins)
      × ((p'.frames id).rwlatch ≡ (p.frames id).rwlatch)
      × (p'.bpm_latch ≡ p.bpm_latch)
      × (p'.frame_table ≡ p.frame_table)

  -- `flush_page` of a page that is in a frame which no thread has latched, with the pool's latch free,
  -- writes the frame's PAGE_SIZE bytes, on a disk that does not fail and with a storage engine whose pages
  -- are of PAGE_SIZE bytes, with one at least and fewer than 2 ^ 64 bytes in a segment, whose cache of
  -- files is well formed, may hold a file and has each file open on the segment of its key, and which has
  -- the page: the table's metadata is in memory, the page is not behind its last one, and the folder and
  -- the segment are there. The storage engine then reads them as the page, and reads every other page
  -- as before. The frame keeps its bytes and its pins and is not dirty any more, and the latches of the
  -- pool and of the frame are free again.
  pub flush_page-Flushes :
      (works : Works v w) (p : BufferPoolManager v) (pgkey : PageKey) (id : ℕ)
      → IsReady p pgkey id
      → p.bpm_latch ≡ false
      → find pgkey p.frame_table ≡ some id
      → id < p.num_frames
      → (p.frames id).rwlatch ≡ readers 0
      → (p' : BufferPoolManager v) × (flush_page pgkey p ≡ done true p') × Flushes pgkey id p p'
  unfolding flush_page flush_frame write_back lock_write unlock_write
  flush_page-Flushes works p pgkey id ready free there inside latch =
      let (e', buffer, run, keeps) = write-Keeps works p pgkey id ready in
      let frame = p.frames id in
      let p1 : BufferPoolManager v = record p { bpm_latch = true } in
      let p2 = set_frame id (record frame { rwlatch = writer }) p1 in
      let p3 =
        set_frame id (record frame { rwlatch = writer; dirty = false })
          (record p2 { storage_engine = e' }) in
      let p4 =
        unlock_pool (set_frame id (record frame { rwlatch = readers 0; dirty = false }) p3) in
      (
        p4,
        ground (arith, free, there, inside, latch, run),
        (keeps, ground arith, ground arith, ground arith, ground (arith, latch), sym free, refl),
      )

  -- `flush` of a guard that writes: the same, with the frame's latch left as it is.
  pub flush-Flushes :
      (works : Works v w) (p : BufferPoolManager v) (guard : PageGuard)
      → guard.kind ≡ writing
      → IsReady p guard.pgkey guard.frame
      → (p' : BufferPoolManager v) × (flush guard p ≡ done tt p')
        × Flushes guard.pgkey guard.frame p p'
  unfolding flush write_back
  flush-Flushes works p guard writes ready =
      let (e', buffer, run, keeps) = write-Keeps works p guard.pgkey guard.frame ready in
      let frame = p.frames guard.frame in
      (
        set_frame guard.frame (record frame { dirty = false }) (record p { storage_engine = e' }),
        ground (arith, writes, run),
        (keeps, ground arith, ground arith, ground arith, ground arith, refl, refl),
      )
