-- ===== src/Storage/Engine/Pages/Stored.antt =====
-- The storage engine keeps pages: what `write_page` writes, `read_page` returns, and no other page
-- changes.
use cpplite.Common.{ℕ, ◌≤◌, ◌≡◌, sym, ap, subst, ◌∙◌, arith, true, false, some, [], take}
use cpplite.Common.Outcome.{done, ok}
use cpplite.Encoding.{Bytes}
use cpplite.FileCache.{is_key}
use cpplite.Vfs.{VirtualFs, grow, patch}
use cpplite.Vfs.Laws.{View, Works, Stays, SameContent, none-ne-some}
use cpplite.Vfs.Patch.{page, read-page, length-grown}
use cpplite.Storage.{pgno_to_file_offset}
use cpplite.Storage.Paths.{tbl_path}
use cpplite.Storage.Engine.{
  StorageEngine, EngineConfig, TableMetadata, find_table, get_segment, get_latest_page,
}
use cpplite.Storage.Engine.Cached.{IsSmall, path_of, EngineValid}
use cpplite.Storage.Engine.Open.{HasPlace, open_segment-OpensSegment, Stays-trans}
use cpplite.Storage.Engine.Pages.{locate, read_page, write_page}
use cpplite.Storage.Engine.Pages.Laid.{
  IsSized, seg_key, IsSmall-seg, page_at, Laid, Laid-here, Laid-other,
}

module _ {v : VirtualFs} (w : View v) where
  -- The table's metadata is known and has the page, and its segment is there.
  abbrev pub HasPage : StorageEngine v → ℕ × ℕ → Type 0
  HasPage e pgkey =
      IsSmall pgkey
      × ((m : TableMetadata) × (find_table pgkey.0 e.table_metadata ≡ some m)
          × (pgkey.1 ≤ m.last_pgno))
      × HasPlace w e.fs (seg_key e.config pgkey)
      × (v.exists (tbl_path pgkey.0) e.fs ≡ true)
      × (v.exists (path_of (seg_key e.config pgkey)) e.fs ≡ true)

  -- Nothing is lost from one engine to the next.
  abbrev pub Follows : StorageEngine v → StorageEngine v → Type 0
  Follows e e' =
      EngineValid w e'
      × Stays v w e.fs e'.fs
      × (e'.config ≡ e.config)
      × (e'.table_metadata ≡ e.table_metadata)

  pub HasPage-Follows :
      (e e' : StorageEngine v) (pgkey : ℕ × ℕ) → Follows e e' → HasPage e pgkey → HasPage e' pgkey
  HasPage-Follows e e' pgkey (valid, stays, config, tables)
        (small, (m, known, last), place, folder, there) =
      let same : seg_key e'.config pgkey ≡ seg_key e.config pgkey =
        ap (λ (c : EngineConfig). seg_key c pgkey) config in
      (
        small,
        (m, rw tables known, last),
        subst (λ key. HasPlace w e'.fs key) (sym same)
            (
              stays.1 (tbl_path pgkey.0) (none-ne-some (tbl_path pgkey.0)) ∙ place.0,
              stays.1 (path_of (seg_key e.config pgkey))
                    (none-ne-some (path_of (seg_key e.config pgkey)))
                  ∙ place.1,
            ),
        stays.0 (tbl_path pgkey.0) folder,
        subst (λ key. v.exists (path_of key) e'.fs ≡ true) (sym same)
            (stays.0 (path_of (seg_key e.config pgkey)) there),
      )

  -- The file of a page and its place.
  abbrev Locates : ℕ × ℕ → StorageEngine v → Type 0
  Locates pgkey e =
      (file : v.File) × (e' : StorageEngine v) × (locate pgkey e
        ≡ done (file, pgno_to_file_offset pgkey.1 e.config.segment_size e.config.page_size) e')
      × Follows e e'
      × w.IsOpen e'.fs file (path_of (seg_key e.config pgkey))
      × SameContent v w e.fs e'.fs

  locate-Locates :
      (works : Works v w) (pgkey : ℕ × ℕ) (e : StorageEngine v)
      → EngineValid w e
      → HasPage e pgkey
      → Locates pgkey e
  unfolding get_latest_page get_segment
  locate-Locates works pgkey e valid (small, (m, known, last), place, folder, there) =
      let key = seg_key e.config pgkey in
      let (file, e', run, valid', o, stays, same, config, tables) =
        open_segment-OpensSegment w works key e valid (IsSmall-seg e.config pgkey small) place in
      (
        file,
        e',
        ground (arith, known, last, folder, there, run, config),
        (valid', stays, config, tables),
        o,
        same,
      )

  -- `read_page` of a page that is there returns its bytes in an empty buffer, and the disk has the
  -- same bytes afterwards.
  abbrev pub Reads : ℕ × ℕ → StorageEngine v → Type 0
  Reads pgkey e =
      (e' : StorageEngine v) × (read_page pgkey [] e ≡ done (page_at w e pgkey) e')
      × Follows e e'
      × SameContent v w e.fs e'.fs

  pub read_page-Reads :
      (works : Works v w) (pgkey : ℕ × ℕ) (e : StorageEngine v)
      → EngineValid w e
      → HasPage e pgkey
      → Reads pgkey e
  unfolding read_page
  read_page-Reads works pgkey e valid there =
      let (file, e', run, follows, o, same) = locate-Locates works pgkey e valid there in
      let offset = pgno_to_file_offset pgkey.1 e.config.segment_size e.config.page_size in
      let path = path_of (seg_key e.config pgkey) in
      let size : e'.config.page_size ≡ e.config.page_size =
        ap (λ (c : EngineConfig). c.page_size) follows.2 in
      let value =
        works.reads e'.fs file path [] e.config.page_size offset o
        ∙ ap ok (
            read-page e.config.page_size offset (w.content e'.fs path)
            ∙ ap (page e.config.page_size offset) (same path)) in
      (e', ground (arith, run, size, value), follows, same)

  -- `write_page` of a page that is there.
  abbrev Wrote : ℕ × ℕ → Bytes → StorageEngine v → StorageEngine v → Type 0
  Wrote pgkey buffer e e' =
      (write_page pgkey buffer e ≡ done (grow e.config.page_size buffer) e')
      × Follows e e'
      × Laid w pgkey (take e.config.page_size (grow e.config.page_size buffer)) e e'

  write_page-Wrote :
      (works : Works v w) (pgkey : ℕ × ℕ) (buffer : Bytes) (e : StorageEngine v)
      → EngineValid w e
      → HasPage e pgkey
      → (e' : StorageEngine v) × Wrote pgkey buffer e e'
  unfolding write_page
  write_page-Wrote works pgkey buffer e valid there =
      let (file, e1, run, (valid1, stays, config, tables), o, same) =
        locate-Locates works pgkey e valid there in
      let offset = pgno_to_file_offset pgkey.1 e.config.segment_size e.config.page_size in
      let path = path_of (seg_key e.config pgkey) in
      let size : e1.config.page_size ≡ e.config.page_size =
        ap (λ (c : EngineConfig). c.page_size) config in
      let (s, wrote, (stays', keeps, here, others)) =
        works.writes e1.fs file path (some buffer) e.config.page_size offset o in
      (
        record e1 { fs = s },
        (
          ground (arith, run, size, wrote),
          (
            record {
              cache = valid1.cache;
              room = valid1.room;
              opened = λ key a found.
                  let (small, q) = valid1.opened key a found in
                  (small, keeps (e1.filecache.node_at a).file (path_of key) q);
            },
            Stays-trans w e.fs e1.fs s stays stays',
            config,
            tables,
          ),
          (
            config,
            here
                ∙ ap (patch offset (take e.config.page_size (grow e.config.page_size buffer)))
                    (same path),
            λ q d. others q d ∙ same q,
          ),
        ),
      )

  -- `write_page` of a page that is there, and the pages afterwards.
  abbrev pub Stores : ℕ × ℕ → Bytes → StorageEngine v → Type 0
  Stores pgkey buffer e =
      let size = e.config.page_size in
      (e' : StorageEngine v) × (write_page pgkey buffer e ≡ done (grow size buffer) e')
      × EngineValid w e'
      × ((e'' : StorageEngine v) × (read_page pgkey [] e'
            ≡ done (take size (grow size buffer)) e''))
      × ((other : ℕ × ℕ)
          → IsSmall other
          → is_key pgkey other ≡ false
          → page_at w e' other ≡ page_at w e other)

  -- On a disk that does not fail, with a cache of files that is well formed, may hold a file, and has each
  -- file open on the segment of its key, and with a page at least and fewer than 2 ^ 64 bytes in a segment,
  -- `write_page` of a page that its table has, in a segment that is there, succeeds, fills the buffer
  -- with zeros to the size of a page, and leaves the cache of files in agreement with what is open;
  -- `read_page` then returns the first bytes of the buffer, as many as a page has, and every other page,
  -- of this table or another one, has the bytes it had.
  pub write_page-Stores :
      (works : Works v w) (pgkey : ℕ × ℕ) (buffer : Bytes) (e : StorageEngine v)
      → EngineValid w e
      → IsSized e.config
      → HasPage e pgkey
      → Stores pgkey buffer e
  write_page-Stores works pgkey buffer e valid sized there =
      let (e1, (run, follows, laid)) = write_page-Wrote works pgkey buffer e valid there in
      let bytes = take e.config.page_size (grow e.config.page_size buffer) in
      let whole = length-grown e.config.page_size buffer in
      let (e2, read, follows2, same2) =
        read_page-Reads works pgkey e1 follows.0 (HasPage-Follows e e1 pgkey follows there) in
      (
        e1,
        run,
        follows.0,
        (e2, read ∙ ap (λ (b : Bytes). done b e2) (Laid-here w e e1 pgkey bytes laid whole)),
        λ other small d. Laid-other w e e1 pgkey bytes laid whole other sized there.0 small d,
      )
