-- ===== src/Storage/Engine/Pages/Allocated.antt =====
-- `allocate_page` adds a page of zeros to a table.
use cpplite.Common.{
  ℕ, ◌+◌, ◌%◌, ◌^◌, ◌<◌, ◌≡◌, ◌≢◌, sym, ap, subst, ◌∙◌, arith, true, false, none, some, [],
  replicate, length-replicate,
}
use cpplite.Common.Outcome.{done}
use cpplite.Encoding.{Bytes}
use cpplite.FileCache.{is_key}
use cpplite.Vfs.{VirtualFs, patch}
use cpplite.Vfs.Laws.{View, Works, none-ne-some}
use cpplite.Storage.{pgno_to_file_offset}
use cpplite.Storage.Paths.{tbl_path}
use cpplite.Storage.Engine.{StorageEngine, EngineConfig, TableMetadata, find_table, get_latest_page}
use cpplite.Storage.Engine.Cached.{IsSmall, path_of, EngineValid}
use cpplite.Storage.Engine.Open.{HasPlace, open_segment-OpensSegment, Stays-trans}
use cpplite.Storage.Engine.Pages.{read_page, add_page, allocate_page, metadata_or_new, bump}
use cpplite.Storage.Engine.Pages.Laid.{
  IsSized, seg_key, page_at, Laid, Laid-here, Laid-other, IsSmall-seg,
}
use cpplite.Storage.Engine.Pages.Stored.{HasPage, read_page-Reads}
use cpplite.Storage.Engine.Tables.Known.{find-set_table, find-set_table_other}

-- The metadata with one page more.
abbrev pub counted : TableMetadata → TableMetadata
counted m = record {
  last_pgno = (m.last_pgno + 1) % 2 ^ 64;
  total_pages = (m.total_pages + 1) % 2 ^ 64;
}

module _ {v : VirtualFs} (w : View v) where
  abbrev pub Allocates : ℕ → TableMetadata → StorageEngine v → Type 0
  Allocates tbl_id m e =
      let key : ℕ × ℕ = (tbl_id, m.last_pgno + 1) in
      (e' : StorageEngine v) × (allocate_page tbl_id e ≡ done key e')
      × EngineValid w e'
      × HasPage w e' key
      × (find_table tbl_id e'.table_metadata ≡ some (counted m))
      × ((other : ℕ)
          → other ≢ tbl_id
          → find_table other e'.table_metadata ≡ find_table other e.table_metadata)
      × ((e'' : StorageEngine v) × (read_page key [] e'
            ≡ done (replicate e.config.page_size 0) e''))
      × ((other : ℕ × ℕ)
          → IsSmall other
          → is_key key other ≡ false
          → page_at w e' other ≡ page_at w e other)

  -- `allocate_page` of a table of 64 bits whose metadata is known and whose folder is there returns the page
  -- behind the table's last one, also where it begins a new segment, under these conditions: the disk does
  -- not fail; the cache of files is well formed and may hold a file, and each of its files is open on the
  -- segment of its key (which is not so once `truncate_table` or `delete_table` has removed such a
  -- segment); a segment has a page at least, and fewer than 2 ^ 64 bytes; the new page's number is below
  -- 2 ^ 64, and no folder stands in the place of its segment. The page is counted, in this table alone; it can be read and written,
  -- and reads as zeros; every other page has the bytes it had.
  pub allocate_page-Allocates :
      (works : Works v w) (e : StorageEngine v) (tbl_id : ℕ) (m : TableMetadata)
      → EngineValid w e
      → IsSized e.config
      → find_table tbl_id e.table_metadata ≡ some m
      → tbl_id < 2 ^ 64
      → m.last_pgno + 1 < 2 ^ 64
      → HasPlace w e.fs (seg_key e.config (tbl_id, m.last_pgno + 1))
      → v.exists (tbl_path tbl_id) e.fs ≡ true
      → Allocates tbl_id m e
  unfolding allocate_page get_latest_page add_page
  allocate_page-Allocates works e tbl_id m valid sized known small below place folder =
      let pgkey : ℕ × ℕ = (tbl_id, m.last_pgno + 1) in
      let key = seg_key e.config pgkey in
      let (file, e1, run, valid1, o, stays, same, config, tables) =
        open_segment-OpensSegment w works key e valid (IsSmall-seg e.config pgkey (small, below))
          place in
      let offset = pgno_to_file_offset (m.last_pgno + 1) e.config.segment_size e.config.page_size in
      let (s, wrote, (stays', keeps, here, others)) =
        works.writes e1.fs file (path_of key) none e.config.page_size offset o in
      let e2 = bump tbl_id (record e1 { fs = s }) in
      let zeros = replicate {A = ℕ} e.config.page_size 0 in
      let whole = length-replicate {A = ℕ} e.config.page_size 0 in
      let laid : Laid w pgkey zeros e e2 =
        (config, here ∙ ap (patch offset zeros) (same (path_of key)), λ q d. others q d ∙ same q) in
      let known2 : find_table tbl_id e2.table_metadata ≡ some (counted m) =
        find-set_table tbl_id (counted (metadata_or_new tbl_id e1.table_metadata)) e1.table_metadata
        ∙ ap (λ (x : TableMetadata). some (counted x)) (ground (arith, tables, known)) in
      let valid2 : EngineValid w e2 = record {
        cache = valid1.cache;
        room = valid1.room;
        opened = λ k a found.
            let (sk, q) = valid1.opened k a found in
            (sk, keeps (e1.filecache.node_at a).file (path_of k) q);
      } in
      let there : HasPage w e2 pgkey =
        let still = Stays-trans w e.fs e1.fs s stays stays' in
        let seg : seg_key e2.config pgkey ≡ key =
          ap (λ (c : EngineConfig). seg_key c pgkey) config in
        (
          (small, below),
          (counted m, known2, omega (arith, below)),
          subst (λ k. HasPlace w s k) (sym seg)
              (
                still.1 (tbl_path tbl_id) (none-ne-some (tbl_path tbl_id)) ∙ place.0,
                still.1 (path_of key) (none-ne-some (path_of key)) ∙ place.1,
              ),
          still.0 (tbl_path tbl_id) folder,
          subst (λ k. v.exists (path_of k) s ≡ true) (sym seg)
              (works.named s file (path_of key) (keeps file (path_of key) o)),
        ) in
      let (e3, read, follows, more) = read_page-Reads w works pgkey e2 valid2 there in
      (
        e2,
        ground (arith, folder, known, run, wrote, config, known2, below),
        valid2,
        there,
        known2,
        λ other d.
            find-set_table_other tbl_id other _ e1.table_metadata d ∙ ap (find_table other) tables,
        (e3, read ∙ ap (λ (b : Bytes). done b e3) (Laid-here w e e2 pgkey zeros laid whole)),
        λ other so d. Laid-other w e e2 pgkey zeros laid whole other sized (small, below) so d,
      )
