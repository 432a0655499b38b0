-- ===== src/Storage/Engine/Tables/Created.antt =====
-- `create_table` makes a table of one page, which holds its metadata.
use native.Mathlib.Nat.{zero-mod}
use cpplite.Common.{
  ℕ, ◌*◌, ◌%◌, ◌^◌, ◌<◌, ◌≡◌, ◌≢◌, refl, sym, ap, subst, ◌∙◌, arith, true, false, some, take,
}
use cpplite.Common.Outcome.{done}
use cpplite.Encoding.{Bytes}
use cpplite.FileCache.{is_key}
use cpplite.Vfs.{VirtualFs, grow, patch}
use cpplite.Vfs.Laws.{View, Works, none-ne-some, inside-ne}
use cpplite.Vfs.Patch.{length-grown}
use cpplite.Storage.{pgno_to_rel_pgno, pgno_to_offset, pgno_to_file_offset}
use cpplite.Storage.Paths.{tbl_path}
use cpplite.Storage.Paths.RoundTrip.{path-Plain, file_name}
use cpplite.Storage.Engine.{
  StorageEngine, EngineConfig, TableMetadata, find_table, set_table, to_bytes,
}
use cpplite.Storage.Engine.Cached.{IsSmall, path_of, EngineValid}
use cpplite.Storage.Engine.Open.{HasPlace, open_segment-OpensSegment, Stays-trans}
use cpplite.Storage.Engine.Pages.Laid.{
  IsSized, seg_key, page_at, Laid, Laid-here, Laid-other, IsSmall-seg,
}
use cpplite.Storage.Engine.Pages.Stored.{HasPage}
use cpplite.Storage.Engine.Tables.{create_table, first_page}
use cpplite.Storage.Engine.Tables.Known.{find-set_table, find-set_table_other}

-- The metadata of a table that has only its first page.
abbrev pub one_page : TableMetadata
one_page = record { last_pgno = 0; total_pages = 1 }

offset_zero : (pages size : ℕ) → pgno_to_file_offset 0 pages size ≡ 0
unfolding pgno_to_file_offset pgno_to_rel_pgno pgno_to_offset
offset_zero pages size =
    let first : 0 % pages ≡ 0 = zero-mod pages in
    let none_before : 0 * size ≡ 0 = omega arith in rw (first, none_before) refl

path_inj : {a b : Bytes} → some a ≡ some b → a ≡ b
path_inj e = cc

module _ {v : VirtualFs} (w : View v) where
  abbrev pub Creates : ℕ → StorageEngine v → Type 0
  Creates tbl_id e =
      let key : ℕ × ℕ = (tbl_id, 0) in
      let size = e.config.page_size in
      (e' : StorageEngine v) × (create_table tbl_id e ≡ done tt e')
      × EngineValid w e'
      × (e'.config ≡ e.config)
      × HasPage w e' key
      × (find_table tbl_id e'.table_metadata ≡ some one_page)
      × ((other : ℕ)
          → other ≢ tbl_id
          → find_table other e'.table_metadata ≡ find_table other e.table_metadata)
      × (page_at w e' key ≡ take size (grow size (to_bytes one_page)))
      × ((other : ℕ × ℕ)
          → IsSmall other
          → is_key key other ≡ false
          → page_at w e' other ≡ page_at w e other)

  -- `create_table` of a table of 64 bits that has no folder makes its folder and its first segment, under
  -- these conditions: the disk does not fail, and its base folder is there; the cache of files is well
  -- formed and may hold a file, and each of its files is open on the segment of its key (which is not so
  -- after a `delete_table` of a table with files in the cache, so that a table that is deleted and made
  -- again is left out); a segment has a page at least, and fewer than 2 ^ 64 bytes; no folder stands in the
  -- place of the first segment. The table has one page, which can be read and written and holds the metadata that
  -- the engine has of it; the metadata of the other tables and every other page are what they were.
  pub create_table-Creates :
      (works : Works v w) (e : StorageEngine v) (tbl_id : ℕ)
      → EngineValid w e
      → IsSized e.config
      → tbl_id < 2 ^ 64
      → w.IsMounted e.fs
      → v.exists (tbl_path tbl_id) e.fs ≡ false
      → v.is_dir (path_of (seg_key e.config (tbl_id, 0))) e.fs ≡ false
      → Creates tbl_id e
  unfolding create_table first_page
  create_table-Creates works e tbl_id valid sized small mounted new plain =
      let pgkey : ℕ × ℕ = (tbl_id, 0) in
      let key = seg_key e.config pgkey in
      let (path, dir, name) = path-Plain key.0 key.1 in
      let (s, made, there, folder, still, keeps, same) =
        works.makes e.fs (tbl_path tbl_id) mounted new dir in
      let e1 = record e { fs = s } in
      let valid1 : EngineValid w e1 = record {
        cache = valid.cache;
        room = valid.room;
        opened = λ k a found.
            let (sk, q) = valid.opened k a found in
            (sk, keeps (e.filecache.node_at a).file (path_of k) q);
      } in
      let apart : some (tbl_path tbl_id) ≢ some (path_of key) =
        λ q. inside-ne (tbl_path tbl_id) (file_name key.1) (sym (path_inj q ∙ path)) in
      let place : HasPlace w s key = (folder, still.1 (path_of key) apart ∙ plain) in
      let (file, e2, run, valid2, o, still2, same2, config, tables) =
        open_segment-OpensSegment w works key e1 valid1
          (IsSmall-seg e.config pgkey (small, omega arith)) place in
      let buffer = to_bytes one_page in
      let bytes = take e.config.page_size (grow e.config.page_size buffer) in
      let whole = length-grown e.config.page_size buffer in
      let (s3, wrote, (still3, keeps3, here, others)) =
        works.writes e2.fs file (path_of key) (some buffer) e.config.page_size 0 o in
      let e3 : StorageEngine v = record e2 {
        fs = s3;
        table_metadata = set_table tbl_id one_page e2.table_metadata;
      } in
      let laid : Laid w pgkey bytes e e3 = (
        config,
        here
            ∙ ap (patch 0 bytes) (same2 (path_of key) ∙ same (path_of key))
            ∙ ap (λ n. patch n bytes (w.content e.fs (path_of key)))
                (sym (offset_zero e.config.segment_size e.config.page_size)),
        λ q d. others q d ∙ same2 q ∙ same q,
      ) in
      let all = Stays-trans w s e2.fs s3 still2 still3 in
      let seg : seg_key e3.config pgkey ≡ key = ap (λ (c : EngineConfig). seg_key c pgkey) config in
      (
        e3,
        ground (arith, new, made, run, wrote, config),
        record {
          cache = valid2.cache;
          room = valid2.room;
          opened = λ k a found.
              let (sk, q) = valid2.opened k a found in
              (sk, keeps3 (e2.filecache.node_at a).file (path_of k) q);
        },
        config,
        (
          (small, omega arith),
          (one_page, find-set_table tbl_id one_page e2.table_metadata, omega arith),
          subst (λ k. HasPlace w s3 k) (sym seg)
              (
                all.1 (tbl_path tbl_id) (none-ne-some (tbl_path tbl_id)) ∙ place.0,
                all.1 (path_of key) (none-ne-some (path_of key)) ∙ place.1,
              ),
          all.0 (tbl_path tbl_id) there,
          subst (λ k. v.exists (path_of k) s3 ≡ true) (sym seg)
              (works.named s3 file (path_of key) (keeps3 file (path_of key) o)),
        ),
        find-set_table tbl_id one_page e2.table_metadata,
        λ other d.
            find-set_table_other tbl_id other one_page e2.table_metadata d
            ∙ ap (find_table other) tables,
        Laid-here w e e3 pgkey bytes laid whole,
        λ other so d.
            Laid-other w e e3 pgkey bytes laid whole other sized (small, omega arith) so d,
      )
