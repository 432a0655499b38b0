-- ===== src/Storage/Engine/Pages/Refused.antt =====
-- Pages that the storage engine refuses to read and write, and a table whose metadata it fails to load.
use native.Mathlib.Nat.{div-le_self}
use cpplite.Common.{
  drop, inl, inr, Bool-cases, ℕ, ◌^◌, ◌<◌, ◌≡◌, ap, ◌∙◌, arith, none, some, [], length,
}
use cpplite.Common.Outcome.{Outcome, thrown, ok, assertion, past_last_page}
use cpplite.Encoding.{Bytes, read_uint64, read_be}
use cpplite.Vfs.{VirtualFs}
use cpplite.Vfs.Laws.{View, Works}
use cpplite.Vfs.Patch.{page, read-page, length-take_or}
use cpplite.Storage.{pgno_to_segid}
use cpplite.Storage.Paths.{tbl_path}
use cpplite.Storage.Engine.{
  StorageEngine, EngineConfig, TableMetadata, find_table, of_bytes, load_metadata, get_latest_page,
}
use cpplite.Storage.Engine.Cached.{path_of, EngineValid}
use cpplite.Storage.Engine.Open.{HasPlace, open_segment-OpensSegment}
use cpplite.Storage.Engine.Pages.{read_page, write_page, allocate_page}

-- A page past the last one of its table, whose metadata is known, is neither read nor written, and
-- the engine stays as it is.
pub past_last :
    {v : VirtualFs} (e : StorageEngine v) (tbl_id pgno : ℕ) (buffer : Bytes) (m : TableMetadata)
    → find_table tbl_id e.table_metadata ≡ some m
    → m.last_pgno < pgno
    → (read_page (tbl_id, pgno) buffer e ≡ thrown past_last_page e)
      × (write_page (tbl_id, pgno) buffer e ≡ thrown past_last_page e)
unfolding read_page write_page get_latest_page
past_last e tbl_id pgno buffer m known past =
    (ground (arith, known, past), ground (arith, known, past))

of_bytes-offset :
    (buffer : Bytes) → 16 < length buffer → (m : TableMetadata) × (of_bytes buffer 0 ≡ ok (m, 16))
unfolding of_bytes read_uint64
of_bytes-offset buffer long = (
  record { last_pgno = read_be 8 buffer 0 0; total_pages = read_be 8 buffer 8 0 },
  ground (arith, long),
)

length-page : (size offset : ℕ) (content : Bytes) → length (page size offset content) ≡ size
length-page size offset content = length-take_or size (drop offset content)

module _ {v : VirtualFs} (w : View v) where
  -- The segment that holds the table's metadata.
  abbrev pub metadata_key : StorageEngine v → ℕ → ℕ × ℕ
  metadata_key e tbl_id = (tbl_id, pgno_to_segid 0 e.config.segment_size)

  abbrev pub Fails : {A : Type 0} → Outcome (StorageEngine v) A → Type 0
  Fails outcome = (e' : StorageEngine v) × (outcome ≡ thrown assertion e')

  latest_page-Fails :
      (works : Works v w) (e : StorageEngine v) (tbl_id : ℕ)
      → EngineValid w e
      → tbl_id < 2 ^ 64
      → HasPlace w e.fs (metadata_key e tbl_id)
      → find_table tbl_id e.table_metadata ≡ none
      → 16 < e.config.page_size
      → Fails (get_latest_page tbl_id e)
  unfolding get_latest_page load_metadata pgno_to_segid
  latest_page-Fails works e tbl_id valid small place unknown long =
      let key = metadata_key e tbl_id in
      let (file, e', run, valid', o, stays, same, config, tables) =
        open_segment-OpensSegment w works key e valid
          (small, omega (arith, div-le_self 0 e.config.segment_size)) place in
      let size : e'.config.page_size ≡ e.config.page_size =
        ap (λ (c : EngineConfig). c.page_size) config in
      let bytes = page e.config.page_size 0 (w.content e'.fs (path_of key)) in
      let value =
        works.reads e'.fs file (path_of key) [] e.config.page_size 0 o
        ∙ ap ok (read-page e.config.page_size 0 (w.content e'.fs (path_of key))) in
      let l : length bytes ≡ e.config.page_size =
        length-page e.config.page_size 0 (w.content e'.fs (path_of key)) in
      let (m, decoded) = of_bytes-offset bytes (omega (arith, l, long)) in
      (e', ground (arith, unknown, run, size, value, decoded, l, long))

  -- A table whose metadata is not in memory: with pages of more than 16 bytes, on a disk that does not
  -- fail, the metadata is not loaded whatever the first page holds, since the assertion compares the 16
  -- bytes it takes with the bytes of a whole page; so `read_page`, `write_page` and `allocate_page` of
  -- every page of the table fail.
  pub metadata_unloaded :
      (works : Works v w) (e : StorageEngine v) (tbl_id pgno : ℕ) (buffer : Bytes)
      → EngineValid w e
      → tbl_id < 2 ^ 64
      → HasPlace w e.fs (metadata_key e tbl_id)
      → find_table tbl_id e.table_metadata ≡ none
      → 16 < e.config.page_size
      → Fails (read_page (tbl_id, pgno) buffer e)
        × Fails (write_page (tbl_id, pgno) buffer e)
        × Fails (allocate_page tbl_id e)
  unfolding read_page write_page allocate_page
  metadata_unloaded works e tbl_id pgno buffer valid small place unknown long =
      let (e', fails) = latest_page-Fails works e tbl_id valid small place unknown long in
      (
        (e', ground (arith, fails)),
        (e', ground (arith, fails)),
        elim (Bool-cases (v.exists (tbl_path tbl_id) e.fs)) [
          | inl there ↦ (e', ground (arith, there, fails))
          | inr gone ↦ (e, ground (arith, gone))
        ],
      )
