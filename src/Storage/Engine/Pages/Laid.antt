-- ===== src/Storage/Engine/Pages/Laid.antt =====
-- A page of the disk under bytes that are laid over it, and the other pages.
use native.Mathlib.Nat.{div-le_self}
use cpplite.Common.{
  ℕ, ◌+◌, ◌*◌, ◌≤◌, ◌<◌, ◌^◌, ◌≡◌, ◌≢◌, sym, ap, ◌∙◌, arith, false, length, inl, inr, Bool-cases,
  ◌⊎◌,
}
use cpplite.Encoding.{Bytes}
use cpplite.FileCache.{is_key}
use cpplite.FileCache.Chain.{is_key_eq}
use cpplite.Vfs.{VirtualFs, patch}
use cpplite.Vfs.Laws.{View}
use cpplite.Vfs.Patch.{page, page-patch, page-apart}
use cpplite.Storage.{pgno_to_segid, pgno_to_file_offset}
use cpplite.Storage.Offsets.{pgno_to_file_offset-Apart}
use cpplite.Storage.Engine.{StorageEngine, EngineConfig}
use cpplite.Storage.Engine.Cached.{IsSmall, path_of, other_path}

-- A segment has a page, and its bytes fit 64 bits.
abbrev pub IsSized : EngineConfig → Type 0
IsSized config = (0 < config.segment_size) × (config.segment_size * config.page_size < 2 ^ 64)

-- The segment of a page.
abbrev pub seg_key : EngineConfig → ℕ × ℕ → ℕ × ℕ
seg_key config (tbl_id, pgno) = (tbl_id, pgno_to_segid pgno config.segment_size)

pub IsSmall-seg :
    (config : EngineConfig) (pgkey : ℕ × ℕ) → IsSmall pgkey → IsSmall (seg_key config pgkey)
unfolding pgno_to_segid
IsSmall-seg config pgkey small =
    (small.0, omega (arith, small.1, div-le_self pgkey.1 config.segment_size))

module _ {v : VirtualFs} (w : View v) where
  -- The bytes of a page on the disk.
  abbrev pub page_at : StorageEngine v → ℕ × ℕ → Bytes
  page_at e pgkey =
      page e.config.page_size (pgno_to_file_offset pgkey.1 e.config.segment_size e.config.page_size)
        (w.content e.fs (path_of (seg_key e.config pgkey)))

  -- The disk with bytes laid over a page.
  abbrev pub Laid : ℕ × ℕ → Bytes → StorageEngine v → StorageEngine v → Type 0
  Laid pgkey bytes e e' =
      (e'.config ≡ e.config)
      × (w.content e'.fs (path_of (seg_key e.config pgkey))
          ≡ patch (pgno_to_file_offset pgkey.1 e.config.segment_size e.config.page_size) bytes
              (w.content e.fs (path_of (seg_key e.config pgkey))))
      × ((q : Bytes) → q ≢ path_of (seg_key e.config pgkey) → w.content e'.fs q ≡ w.content e.fs q)

  module _ (e e' : StorageEngine v) (pgkey : ℕ × ℕ) (bytes : Bytes) (laid : Laid pgkey bytes e e')
      (whole : length bytes ≡ e.config.page_size) where
    abbrev place : ℕ × ℕ → ℕ
    place key = pgno_to_file_offset key.1 e.config.segment_size e.config.page_size

    pub Laid-here : page_at e' pgkey ≡ bytes
    Laid-here =
        ap
          (λ (c : EngineConfig).
            page c.page_size (pgno_to_file_offset pgkey.1 c.segment_size c.page_size)
              (w.content e'.fs (path_of (seg_key c pgkey))))
          laid.0
        ∙ ap (page e.config.page_size (place pgkey)) laid.1
        ∙ ap
            (λ n.
              page n (place pgkey)
                (patch (place pgkey) bytes (w.content e.fs (path_of (seg_key e.config pgkey)))))
            (sym whole)
        ∙ page-patch (place pgkey) bytes (w.content e.fs (path_of (seg_key e.config pgkey)))

    same_segment :
        (other : ℕ × ℕ)
        → IsSized e.config
        → other.1 ≢ pgkey.1
        → seg_key e.config other ≡ seg_key e.config pgkey
        → page e.config.page_size (place other) (w.content e'.fs (path_of (seg_key e.config other)))
          ≡ page e.config.page_size
              (place other)
              (w.content e.fs (path_of (seg_key e.config other)))
    same_segment other sized d q =
        let (end, apart) =
          pgno_to_file_offset-Apart e.config.segment_size e.config.page_size sized.0 sized.1 pgkey.1
            other.1 (λ r. d (sym r)) in
        let beside : (place pgkey + length bytes ≤ place other)
            ⊎ (place other + e.config.page_size ≤ place pgkey) =
          elim apart [
            | inl r ↦ absurd (r (sym (ap (λ (x : ℕ × ℕ). x.1) q)))
            | inr r ↦ rw whole r
          ] in
        let path : path_of (seg_key e.config other) ≡ path_of (seg_key e.config pgkey) =
          ap path_of q in
        rw path (
          ap (page e.config.page_size (place other)) laid.1
          ∙ page-apart e.config.page_size (place pgkey) (place other) bytes
              (w.content e.fs (path_of (seg_key e.config pgkey))) beside)

    pub Laid-other :
        (other : ℕ × ℕ)
        → IsSized e.config
        → IsSmall pgkey
        → IsSmall other
        → is_key pgkey other ≡ false
        → page_at e' other ≡ page_at e other
    Laid-other other sized small small' d =
        ap
          (λ (c : EngineConfig).
            page c.page_size (pgno_to_file_offset other.1 c.segment_size c.page_size)
              (w.content e'.fs (path_of (seg_key c other))))
          laid.0
        ∙ elim (Bool-cases (is_key (seg_key e.config pgkey) (seg_key e.config other))) [
          | inl i ↦
              let q = is_key_eq (seg_key e.config pgkey) (seg_key e.config other) i in
              same_segment other sized
                (λ r. absurd (ground (arith, d, r, ap (λ (x : ℕ × ℕ). x.0) q))) (sym q)
          | inr i ↦
              let path =
                other_path (seg_key e.config pgkey) (seg_key e.config other)
                  (IsSmall-seg e.config pgkey small) (IsSmall-seg e.config other small') i in
              ap (page e.config.page_size (place other))
                (laid.2 (path_of (seg_key e.config other)) path)
        ]
