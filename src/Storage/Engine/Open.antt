-- ===== src/Storage/Engine/Open.antt =====
-- `open_segment` opens the file of a segment, and keeps what the cache says of the files.
use Prim.Native.Nat.{bit_or}
use cpplite.Common.{ℕ, ◌≡◌, refl, sym, subst, ◌∙◌, arith, true, false, none, some, inl, inr}
use cpplite.Common.Outcome.{done}
use cpplite.Encoding.{Bytes}
use cpplite.FileCache
use cpplite.FileCache.{
  FileKey, is_key, find, erase, store, FileCache, FileNode, tail, add, put, get,
}
use cpplite.FileCache.Chain.{Option-cases}
use cpplite.FileCache.Order.{get-Gets}
use cpplite.Vfs.{VirtualFs, o_rdwr, o_creat}
use cpplite.Vfs.Laws.{View, Works, Stays, SameContent, Opens}
use cpplite.Storage.Paths.{tbl_path}
use cpplite.Storage.Paths.RoundTrip.{file_name, path-Plain}
use cpplite.Storage.Engine.{StorageEngine, open_segment}
use cpplite.Storage.Engine.Cached.{IsSmall, path_of, EngineValid, CacheOpen-get, cache_file-Caches}

module _ {v : VirtualFs} (w : View v) where
  pub Stays-trans : (s s' s'' : v.Fs) → Stays v w s s' → Stays v w s' s'' → Stays v w s s''
  Stays-trans s s' s'' a b = (λ q t. b.0 q (a.0 q t), λ q d. b.1 q d ∙ a.1 q d, λ m. b.2 (a.2 m))

  -- What `open_segment` leaves behind.
  abbrev pub OpensSegment : FileKey → StorageEngine v → Type 0
  OpensSegment key e =
      (file : v.File) × (e' : StorageEngine v) × (open_segment key.0 key.1 e ≡ done (some file) e')
      × EngineValid w e'
      × w.IsOpen e'.fs file (path_of key)
      × Stays v w e.fs e'.fs
      × SameContent v w e.fs e'.fs
      × (e'.config ≡ e.config)
      × (e'.table_metadata ≡ e.table_metadata)

  get_file-EngineValid :
      (key : FileKey) (node : ℕ) (e : StorageEngine v)
      → EngineValid w e
      → find key e.filecache.filecache ≡ some node
      → (c' : FileCache v.File) × (get key e.filecache ≡ (some (e.filecache.node_at node).file, c'))
        × EngineValid w (record e { filecache = c' })
        × w.IsOpen e.fs (e.filecache.node_at node).file (path_of key)
  get_file-EngineValid key node e valid there =
      let (c', run, valid', chain, same, nodes, sized, closed) =
        get-Gets key e.filecache node valid.cache there in
      (
        c',
        run,
        record {
          cache = valid';
          room = omega (arith, valid.room, sized);
          opened = CacheOpen-get w e.fs e.filecache c' same nodes valid.opened;
        },
        (valid.opened key node there).1,
      )

  -- The table's folder is there, and no folder stands in the place of the segment.
  abbrev pub HasPlace : v.Fs → FileKey → Type 0
  HasPlace s key = (v.is_dir (tbl_path key.0) s ≡ true) × (v.is_dir (path_of key) s ≡ false)

  path-Opens :
      (works : Works v w) (s : v.Fs) (key : FileKey)
      → HasPlace s key
      → Opens v w s (path_of key) (bit_or o_rdwr o_creat)
  path-Opens works s key (folder, plain) =
      let (e, dir, name) = path-Plain key.0 key.1 in
      subst (λ (path : Bytes). Opens v w s path (bit_or o_rdwr o_creat)) (sym e)
        (works.opens s (tbl_path key.0) (file_name key.1) (bit_or o_rdwr o_creat) folder
          (subst (λ (path : Bytes). v.is_dir path s ≡ false) e plain) refl name)

  opens_new :
      (works : Works v w) (key : FileKey) (e : StorageEngine v)
      → EngineValid w e
      → IsSmall key
      → HasPlace e.fs key
      → find key e.filecache.filecache ≡ none
      → OpensSegment key e
  unfolding open_segment FileCache.exists
  opens_new works key e valid small place absent =
      let (file, s, run, o, there, stays, keeps, same) = path-Opens works e.fs key place in
      let e1 = record e { fs = s } in
      let valid1 : EngineValid w e1 = record {
        cache = valid.cache;
        room = valid.room;
        opened = λ k a q.
            let (sk, ok) = valid.opened k a q in
            (sk, keeps (e.filecache.node_at a).file (path_of k) ok);
      } in
      let (e2, run2, valid2, (node, found), got, stays2, same2, o2, config, tables) =
        cache_file-Caches w works key file e1 valid1 small absent o in
      let (c3, run3, valid3, o3) = get_file-EngineValid key node e2 valid2 found in
      (
        file,
        record e2 { filecache = c3 },
        ground (arith, absent, run, run2, run3, got),
        valid3,
        o2,
        Stays-trans e.fs s e2.fs stays stays2,
        λ q. same2 q ∙ same q,
        config,
        tables,
      )

  -- A segment of a table whose folder is there opens, from the cache or on the disk.
  pub open_segment-OpensSegment :
      (works : Works v w) (key : FileKey) (e : StorageEngine v)
      → EngineValid w e
      → IsSmall key
      → HasPlace e.fs key
      → OpensSegment key e
  unfolding open_segment FileCache.exists
  open_segment-OpensSegment works key e valid small place =
      elim (Option-cases (find key e.filecache.filecache)) [
        | inl absent ↦ opens_new works key e valid small place absent
        | inr (node, there) ↦
            let (c', run, valid', o) = get_file-EngineValid key node e valid there in
            (
              (e.filecache.node_at node).file,
              record e { filecache = c' },
              ground (arith, there, run),
              valid',
              o,
              (λ q there. there, λ q d. refl, λ m. m),
              λ q. refl,
              refl,
              refl,
            )
      ]
