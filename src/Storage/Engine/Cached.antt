-- ===== src/Storage/Engine/Cached.antt =====
-- The files in the cache of the storage engine are open on the segments of their keys, and stay so when
-- the cache closes one to make room.
use cpplite.Common.{
  ℕ, ◌<◌, ◌^◌, ◌≡◌, ◌≢◌, refl, sym, ap, subst, ◌∙◌, arith, Bool, true, false, none, some, List, [],
  ◌==◌, inl, inr, Bool-cases, if◌then◌else◌,
}
use cpplite.Common.Outcome.{done}
use cpplite.Common.Sorted.{has}
use cpplite.Encoding.{Bytes}
use cpplite.FileCache.{FileKey, is_key, find, store, FileCache, FileNode, tail, add, get}
use cpplite.FileCache.Chain.{find-store, find-erase, is_key_refl, is_key_eq, has-tail}
use cpplite.FileCache.Order.{IsValid}
use cpplite.FileCache.Put.{
  MakesRoom, without_tail, without_tail-IsValid, put-PutsNew, node_at-new, node_at-old,
}
use cpplite.Vfs.{VirtualFs}
use cpplite.Vfs.Laws.{View, Works, Stays, SameContent}
use cpplite.Storage.Paths.{seg_path}
use cpplite.Storage.Paths.RoundTrip.{seg_path_inj}
use cpplite.Storage.Engine.{StorageEngine, close_all, cache_file}

-- A table and a segment of 64 bits.
abbrev pub IsSmall : FileKey → Type 0
IsSmall key = (key.0 < 2 ^ 64) × (key.1 < 2 ^ 64)

abbrev pub path_of : FileKey → Bytes
path_of key = seg_path key.0 key.1

pub other_path :
    (a b : FileKey) → IsSmall a → IsSmall b → is_key a b ≡ false → path_of b ≢ path_of a
other_path a b sa sb d e =
    let (t, s) = seg_path_inj b.0 b.1 a.0 a.1 sb.0 sb.1 sa.0 sa.1 e in
    absurd (ground (arith, d, t, s))

find-new :
    (key : FileKey) (node : ℕ) (entries : List (FileKey × ℕ))
    → find key (store key node entries) ≡ some node
find-new key node entries = find-store key key node entries ∙ rw (is_key_refl key) refl

module _ {v : VirtualFs} (w : View v) where
  -- Each file of the cache is open on the segment of its key.
  abbrev pub CacheOpen : v.Fs → FileCache v.File → Type 0
  CacheOpen s c =
      (key : FileKey) (a : ℕ)
      → find key c.filecache ≡ some a
      → IsSmall key × w.IsOpen s (c.node_at a).file (path_of key)

  -- The cache is well formed and may hold a file, and each of its files is open on the segment of its
  -- key. It is not so if a segment is removed whose file is in the cache.
  pub record EngineValid (e : StorageEngine v) : Type 0 where
    pub cache : IsValid e.filecache
    pub room : 0 < e.filecache.max_size
    pub opened : CacheOpen e.fs e.filecache

  -- The effect of `close` on the file of the node that makes room.
  abbrev Closed : v.Fs → FileCache v.File → FileCache v.File → Type 0
  Closed s c room =
      (s' : v.Fs) × (close_all v room.closed s ≡ done tt s')
      × Stays v w s s'
      × SameContent v w s s'
      × CacheOpen s' room
      × ((file : v.File) (key : FileKey)
          → IsSmall key
          → find key c.filecache ≡ none
          → w.IsOpen s file (path_of key)
          → w.IsOpen s' file (path_of key))

  close_tail :
      (works : Works v w) (s : v.Fs) (c : FileCache v.File) (l : ℕ)
      → IsValid c
      → CacheOpen s c
      → c.closed ≡ []
      → has l c.chain ≡ true
      → Closed s c (without_tail c l)
  unfolding close_all
  close_tail works s c l valid opened none_closed there =
      let key = (c.node_at l).key in
      let (small, o) = opened key l (valid.mapped l there) in
      let (f', s', run, stays, others, same) = works.closes s (c.node_at l).file (path_of key) o in
      (
        s',
        rw none_closed (rw run refl),
        stays,
        same,
        λ k a e. elim (Bool-cases (is_key key k)) [
          | inl i ↦ absurd (ground (arith, e, find-erase key k c.filecache, i))
          | inr i ↦
              let (sk, ok) = opened k a (ground (arith, e, find-erase key k c.filecache, i)) in
              (sk, others (c.node_at a).file (path_of k) (other_path key k small sk i) ok)
        ],
        λ file k sk absent ok. elim (Bool-cases (is_key key k)) [
          | inl i ↦
              let q = is_key_eq key k i in
              absurd (ground (arith, absent, ap (λ x. find x c.filecache) q, valid.mapped l there))
          | inr i ↦ others file (path_of k) (other_path key k small sk i) ok
        ],
      )

  close_room :
      (works : Works v w) (s : v.Fs) (c room : FileCache v.File)
      → IsValid c
      → 0 < c.max_size
      → CacheOpen s c
      → c.closed ≡ []
      → MakesRoom c room
      → Closed s c room × IsValid room × (room.max_size ≡ c.max_size)
  unfolding close_all
  close_room works s c room valid some_room opened none_closed makes =
      elim (Bool-cases (c.size == c.max_size)) [
        | inl full ↦
            let (l, last, e) =
              subst
                (λ (b : Bool).
                  if b
                  then ((l : ℕ) × (tail c.chain ≡ some l) × (room ≡ without_tail c l))
                  else (room ≡ c))
                full makes in
            let there = has-tail l c.chain last in
            subst (λ (r : FileCache v.File). Closed s c r × IsValid r × (r.max_size ≡ c.max_size))
              (sym e)
              (
                close_tail works s c l valid opened none_closed there,
                without_tail-IsValid c l valid there,
                refl,
              )
        | inr free ↦
            let e : room ≡ c =
              subst
                (λ (b : Bool).
                  if b
                  then ((l : ℕ) × (tail c.chain ≡ some l) × (room ≡ without_tail c l))
                  else (room ≡ c))
                free makes in
            subst (λ (r : FileCache v.File). Closed s c r × IsValid r × (r.max_size ≡ c.max_size))
              (sym e)
              (
                (
                  s,
                  rw none_closed refl,
                  (λ q there. there, λ q d. refl, λ m. m),
                  λ q. refl,
                  opened,
                  λ file k small absent o. o,
                ),
                valid,
                refl,
              )
      ]

  CacheOpen-add :
      (s : v.Fs) (key : FileKey) (file : v.File) (c : FileCache v.File)
      → IsValid c
      → CacheOpen s c
      → IsSmall key
      → w.IsOpen s file (path_of key)
      → CacheOpen s (add key file c)
  CacheOpen-add s key file c valid opened small o = λ k a e.
      let new : FileNode v.File = record { key = key; file = file } in
      elim (Bool-cases (is_key key k)) [
        | inl i ↦
            let q : c.next_address ≡ a =
              ground (arith, e, i, find-store key k c.next_address c.filecache) in
            let same = is_key_eq key k i in
            subst (λ x. IsSmall x × w.IsOpen s ((add key file c).node_at a).file (path_of x)) same
              (
                small,
                subst (λ (f : v.File). w.IsOpen s f (path_of key))
                    (sym (
                      ap (λ (x : FileNode v.File). x.file)
                        (node_at-new a c.next_address new (c.node_at a) q)))
                    o,
              )
        | inr i ↦
            let old : find k c.filecache ≡ some a =
              ground (arith, e, i, find-store key k c.next_address c.filecache) in
            let (sk, ok) = opened k a old in
            (
              sk,
              subst (λ (f : v.File). w.IsOpen s f (path_of k))
                  (sym (
                    ap (λ (x : FileNode v.File). x.file)
                      (node_at-old a c.next_address new (c.node_at a)
                        (valid.fresh a (valid.linked k a old).0))))
                  ok,
            )
      ]

  pub CacheOpen-get :
      (s : v.Fs) (c c' : FileCache v.File)
      → ((key : FileKey) → find key c'.filecache ≡ find key c.filecache)
      → c'.node_at ≡ c.node_at
      → CacheOpen s c
      → CacheOpen s c'
  CacheOpen-get s c c' same nodes opened =
      λ key a e. let (small, o) = opened key a (sym (same key) ∙ e) in (small, rw nodes o)

  -- A file that is open on its segment goes into the cache, and what makes room is closed.
  abbrev pub Caches : FileKey → v.File → StorageEngine v → Type 0
  Caches key file e =
      (e' : StorageEngine v) × (cache_file key file e ≡ done tt e')
      × EngineValid e'
      × ((node : ℕ) × (find key e'.filecache.filecache ≡ some node))
      × ((get key e'.filecache).0 ≡ some file)
      × Stays v w e.fs e'.fs
      × SameContent v w e.fs e'.fs
      × w.IsOpen e'.fs file (path_of key)
      × (e'.config ≡ e.config)
      × (e'.table_metadata ≡ e.table_metadata)

  pub cache_file-Caches :
      (works : Works v w) (key : FileKey) (file : v.File) (e : StorageEngine v)
      → EngineValid e
      → IsSmall key
      → find key e.filecache.filecache ≡ none
      → w.IsOpen e.fs file (path_of key)
      → Caches key file e
  unfolding cache_file
  cache_file-Caches works key file e valid small absent o =
      let c = record e.filecache { closed = [] } in
      let valid_c : IsValid c = record {
        linked = valid.cache.linked;
        mapped = valid.cache.mapped;
        fresh = valid.cache.fresh;
        once = valid.cache.once;
        count = valid.cache.count;
        bound = valid.cache.bound;
      } in
      let (room, makes, run, valid', got, front) =
        put-PutsNew key file c valid_c absent valid.room in
      let ((s', closing, stays, same, opened, others), valid_room, sized) =
        close_room works e.fs c room valid_c valid.room valid.opened refl makes in
      let o' = others file key small absent o in
      (
        record e { fs = s'; filecache = add key file room },
        ground (arith, run, closing),
        record {
          cache = valid';
          room = omega (arith, valid.room, sized);
          opened = CacheOpen-add s' key file room valid_room opened small o';
        },
        (room.next_address, find-new key (room.next_address) room.filecache),
        got,
        stays,
        same,
        o',
        refl,
        refl,
      )
