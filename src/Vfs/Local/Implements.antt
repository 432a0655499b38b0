-- ===== src/Vfs/Local/Implements.antt =====
-- The local file system keeps what the interface promises, if the operating system's calls do what
-- they are documented to do.
use mathlib.Core.List.{append_assoc, tail-eq_of_cons-eq}
use Prim.Native.Nat.{bit_or}
use cpplite.Common.{
  ℕ, zero, suc, ◌≡◌, ◌≢◌, refl, sym, ap, subst, ◌∙◌, true, false, Option, none, some, [], ◌∷◌,
  length, take, drop, arith, replicate, length-replicate,
}
use cpplite.Common.Outcome.{done}
use cpplite.Common.Sorted.{has}
use cpplite.Encoding.{Bytes}
use cpplite.Vfs.Laws
use cpplite.Vfs.{o_creat, rdwr_creat, grow, patch}
use cpplite.Vfs.Laws.{
  View, written, buffer_after, inside, Works, Writes, Opens, Closes, Makes, none-ne-some, inside-ne,
}
use cpplite.Vfs.Patch.{length-grown}
use cpplite.Vfs.Local.{
  Posix, LocalFile, full, write_buffer, read, write, close, open_file, is_dir, exists, mkdir,
  local_fs,
}

pub record OsView (p : Posix) : Type 1 where
  pub IsOpen : p.Os → ℕ → Bytes → Type 0
  pub content : p.Os → Bytes → Bytes

module _ (p : Posix) (w : OsView p) where
  abbrev pub StaysBut : Option Bytes → p.Os → p.Os → Type 0
  StaysBut but s s' =
      ((q : Bytes) → p.exists q s ≡ true → p.exists q s' ≡ true)
      × ((q : Bytes) → but ≢ some q → p.is_directory q s' ≡ p.is_directory q s)

  abbrev pub Stays : p.Os → p.Os → Type 0
  Stays s s' = StaysBut none s s'

  abbrev pub KeepsOpen : p.Os → p.Os → Type 0
  KeepsOpen s s' = (n : ℕ) (q : Bytes) → w.IsOpen s n q → w.IsOpen s' n q

  abbrev pub SameContent : p.Os → p.Os → Type 0
  SameContent s s' = (q : Bytes) → w.content s' q ≡ w.content s q

  abbrev pub OsOpens : p.Os → Bytes → Type 0
  OsOpens s path =
      (n : ℕ) × (s' : p.Os) × (p.open_fd path rdwr_creat s ≡ (some n, s'))
      × w.IsOpen s' n path
      × (p.exists path s' ≡ true)
      × Stays s s'
      × KeepsOpen s s'
      × SameContent s s'

  abbrev pub OsMakes : p.Os → Bytes → Type 0
  OsMakes s path =
      (s' : p.Os) × (p.mkdir path s ≡ (true, s'))
      × (p.exists path s' ≡ true)
      × (p.is_directory path s' ≡ true)
      × StaysBut (some path) s s'
      × KeepsOpen s s'
      × SameContent s s'

  -- What the manual pages say of calls that meet no error. Paths are compared
  -- as strings: the laws are those of a system on which no two strings name one file, and say nothing of
  -- `d/x` and `d//x` as one path, of links, or of names that are relative to another folder. The engine
  -- spells each of its paths in one way.
  pub record Documented : Type 0 where
    pub named : (s : p.Os) (n : ℕ) (q : Bytes) → w.IsOpen s n q → p.exists q s ≡ true
    pub preads :
        (s : p.Os) (n : ℕ) (q : Bytes) (len offset : ℕ)
        → w.IsOpen s n q
        → p.pread (some n) len offset s ≡ some (take len (drop offset (w.content s q)))
    pub pwrites :
        (s : p.Os) (n : ℕ) (q bytes : Bytes) (offset : ℕ)
        → w.IsOpen s n q
        → (s' : p.Os) × (p.pwrite (some n) bytes offset s ≡ (some (length bytes), s'))
          × Stays s s'
          × KeepsOpen s s'
          × (w.content s' q ≡ patch offset bytes (w.content s q))
          × ((other : Bytes) → other ≢ q → w.content s' other ≡ w.content s other)
    pub opens :
        (s : p.Os) (dir name : Bytes)
        → p.is_directory dir s ≡ true
        → p.is_directory (inside dir name) s ≡ false
        → has b'/' name ≡ false
        → OsOpens s (inside dir name)
    pub closes :
        (s : p.Os) (n : ℕ) (q : Bytes)
        → w.IsOpen s n q
        → (s' : p.Os) × (p.close_fd (some n) s ≡ (true, s'))
          × Stays s s'
          × ((m : ℕ) (other : Bytes) → other ≢ q → w.IsOpen s m other → w.IsOpen s' m other)
          × SameContent s s'
    pub makes :
        (s : p.Os) (dir name : Bytes)
        → p.is_directory dir s ≡ true
        → p.exists (inside dir name) s ≡ false
        → has b'/' name ≡ false
        → OsMakes s (inside dir name)

  -- The local file system seen below its base folder.
  abbrev pub local_view : (basedir : Bytes) → View (local_fs p basedir)
  local_view basedir = record {
    IsOpen = λ s f q. (n : ℕ) × (f.fd ≡ some n) × w.IsOpen s n (full basedir q);
    content = λ s q. w.content s (full basedir q);
    IsMounted = λ s. p.is_directory basedir s ≡ true;
  }

take-replicate : (len : ℕ) → take len (replicate {A = ℕ} len 0) ≡ replicate len 0
take-replicate zero = refl
take-replicate (suc len) = ap (◌∷◌ 0) (take-replicate len)

full-inside :
    (basedir dir name : Bytes) → full basedir (inside dir name) ≡ inside (full basedir dir) name
full-inside basedir dir name = sym (append_assoc basedir (b'/' ∷ dir) (b'/' ∷ name))

full_inj : (basedir a b : Bytes) → full basedir a ≡ full basedir b → a ≡ b
full_inj [] a b e = tail-eq_of_cons-eq e
full_inj (x ∷ basedir) a b e = full_inj basedir a b (tail-eq_of_cons-eq e)

some_inj : (a b : Bytes) → some a ≡ some b → a ≡ b
some_inj a b e = cc

module _ (p : Posix) (w : OsView p) (documented : Documented p w) (basedir : Bytes) where
  stays :
      (s s' : p.Os) → Stays p w s s' → Laws.Stays (local_fs p basedir) (local_view p w basedir) s s'
  unfolding exists is_dir
  stays s s' k = (
    λ q. k.0 (full basedir q),
    λ q d. k.1 (full basedir q) (none-ne-some (full basedir q)),
    λ m. k.1 basedir (none-ne-some basedir) ∙ m,
  )

  keeps_open :
      (s s' : p.Os)
      → KeepsOpen p w s s'
      → Laws.KeepsOpen (local_fs p basedir) (local_view p w basedir) s s'
  keeps_open s s' k = λ f q (n, e, o). (n, e, k n (full basedir q) o)

  written_buffer :
      (s : p.Os) (f : LocalFile) (q buffer : Bytes) (len offset : ℕ)
      → (local_view p w basedir).IsOpen s f q
      → length (take len buffer) ≡ len
      → (s' : p.Os) × (write_buffer p f buffer len offset s ≡ done buffer s')
        × Writes (local_fs p basedir) (local_view p w basedir) s q offset (take len buffer) s'
  written_buffer s f q buffer len offset (n, e, o) l =
      let bytes = take len buffer in
      let (s', run, k, opened, here, others) =
        documented.pwrites s n (full basedir q) bytes offset o in
      (
        s',
        ground (arith, e, run, l),
        (
          stays s s' k,
          keeps_open s s' opened,
          here,
          λ other d. others (full basedir other) (λ same. d (full_inj basedir other q same)),
        ),
      )

  local-Writes :
      (s : p.Os) (f : LocalFile) (q : Bytes) (buffer : Option Bytes) (len offset : ℕ)
      → (local_view p w basedir).IsOpen s f q
      → (s' : p.Os) × (write p f buffer len offset s ≡ done (buffer_after len buffer) s')
        × Writes (local_fs p basedir) (local_view p w basedir) s q offset (written len buffer) s'
  unfolding write
  local-Writes s f q none len offset o =
      let whole : take len (replicate {A = ℕ} len 0) ≡ replicate len 0 = take-replicate len in
      let l : length (take len (replicate {A = ℕ} len 0)) ≡ len =
        ap (length {A = ℕ}) whole ∙ length-replicate len 0 in
      let (s', run, wrote) = written_buffer s f q (replicate len 0) len offset o l in
      (
        s',
        run,
        subst (λ bytes. Writes (local_fs p basedir) (local_view p w basedir) s q offset bytes s')
            whole wrote,
      )
  local-Writes s f q (some buffer) len offset o =
      written_buffer s f q (grow len buffer) len offset o (length-grown len buffer)

  local-Opens :
      (s : p.Os) (dir name : Bytes) (flags : ℕ)
      → is_dir p basedir dir s ≡ true
      → is_dir p basedir (inside dir name) s ≡ false
      → bit_or flags o_creat ≡ rdwr_creat
      → has b'/' name ≡ false
      → Opens (local_fs p basedir) (local_view p w basedir) s (inside dir name) flags
  unfolding is_dir open_file exists
  local-Opens s dir name flags there file creat plain =
      let (n, s', run, opened, new, k, keeps, same) =
        subst (OsOpens p w s) (sym (full-inside basedir dir name)) (
          documented.opens s (full basedir dir) name there
            (subst (λ (path : Bytes). p.is_directory path s ≡ false) (full-inside basedir dir name)
              file)
            plain) in
      (
        record { fd = some n },
        s',
        ground (arith, creat, run),
        (n, refl, opened),
        new,
        stays s s' k,
        keeps_open s s' keeps,
        λ q. same (full basedir q),
      )

  local-Closes :
      (s : p.Os) (f : LocalFile) (q : Bytes)
      → (local_view p w basedir).IsOpen s f q
      → Closes (local_fs p basedir) (local_view p w basedir) s f q
  unfolding close
  local-Closes s f q (n, e, o) =
      let (s', run, k, others, same) = documented.closes s n (full basedir q) o in
      (
        record { fd = none },
        s',
        rw (e, run) refl,
        stays s s' k,
        λ g other d (m, e', o').
            (m, e', others m (full basedir other) (λ p. d (full_inj basedir other q p)) o'),
        λ other. same (full basedir other),
      )

  local-Makes :
      (s : p.Os) (dir : Bytes)
      → p.is_directory basedir s ≡ true
      → exists p basedir dir s ≡ false
      → has b'/' dir ≡ false
      → Makes (local_fs p basedir) (local_view p w basedir) s dir
  unfolding mkdir exists is_dir
  local-Makes s dir base new plain =
      let (s', run, there, folder, k, keeps, same) =
        documented.makes s basedir dir base new plain in
      (
        s',
        rw run refl,
        there,
        folder,
        (
          λ q. k.0 (full basedir q),
          λ q d. k.1 (full basedir q) (λ same. d (
              ap some
                (full_inj basedir dir q (some_inj (full basedir dir) (full basedir q) same)))),
          λ m.
              k.1 basedir (λ same. inside-ne basedir dir (some_inj (full basedir dir) basedir same))
              ∙ m,
        ),
        keeps_open s s' keeps,
        λ q. same (full basedir q),
      )

  -- If the calls of the operating system do what they are documented to do, the local file system
  -- keeps every law of the interface, for the files below its base folder: it reads and writes where
  -- the path of an open file leads, fills a short or a null buffer with zeros, and opens, closes and
  -- makes what it is asked to, with nothing else changed.
  pub local_fs-Works : Works (local_fs p basedir) (local_view p w basedir)
  unfolding read exists
  local_fs-Works = record {
    named = λ s f q (n, e, o). documented.named s n (full basedir q) o;
    reads = λ s f q buffer len offset (n, e, o).
        ground (arith, e, documented.preads s n (full basedir q) len offset o);
    writes = local-Writes;
    opens = local-Opens;
    closes = local-Closes;
    makes = local-Makes;
  }
