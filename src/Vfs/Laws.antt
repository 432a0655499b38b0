-- ===== src/Vfs/Laws.antt =====
-- What a client of the virtual file system may rely on, for files and folders that are there and a
-- device that does not fail: an interface that the local file system fills.
use Prim.Native.Nat.{bit_or}
use cpplite.Common.{
  ℕ, ◌≡◌, ◌≢◌, ap, arith, length-append, true, false, Option, none, some, ◌∷◌, ◌++◌, length, take,
  drop, replicate,
}
use cpplite.Common.Outcome.{done, ok}
use cpplite.Common.Sorted.{has}
use cpplite.Encoding.{Bytes}
use cpplite.Vfs.{VirtualFs, o_creat, rdwr_creat, grow, patch}

-- What the state of the files means: which file is open on which path, the bytes at a path, and that
-- the base folder is there.
pub record View (v : VirtualFs) : Type 1 where
  pub IsOpen : v.Fs → v.File → Bytes → Type 0
  pub content : v.Fs → Bytes → Bytes
  pub IsMounted : v.Fs → Type 0

-- The bytes that `write` lays over the file.
abbrev pub written : ℕ → Option Bytes → Bytes
written len none = replicate len 0
written len (some buffer) = take len (grow len buffer)

-- What `write` leaves in its buffer.
abbrev pub buffer_after : ℕ → Option Bytes → Bytes
buffer_after len none = replicate len 0
buffer_after len (some buffer) = grow len buffer

-- The path of a name in a folder.
abbrev pub inside : Bytes → Bytes → Bytes
inside dir name = dir ++ (b'/' ∷ name)

pub inside-ne : (dir name : Bytes) → inside dir name ≢ dir
inside-ne dir name e =
    let l : length (inside dir name) ≡ length dir = ap (length {A = ℕ}) e in
    absurd (omega (arith, l, length-append dir (b'/' ∷ name)))

pub none-ne-some : (path : Bytes) → none ≢ some path
none-ne-some path e = cc

module _ (v : VirtualFs) (w : View v) where
  -- Nothing that is there goes away, and the folders are the same, `but` one.
  abbrev pub StaysBut : Option Bytes → v.Fs → v.Fs → Type 0
  StaysBut but s s' =
      ((q : Bytes) → v.exists q s ≡ true → v.exists q s' ≡ true)
      × ((q : Bytes) → but ≢ some q → v.is_dir q s' ≡ v.is_dir q s)
      × (w.IsMounted s → w.IsMounted s')

  abbrev pub Stays : v.Fs → v.Fs → Type 0
  Stays s s' = StaysBut none s s'

  abbrev pub KeepsOpen : v.Fs → v.Fs → Type 0
  KeepsOpen s s' = (f : v.File) (q : Bytes) → w.IsOpen s f q → w.IsOpen s' f q

  abbrev pub SameContent : v.Fs → v.Fs → Type 0
  SameContent s s' = (q : Bytes) → w.content s' q ≡ w.content s q

  abbrev pub Writes : v.Fs → Bytes → ℕ → Bytes → v.Fs → Type 0
  Writes s p offset bytes s' =
      Stays s s'
      × KeepsOpen s s'
      × (w.content s' p ≡ patch offset bytes (w.content s p))
      × ((q : Bytes) → q ≢ p → w.content s' q ≡ w.content s q)

  abbrev pub Opens : v.Fs → Bytes → ℕ → Type 0
  Opens s p flags =
      (f : v.File) × (s' : v.Fs) × (v.open_file p flags s ≡ done f s')
      × w.IsOpen s' f p
      × (v.exists p s' ≡ true)
      × Stays s s'
      × KeepsOpen s s'
      × SameContent s s'

  abbrev pub Closes : v.Fs → v.File → Bytes → Type 0
  Closes s f p =
      (f' : v.File) × (s' : v.Fs) × (v.close f s ≡ done f' s')
      × Stays s s'
      × ((g : v.File) (q : Bytes) → q ≢ p → w.IsOpen s g q → w.IsOpen s' g q)
      × SameContent s s'

  abbrev pub Makes : v.Fs → Bytes → Type 0
  Makes s dir =
      (s' : v.Fs) × (v.mkdir dir s ≡ done tt s')
      × (v.exists dir s' ≡ true)
      × (v.is_dir dir s' ≡ true)
      × StaysBut (some dir) s s'
      × KeepsOpen s s'
      × SameContent s s'

  -- A file that is open is read and written where its path leads; a file in a folder that is there
  -- opens; a folder whose name is new is made.
  pub record Works : Type 0 where
    pub named : (s : v.Fs) (f : v.File) (p : Bytes) → w.IsOpen s f p → v.exists p s ≡ true
    pub reads :
        (s : v.Fs) (f : v.File) (p buffer : Bytes) (len offset : ℕ)
        → w.IsOpen s f p
        → v.read f buffer len offset s
          ≡ ok (patch 0 (take len (drop offset (w.content s p))) (grow len buffer))
    pub writes :
        (s : v.Fs) (f : v.File) (p : Bytes) (buffer : Option Bytes) (len offset : ℕ)
        → w.IsOpen s f p
        → (s' : v.Fs) × (v.write f buffer len offset s ≡ done (buffer_after len buffer) s')
          × Writes s p offset (written len buffer) s'
    pub opens :
        (s : v.Fs) (dir name : Bytes) (flags : ℕ)
        → v.is_dir dir s ≡ true
        → v.is_dir (inside dir name) s ≡ false
        → bit_or flags o_creat ≡ rdwr_creat
        → has b'/' name ≡ false
        → Opens s (inside dir name) flags
    pub closes : (s : v.Fs) (f : v.File) (p : Bytes) → w.IsOpen s f p → Closes s f p
    pub makes :
        (s : v.Fs) (dir : Bytes)
        → w.IsMounted s
        → v.exists dir s ≡ false
        → has b'/' dir ≡ false
        → Makes s dir
