-- ===== src/Vfs/Memory.antt =====
-- An operating system that keeps its files in memory, as the tests run the code on it: its calls do
-- what they are documented to do.
use cpplite.Common.{
  ℕ, suc, ◌+◌, ◌<◌, ◌≡◌, ◌≢◌, refl, sym, ap, ◌∙◌, arith, Bool, true, false, Option, none, some,
  List, [], ◌∷◌, ◌++◌, length, take, drop, ◌==◌, if◌then◌else◌, inl, inr, Bool-cases,
}
use cpplite.Common.Outcome.{ok, err, io_failed}
use cpplite.Common.Sorted.{has}
use cpplite.Encoding.{Bytes}
use cpplite.Binder.{is_same}
use cpplite.Binder.Names.{is_same_refl, is_same_eq}
use cpplite.Vfs.{patch}
use cpplite.Vfs.Laws.{inside}
use cpplite.Vfs.Local.{Fd, Posix}
use cpplite.Vfs.Local.Implements.{
  OsView, Documented, Stays, KeepsOpen, SameContent, OsOpens, OsMakes,
}

-- `paths` lists what there is, for `ls`.
pub record Os : Type 0 where
  pub files : Bytes → Option Bytes
  pub dirs : Bytes → Bool
  pub paths : List Bytes
  pub fds : ℕ → Option Bytes
  pub next_fd : ℕ

abbrev is_some : {A : Type 0} → Option A → Bool
is_some none = false
is_some (some a) = true

abbrev bytes_of : Option Bytes → Bytes
bytes_of none = []
bytes_of (some bytes) = bytes

abbrev content : Os → Bytes → Bytes
content s q = bytes_of (s.files q)

abbrev exists : Bytes → Os → Bool
exists q s = if s.dirs q then true else is_some (s.files q)

unfoldable pub strip : Bytes → Bytes → Option Bytes
strip [] path = some path
strip (x ∷ dir) [] = none
strip (x ∷ dir) (y ∷ path) = if x == y then strip dir path else none

-- The paths that stand in a folder.
unfoldable pub listed : Bytes → List Bytes → List Bytes
unfolding strip
listed dir [] = []
listed dir (path ∷ paths) = elim (strip (dir ++ (b'/' ∷ [])) path) [
  | none ↦ listed dir paths
  | some name ↦ if has b'/' name then listed dir paths else path ∷ listed dir paths
]

unfoldable pub without : Bytes → List Bytes → List Bytes
unfolding is_same
without q [] = []
without q (path ∷ paths) = if is_same q path then without q paths else path ∷ without q paths

abbrev pread : Fd → ℕ → ℕ → Os → Option Bytes
pread none len offset s = none
pread (some n) len offset s = elim (s.fds n) [
  | none ↦ none
  | some q ↦ some (take len (drop offset (content s q)))
]

abbrev pwrite : Fd → Bytes → ℕ → Os → Option ℕ × Os
pwrite none bytes offset s = (none, s)
pwrite (some n) bytes offset s = elim (s.fds n) [
  | none ↦ (none, s)
  | some q ↦ (
    some (length bytes),
    record s {
      files = λ other.
          if is_same q other then some (patch offset bytes (content s q)) else s.files other;
    },
  )
]

abbrev close_fd : Fd → Os → Bool × Os
close_fd none s = (false, s)
close_fd (some n) s = (true, record s { fds = λ m. if n == m then none else s.fds m })

abbrev created : Bytes → Os → Os
created path s = if exists path s then s else record s {
  files = λ other. if is_same path other then some [] else s.files other;
  paths = path ∷ s.paths;
}

abbrev open_fd : Bytes → ℕ → Os → Fd × Os
open_fd path flags s = if s.dirs path then (none, s) else (
  some s.next_fd,
  record (created path s) {
    fds = λ m. if s.next_fd == m then some path else s.fds m;
    next_fd = s.next_fd + 1;
  },
)

abbrev make_dir : Bytes → Os → Bool × Os
make_dir path s = if exists path s then (false, s) else (
  true,
  record s {
    dirs = λ other. if is_same path other then true else s.dirs other;
    paths = path ∷ s.paths;
  },
)

abbrev pub remove_dir : Bytes → Os → Bool × Os
remove_dir path s = (
  true,
  record s {
    dirs = λ other. if is_same path other then false else s.dirs other;
    paths = without path s.paths;
  },
)

abbrev remove_file : Bytes → Os → Bool × Os
remove_file path s = (
  true,
  record s {
    files = λ other. if is_same path other then none else s.files other;
    paths = without path s.paths;
  },
)

-- The folder "d".
abbrev pub empty_disk : Os
empty_disk = record {
  files = λ q. none;
  dirs = λ q. is_same (b'd' ∷ []) q;
  paths = [];
  fds = λ n. none;
  next_fd = 3;
}

abbrev pub memory : Posix
memory = record {
  Os = Os;
  pread = pread;
  pwrite = pwrite;
  fsync = λ fd s. (true, s);
  close_fd = close_fd;
  open_fd = open_fd;
  exists = exists;
  is_directory = λ q s. s.dirs q;
  file_size = λ q s. elim (s.files q) [ none ↦ err io_failed | some bytes ↦ ok (length bytes) ];
  directory_iterator = λ q s. if s.dirs q then ok (listed q s.paths) else err io_failed;
  relative = λ path base. drop (suc (length base)) path;
  mkdir = make_dir;
  rmdir = remove_dir;
  unlink = remove_file;
}

abbrev pub memory_view : OsView memory
memory_view = record {
  IsOpen = λ s n q. (s.fds n ≡ some q) × (n < s.next_fd) × (exists q s ≡ true);
  content = content;
}

some_inj : (a b : Bytes) → some a ≡ some b → a ≡ b
some_inj a b e = cc

is_same_ne : (a b : Bytes) → b ≢ a → is_same a b ≡ false
is_same_ne a b d = elim (Bool-cases (is_same a b)) [
  | inl e ↦ absurd (d (sym (is_same_eq a b e)))
  | inr e ↦ e
]

pwrites :
    (s : Os) (n : ℕ) (q bytes : Bytes) (offset : ℕ)
    → memory_view.IsOpen s n q
    → (s' : Os) × (pwrite (some n) bytes offset s ≡ (some (length bytes), s'))
      × Stays memory memory_view s s'
      × KeepsOpen memory memory_view s s'
      × (content s' q ≡ patch offset bytes (content s q))
      × ((other : Bytes) → other ≢ q → content s' other ≡ content s other)
pwrites s n q bytes offset (e, l, there) = (
  record s {
    files =
        λ other. if is_same q other then some (patch offset bytes (content s q)) else s.files other;
  },
  ground (arith, e),
  (λ other there. ground (arith, there), λ other d. refl),
  λ m other (e, l, there). (e, l, ground (arith, there)),
  ground (arith, is_same_refl q),
  λ other d. ground (arith, is_same_ne q other d),
)

opens : (s : Os) (path : Bytes) → s.dirs path ≡ false → OsOpens memory memory_view s path
opens s path file = (
  s.next_fd,
  record (created path s) {
    fds = λ m. if s.next_fd == m then some path else s.fds m;
    next_fd = s.next_fd + 1;
  },
  ground (arith, file),
  (ground arith, ground arith, ground (arith, file, is_same_refl path)),
  ground (arith, file, is_same_refl path),
  (λ other there. ground (arith, there), λ other d. ground arith),
  λ m other (e, l, there). (ground (arith, e, l), ground (arith, l), ground (arith, there)),
  λ other. ground (arith, file, is_same_eq path other),
)

closes :
    (s : Os) (n : ℕ) (q : Bytes)
    → memory_view.IsOpen s n q
    → (s' : Os) × (close_fd (some n) s ≡ (true, s'))
      × Stays memory memory_view s s'
      × ((m : ℕ) (other : Bytes)
          → other ≢ q
          → memory_view.IsOpen s m other
          → memory_view.IsOpen s' m other)
      × SameContent memory memory_view s s'
closes s n q (e, l, there) = (
  record s { fds = λ m. if n == m then none else s.fds m },
  refl,
  (λ other there. there, λ other d. refl),
  λ m other d (e', l', there'). elim (Bool-cases (n == m)) [
    | inl i ↦
        let same : n ≡ m = ground (arith, i) in
        absurd (d (some_inj other q (sym e' ∙ ap s.fds (sym same) ∙ e)))
    | inr i ↦ (rw i e', l', there')
  ],
  λ other. refl,
)

makes : (s : Os) (path : Bytes) → exists path s ≡ false → OsMakes memory memory_view s path
makes s path new = (
  record s {
    dirs = λ other. if is_same path other then true else s.dirs other;
    paths = path ∷ s.paths;
  },
  ground (arith, new),
  ground (arith, is_same_refl path),
  ground (arith, is_same_refl path),
  (
    λ other there. ground (arith, there),
    λ other d. rw (is_same_ne path other (λ e. d (ap some (sym e)))) refl,
  ),
  λ m other (e, l, there). (e, l, ground (arith, there)),
  λ other. refl,
)

-- The laws hold of the memory.
pub memory-Documented : Documented memory memory_view
memory-Documented = record {
  named = λ s n q (e, l, there). there;
  preads = λ s n q len offset (e, l, there). ground (arith, e);
  pwrites = pwrites;
  opens = λ s dir name there file plain. opens s (inside dir name) file;
  closes = closes;
  makes = λ s dir name there new plain. makes s (inside dir name) new;
}
