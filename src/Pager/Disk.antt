-- ===== src/Pager/Disk.antt =====
-- The state of a `Pager` (lib/pager/pager.h) with its file, and the file operations of
-- lib/vfs/osfile.cpp as the pager uses them: whole pages, or a part of one page. A call of the
-- operating system that the source hands a valid argument is taken to succeed; a seek to page 0
-- fails, since its offset is negative.
use cpplite.Common.{ℕ, ◌+◌, Bool, true, false, ◌==◌, if◌then◌else◌}
use cpplite.Common.Outcome.{Outcome, done, thrown, Error, assertion, seek_failed}
use cpplite.Pager.Page.{Page, blank, first}

-- Pages are numbered from 1; those behind `file_pages` are not in the file.
pub record PagerState : Type 0 where
  pub file : ℕ → Page
  pub file_pages : ℕ
  pub total_num_pages : ℕ

abbrev pub M : Type 0 → Type 0
M A = PagerState → Outcome PagerState A

abbrev pub pure : {A : Type 0} → A → M A
pure a s = done a s

infixl 5 ◌>>=◌ ◌>>◌
abbrev pub ◌>>=◌ : {A B : Type 0} → M A → (A → M B) → M B
◌>>=◌ m f s = elim (m s) [ done a s' ↦ f a s' | thrown e s' ↦ thrown e s' ]

abbrev pub ◌>>◌ : {B : Type 0} → M (Unit {0}) → M B → M B
m >> k = m >>= λ _. k

abbrev pub throw : {A : Type 0} → Error → M A
throw e s = thrown e s

-- `assert(b)`
abbrev pub assert : Bool → M (Unit {0})
assert true s = done tt s
assert false s = thrown assertion s

abbrev pub get_state : M PagerState
get_state s = done s s

abbrev pub update : (ℕ → Page) → ℕ → Page → ℕ → Page
update pages pgno page q = if pgno == q then page else pages q

-- `os_seek((pgno - 1) * PAGE_SIZE)` and `os_read(page_content, PAGE_SIZE)`
unfoldable pub os_read : ℕ → M Page
os_read pgno s = elim (pgno == 0) [ true ↦ thrown seek_failed s | false ↦ done (s.file pgno) s ]

-- `os_seek((pgno - 1) * PAGE_SIZE)` and `os_write(page_content, PAGE_SIZE)`
unfoldable pub os_write : ℕ → Page → M (Unit {0})
os_write pgno page s = elim (pgno == 0) [
  | true ↦ thrown seek_failed s
  | false ↦ done tt (record s { file = update s.file pgno page })
]

-- `os_append(page_content, PAGE_SIZE)`
unfoldable pub os_append : Page → M (Unit {0})
os_append page s =
    done tt
      (record s { file = update s.file (s.file_pages + 1) page; file_pages = s.file_pages + 1 })

-- `total_num_pages_ = n`
unfoldable pub set_total_num_pages : ℕ → M (Unit {0})
set_total_num_pages n s = done tt (record s { total_num_pages = n })

-- `Pager::Pager` on a new file
pub init : PagerState
init = record {
  file = update (λ _. blank) 1 (first (record { num_pages = 1; free_page_head = 0; next_oid = 1 }));
  file_pages = 1;
  total_num_pages = 1;
}
