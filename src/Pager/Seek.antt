-- ===== src/Pager/Seek.antt =====
-- `get_page_type`, `seek_page`, `set_num_pages` and `get_num_pages` of lib/pager/pager.cpp.
pub mod Laws
use cpplite.Common.{ℕ, true, false, ◌==◌, not, if◌then◌else◌}
use cpplite.Common.Outcome.{Outcome, done, thrown, invalid_checksum, bad_variant_access}
use cpplite.Pager.Page.{
  Page, blank, first, free, node, leaf, overflow, PageType, first_page, free_page, node_page,
  leaf_page, overflow_page, FirstHeader, null_page,
}
use cpplite.Pager.Disk.{PagerState, M, pure, throw, assert, ◌>>=◌, ◌>>◌, os_read}
use cpplite.Pager.FirstPage.{first_page_manager, set_num_pages}
use cpplite.Pager.FreeList.{free_page_manager}
use cpplite.Pager.Overflow.{OverflowPageManager, overflow_page_manager}
use cpplite.Pager.Leaf.{LeafPageManager, leaf_page_manager}
use cpplite.Pager.Node.{NodePageManager, node_page_manager}

-- The alternatives of the variant `PageManager` that `seek_page` makes.
pub data PageManager : Type 0 where
  first_manager : FirstHeader → PageManager
  node_manager : NodePageManager → PageManager
  leaf_manager : LeafPageManager → PageManager
  free_manager : ℕ → PageManager
  overflow_manager : OverflowPageManager → PageManager

-- The type in a page's header; on a page of zeros it reads as `PAGER_FREE_PAGE`.
abbrev pub page_type : Page → PageType
page_type blank = free_page
page_type (first h) = first_page
page_type (free next) = free_page
page_type (node h cells) = node_page
page_type (leaf h cells) = leaf_page
page_type (overflow next n content) = overflow_page

abbrev check_sum : Page → M PageType
check_sum blank = throw invalid_checksum
check_sum page = pure (page_type page)

unfoldable pub get_page_type : ℕ → M PageType
unfolding os_read
get_page_type pgno = do assert (not (pgno == null_page)); page ← os_read pgno; check_sum page

abbrev open_manager : ℕ → PageType → M PageManager
open_manager pgno first_page = do h ← first_page_manager; pure (first_manager h)
open_manager pgno node_page = do m ← node_page_manager pgno; pure (node_manager m)
open_manager pgno leaf_page = do m ← leaf_page_manager pgno; pure (leaf_manager m)
open_manager pgno free_page = do next ← free_page_manager pgno; pure (free_manager next)
open_manager pgno overflow_page = do m ← overflow_page_manager pgno; pure (overflow_manager m)

-- The manager that `seek_page` leaves in `page_manager_`; the number of the first page is the value
-- of `PAGER_FIRST_PAGE`.
unfoldable pub seek_page : ℕ → M PageManager
unfolding os_read
seek_page pgno =
    if pgno == 1
    then open_manager pgno first_page
    else (do page ← os_read pgno; open_manager pgno (page_type page))

-- `Pager::set_num_pages` on what `page_manager_` holds.
unfoldable pub set_num_pages_of : PageManager → ℕ → M (Unit {0})
unfolding set_num_pages
set_num_pages_of (first_manager h) n = set_num_pages n
set_num_pages_of m n = throw bad_variant_access

unfoldable pub get_num_pages : M ℕ
unfolding first_page_manager
get_num_pages = do h ← first_page_manager; pure h.num_pages
