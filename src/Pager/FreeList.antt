-- ===== src/Pager/FreeList.antt =====
-- The list of free pages: lib/pager/free_page and the functions of lib/pager/pager.cpp that use it.
pub mod Chain
pub mod Stack
use cpplite.Common.{ℕ, ◌+◌, not, ◌==◌, if◌then◌else◌}
use cpplite.Common.Outcome.{done, thrown, assertion, invalid_checksum}
use cpplite.Pager.Page.{Page, blank, first, free, node, leaf, overflow, next_free_page, null_page}
use cpplite.Pager.Disk.{
  PagerState, M, pure, throw, assert, get_state, ◌>>=◌, ◌>>◌, os_read, os_write, os_append,
  set_total_num_pages,
}
use cpplite.Pager.FirstPage.{first_page_manager, set_free_page_head}

abbrev as_free : Page → M ℕ
as_free (free next) = pure next
as_free blank = throw invalid_checksum
as_free page = throw assertion

-- `FreePageManager::FreePageManager`, and the `next_free_page_` that it reads
unfoldable pub free_page_manager : ℕ → M ℕ
unfolding os_read
free_page_manager pgno = do page ← os_read pgno; as_free page

-- The manager's page is a free one, of which the pointer is written.
unfoldable pub set_next_free_page : ℕ → ℕ → M ℕ
unfolding free_page_manager os_write
set_next_free_page pgno next = do old ← free_page_manager pgno; os_write pgno (free next); pure next

unfoldable pub insert_freelist : ℕ → M (Unit {0})
unfolding first_page_manager set_free_page_head os_write
insert_freelist pgno = do
  assert (not (pgno == 1))
  fpm ← first_page_manager
  set_free_page_head pgno
  os_write pgno (free fpm.free_page_head)

-- The header of the page that is popped is read as it stands, by the layout of a free page.
unfoldable pub pop_freelist : M ℕ
unfolding first_page_manager set_free_page_head os_read
pop_freelist = do
  fpm ← first_page_manager
  if fpm.free_page_head == null_page then pure null_page else (do
    page ← os_read fpm.free_page_head
    set_free_page_head (next_free_page page)
    pure fpm.free_page_head)

unfoldable pub peek_freelist : M ℕ
unfolding first_page_manager
peek_freelist = do fpm ← first_page_manager; pure fpm.free_page_head

-- `create_page(PAGER_FREE_PAGE)`
unfoldable pub create_free_page : M ℕ
unfolding first_page_manager set_free_page_head os_append set_total_num_pages
create_free_page = do
  fpm ← first_page_manager
  s ← get_state
  set_total_num_pages (s.total_num_pages + 1)
  os_append (free fpm.free_page_head)
  set_free_page_head (s.total_num_pages + 1)
  pure (s.total_num_pages + 1)
