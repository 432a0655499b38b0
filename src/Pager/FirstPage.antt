-- ===== src/Pager/FirstPage.antt =====
-- lib/pager/first_page. The manager's fields are the header that its constructor reads from page 1.
-- A setter writes one field of the page. A page 1 that is no first page is refused; the source
-- would read it by the wrong layout, but writes no other page there.
use cpplite.Common.{ℕ, ◌+◌}
use cpplite.Common.Outcome.{invalid_checksum, invalid_page_type}
use cpplite.Pager.Page.{Page, blank, first, free, FirstHeader}
use cpplite.Pager.Disk.{M, pure, throw, ◌>>=◌, ◌>>◌, os_read, os_write, os_append}

abbrev as_first : Page → M FirstHeader
as_first (first h) = pure h
as_first blank = throw invalid_checksum
as_first page = throw invalid_page_type

-- `FirstPageManager::FirstPageManager`
unfoldable pub first_page_manager : M FirstHeader
unfolding os_read
first_page_manager = do page ← os_read 1; as_first page

write_header : (FirstHeader → FirstHeader) → M (Unit {0})
unfolding first_page_manager os_write
write_header f = do h ← first_page_manager; os_write 1 (first (f h))

unfoldable pub set_num_pages : ℕ → M (Unit {0})
unfolding write_header
set_num_pages n = write_header (λ h. record h { num_pages = n })

unfoldable pub set_free_page_head : ℕ → M (Unit {0})
unfolding write_header
set_free_page_head pgno = write_header (λ h. record h { free_page_head = pgno })

unfoldable pub set_next_oid : ℕ → M (Unit {0})
unfolding write_header
set_next_oid oid = write_header (λ h. record h { next_oid = oid })

-- `FirstPageManager::create_free_page`, with the manager's fields: the count goes up in the manager
-- only.
unfoldable pub create_free_page : FirstHeader → M (FirstHeader × ℕ)
unfolding os_append
create_free_page fpm = do
  let fpm' : FirstHeader = record fpm { num_pages = fpm.num_pages + 1 }
  os_append (free fpm.free_page_head)
  pure (fpm', fpm'.num_pages)
