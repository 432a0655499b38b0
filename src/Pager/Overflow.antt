-- ===== src/Pager/Overflow.antt =====
-- lib/pager/overflow_page and `Pager::_write_overflow_chain` of lib/pager/pager.cpp: a payload is
-- spread over a chain of overflow pages. The loop over the chunks takes the payload's length for
-- its fuel, and `read_chain` has its fuel as an argument.
pub mod Chunks
pub mod Alloc
pub mod Write
pub mod RoundTrip
use Prim.Native.Nat.{min}
use cpplite.Common.{
  ℕ, zero, suc, ◌+◌, ◌-◌, ◌%◌, ◌^◌, List, [], ◌∷◌, ◌++◌, ltb, ◌==◌, if◌then◌else◌, length, take,
  drop, take_or, head_or,
}
use cpplite.Common.Outcome.{
  Outcome, done, thrown, assertion, invalid_checksum, payload_too_small, out_of_fuel,
}
use cpplite.Pager.Page.{
  Page, blank, first, free, node, leaf, overflow, page_size, null_page, sizeof_overflow_header,
}
use cpplite.Pager.Disk.{
  PagerState, M, pure, throw, get_state, ◌>>=◌, ◌>>◌, os_read, os_write, os_append,
  set_total_num_pages,
}
use cpplite.Pager.FirstPage.{first_page_manager, set_free_page_head}
use cpplite.Pager.FreeList.{free_page_manager}

abbrev pub chunk_size : ℕ
chunk_size = page_size - sizeof_overflow_header

pub record OverflowPageManager : Type 0 where
  pub pgno : ℕ
  pub next_overflow_page : ℕ
  pub num_bytes : ℕ

abbrev as_overflow : ℕ → Page → M OverflowPageManager
as_overflow pgno (overflow next num_bytes content) =
    pure (record { pgno = pgno; next_overflow_page = next; num_bytes = num_bytes })
as_overflow pgno blank = throw invalid_checksum
as_overflow pgno page = throw assertion

-- `OverflowPageManager::OverflowPageManager`
unfoldable pub overflow_page_manager : ℕ → M OverflowPageManager
unfolding os_read
overflow_page_manager pgno = do page ← os_read pgno; as_overflow pgno page

abbrev content_of : Page → List ℕ
content_of (overflow next num_bytes content) = content
content_of page = []

-- `OverflowPageManager::get_overflow_content`
unfoldable pub get_overflow_content : OverflowPageManager → M (List ℕ)
unfolding os_read
get_overflow_content m = do page ← os_read m.pgno; pure (take_or m.num_bytes 0 (content_of page))

-- `OverflowPageManager::set_next_overflow_page` reserves room for the header and resizes nothing, so
-- the vector that it hands to the header's constructor is empty.
unfoldable pub set_next_overflow_page : OverflowPageManager → ℕ → M (Unit {0})
unfolding os_read os_write
set_next_overflow_page m pgno = do
  page ← os_read m.pgno
  if ltb (length {A = ℕ} []) sizeof_overflow_header
      then throw payload_too_small
      else os_write m.pgno (overflow pgno m.num_bytes (content_of page))

-- The first loop of `_write_overflow_chain`; `payload_size` and `offset` are `uint32_t`.
unfoldable pub chunks_from : ℕ → List ℕ → ℕ → List (List ℕ)
chunks_from zero payload offset = []
chunks_from (suc fuel) payload offset =
    let payload_size = length payload % 2 ^ 32 in
    let this_chunk_size = min chunk_size (payload_size - offset) in
    let rest = chunks_from fuel payload ((offset + chunk_size) % 2 ^ 32) in
    if ltb offset payload_size then take this_chunk_size (drop offset payload) ∷ rest else []

-- The second loop: a page for each chunk, from the free list while that lasts.
unfoldable pub alloc_pages : ℕ → ℕ → M (List ℕ)
unfolding free_page_manager set_free_page_head set_total_num_pages os_append
alloc_pages zero free_head = pure []
alloc_pages (suc n) free_head =
    let reuse : M (List ℕ) = (do
      next ← free_page_manager free_head
      set_free_page_head next
      rest ← alloc_pages n next
      pure (free_head ∷ rest)) in
    let append : M (List ℕ) = (do
      s ← get_state
      set_total_num_pages (s.total_num_pages + 1)
      os_append blank
      rest ← alloc_pages n null_page
      pure ((s.total_num_pages + 1) ∷ rest)) in
    if free_head == null_page then append else reuse

-- The third loop: each page holds its chunk and the number of the next page.
unfoldable pub write_chunks : List ℕ → List (List ℕ) → M (Unit {0})
unfolding os_write
write_chunks [] chunks = pure tt
write_chunks (p ∷ ps) [] = pure tt
write_chunks (p ∷ ps) (c ∷ cs) = do
  os_write p (overflow (head_or ps null_page) (length c) c)
  write_chunks ps cs

pub write_overflow_pages : List (List ℕ) → M ℕ
unfolding first_page_manager alloc_pages write_chunks
write_overflow_pages [] = pure null_page
write_overflow_pages (c ∷ cs) = do
  fpm ← first_page_manager
  page_nums ← alloc_pages (length (c ∷ cs)) fpm.free_page_head
  write_chunks page_nums (c ∷ cs)
  pure (head_or page_nums null_page)

-- `Pager::_write_overflow_chain`, and `create_page(PAGER_OVERFLOW_PAGE, payload)`
unfoldable pub write_overflow_chain : List ℕ → M ℕ
unfolding chunks_from write_overflow_pages
write_overflow_chain payload = write_overflow_pages (chunks_from (length payload) payload 0)

-- The loop of `LeafPageManager::get_payload` over the chain.
unfoldable pub read_chain : ℕ → ℕ → M (List ℕ)
unfolding overflow_page_manager get_overflow_content
read_chain zero it = throw out_of_fuel
read_chain (suc fuel) it =
    let more : M (List ℕ) = (do
      m ← overflow_page_manager it
      content ← get_overflow_content m
      rest ← read_chain fuel m.next_overflow_page
      pure (content ++ rest)) in
    if it == null_page then pure [] else more
