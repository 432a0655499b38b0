-- ===== src/Pager/Leaf.antt =====
-- lib/pager/leaf_page. A manager is a copy of the page's header and of its cells in use. A write to
-- the page goes to the array of cells or to the header; the cells behind those written stay.
pub mod Valid
pub mod Insert
pub mod Delete
pub mod Payload
use cpplite.Common.{
  ℕ, ◌+◌, ◌-◌, ◌*◌, ◌%◌, ◌^◌, Bool, true, false, ◌||◌, not, Option, none, some, List, [], ◌∷◌, ◌++◌,
  map, ltb, leb, ◌==◌, if◌then◌else◌, length, drop, take_or, get_or, insert_at, erase_at,
}
use cpplite.Common.Outcome.{
  Outcome, done, thrown, assertion, invalid_checksum, duplicate_key, key_not_found, out_of_fuel,
}
use cpplite.Common.Sorted.{Found, found, absent, unfinished, search_keys}
use cpplite.Pager.Page.{
  Page, blank, first, free, node, leaf, overflow, LeafCell, LeafHeader, page_size, zero_leaf_cell,
  sizeof_leaf_header, sizeof_leaf_cell,
}
use cpplite.Pager.Disk.{PagerState, M, pure, throw, assert, ◌>>=◌, ◌>>◌, os_read, os_write}
use cpplite.Pager.Overflow.{write_overflow_chain, read_chain}

pub record LeafPageManager : Type 0 where
  pub pgno : ℕ
  pub cells : List LeafCell
  pub num_cells : ℕ
  pub total_bytes_free : ℕ
  pub prev_page : ℕ
  pub next_page : ℕ

abbrev pub keys : List LeafCell → List ℕ
keys = map (λ c. c.key)

abbrev as_leaf : ℕ → Page → M LeafPageManager
as_leaf pgno (leaf h area) = pure (record {
  pgno = pgno;
  cells = take_or h.num_cells zero_leaf_cell area;
  num_cells = h.num_cells;
  total_bytes_free = h.total_bytes_free % 2 ^ 16;
  prev_page = h.prev_page;
  next_page = h.next_page;
})
as_leaf pgno blank = throw invalid_checksum
as_leaf pgno page = throw assertion

-- `LeafPageManager::LeafPageManager`
unfoldable pub leaf_page_manager : ℕ → M LeafPageManager
unfolding os_read
leaf_page_manager pgno = do page ← os_read pgno; as_leaf pgno page

-- The header that a manager writes.
abbrev pub header_of : LeafPageManager → LeafHeader
header_of m = record {
  num_cells = m.num_cells;
  total_bytes_free = m.total_bytes_free;
  next_page = m.next_page;
  prev_page = m.prev_page;
}

-- A write of cells into a page of another type is not modelled: the page stays.
abbrev put_cells : List LeafCell → Page → Page
put_cells cells (leaf h area) = leaf h (cells ++ drop (length cells) area)
put_cells cells page = page

abbrev put_header : LeafHeader → Page → Page
put_header h (leaf h' area) = leaf h area
put_header h page = leaf h []

unfoldable pub write_cells : ℕ → List LeafCell → M (Unit {0})
unfolding os_read os_write
write_cells pgno cells = do page ← os_read pgno; os_write pgno (put_cells cells page)

unfoldable pub write_header : ℕ → LeafHeader → M (Unit {0})
unfolding os_read os_write
write_header pgno h = do page ← os_read pgno; os_write pgno (put_header h page)

-- The search for the place of a new key.
abbrev pub place_of : Found → M ℕ
place_of (found i) = throw duplicate_key
place_of (absent lo) = pure lo
place_of unfinished = throw out_of_fuel

abbrev pub with_cells : LeafPageManager → List LeafCell → ℕ → ℕ → LeafPageManager
with_cells m cells num room = record m { cells = cells; num_cells = num; total_bytes_free = room }

abbrev page_is_full : LeafPageManager → Bool
page_is_full m =
    sizeof_leaf_header + m.num_cells * sizeof_leaf_cell + m.total_bytes_free == page_size

abbrev pub new_cell : ℕ → List ℕ → ℕ → LeafCell
new_cell key cell_data record_page = record {
  payload_size = length cell_data % 2 ^ 32;
  key = key;
  record_page = record_page;
}

-- What `insert_cell` does once there is room and its key is known to be new.
insert_new_cell : LeafPageManager → ℕ → List ℕ → ℕ → M (Bool × LeafPageManager)
unfolding write_cells write_header
insert_new_cell m key cell_data lo = do
  record_page ← write_overflow_chain cell_data
  let cell = new_cell key cell_data record_page
  let cells = insert_at lo cell m.cells
  write_cells m.pgno cells
  let m' = with_cells m cells (m.num_cells + 1) (m.total_bytes_free - sizeof_leaf_cell)
  assert (page_is_full m')
  write_header m.pgno (header_of m')
  pure (true, m')

unfoldable pub insert_cell : LeafPageManager → ℕ → List ℕ → M (Bool × LeafPageManager)
unfolding insert_new_cell
insert_cell m key cell_data = do
  assert (m.num_cells == length m.cells)
  if ltb m.total_bytes_free sizeof_leaf_cell
      then pure (false, m)
      else (do lo ← place_of (search_keys key (keys m.cells)); insert_new_cell m key cell_data lo)

write_new_cell : LeafPageManager → LeafCell → ℕ → M (Bool × LeafPageManager)
unfolding write_cells write_header
write_new_cell m cell lo = do
  let cells = insert_at lo cell m.cells
  let m' = with_cells m cells (m.num_cells + 1) (m.total_bytes_free - sizeof_leaf_cell)
  assert (page_is_full m')
  write_cells m.pgno cells
  write_header m.pgno (header_of m')
  pure (true, m')

unfoldable pub write_cell : LeafPageManager → LeafCell → M (Bool × LeafPageManager)
unfolding write_new_cell
write_cell m cell = do
  assert (m.num_cells == length m.cells)
  if ltb m.total_bytes_free sizeof_leaf_cell
      then pure (false, m)
      else (do lo ← place_of (search_keys cell.key (keys m.cells)); write_new_cell m cell lo)

-- Where the search of `delete_cell` ends, by a hit or not.
abbrev pub index_of : Found → M ℕ
index_of (found i) = pure i
index_of (absent lo) = pure lo
index_of unfinished = throw out_of_fuel

delete_at : LeafPageManager → ℕ → M LeafPageManager
unfolding write_cells write_header
delete_at m lo = do
  let cells = erase_at lo m.cells
  let m' = with_cells m cells (m.num_cells - 1) ((m.total_bytes_free + sizeof_leaf_cell) % 2 ^ 16)
  write_cells m.pgno cells
  write_header m.pgno (header_of m')
  pure m'

unfoldable pub delete_cell : LeafPageManager → ℕ → M LeafPageManager
unfolding delete_at
delete_cell m key = do
  assert (m.num_cells == length m.cells)
  lo ← index_of (search_keys key (keys m.cells))
  if m.num_cells == 0
      then pure m
      else (if leb (length m.cells) lo || not (get_or (keys m.cells) lo 0 == key)
          then throw key_not_found
          else delete_at m lo)

-- The first cell with a key.
unfoldable pub find_cell : ℕ → List LeafCell → Option LeafCell
find_cell key [] = none
find_cell key (c ∷ cs) = if c.key == key then some c else find_cell key cs

payload_of : ℕ → Option LeafCell → M (Option (List ℕ))
unfolding read_chain
payload_of fuel none = pure none
payload_of fuel (some cell) = do
  payload ← read_chain fuel cell.record_page
  assert (length payload == cell.payload_size)
  pure (some payload)

unfoldable pub get_payload : ℕ → LeafPageManager → ℕ → M (Option (List ℕ))
unfolding payload_of find_cell
get_payload fuel m key = payload_of fuel (find_cell key m.cells)

-- `_set_leaf_page_pointers` reads the header from the page, not from the manager.
abbrev with_prev : ℕ → LeafHeader → LeafHeader
with_prev pgno h = record h { prev_page = pgno }

abbrev with_next : ℕ → LeafHeader → LeafHeader
with_next pgno h = record h { next_page = pgno }

abbrev map_header : (LeafHeader → LeafHeader) → Page → Page
map_header f (leaf h area) = leaf (f h) area
map_header f page = page

set_pointers : (LeafHeader → LeafHeader) → ℕ → M (Unit {0})
unfolding os_read os_write
set_pointers f pgno = do page ← os_read pgno; os_write pgno (map_header f page)

unfoldable pub set_prev_page : LeafPageManager → ℕ → M LeafPageManager
unfolding set_pointers
set_prev_page m pgno = do set_pointers (with_prev pgno) m.pgno; pure (record m { prev_page = pgno })

unfoldable pub set_next_page : LeafPageManager → ℕ → M LeafPageManager
unfolding set_pointers
set_next_page m pgno = do set_pointers (with_next pgno) m.pgno; pure (record m { next_page = pgno })
