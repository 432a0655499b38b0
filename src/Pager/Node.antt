-- ===== src/Pager/Node.antt =====
-- lib/pager/node_page. As with leaf pages, a manager is a copy of the header and of the cells in use.
pub mod Valid
pub mod Insert
pub mod Delete
pub mod Children
use cpplite.Common.{
  ℕ, ◌+◌, ◌-◌, ◌*◌, ◌%◌, ◌^◌, Bool, true, false, Option, none, some, List, [], ◌∷◌, ◌++◌, map, ltb,
  ◌==◌, if◌then◌else◌, length, drop, take_or, get_or, insert_at, erase_at, set, set_or,
}
use cpplite.Common.Outcome.{
  Outcome, done, thrown, assertion, invalid_checksum, duplicate_key, key_not_found, out_of_fuel,
}
use cpplite.Common.Sorted.{Found, found, absent, unfinished, search_keys}
use cpplite.Pager.Page.{
  Page, blank, first, free, node, leaf, overflow, NodeCell, NodeHeader, page_size, null_page,
  zero_node_cell, sizeof_node_header, sizeof_node_cell,
}
use cpplite.Pager.Disk.{PagerState, M, pure, throw, assert, ◌>>=◌, ◌>>◌, os_read, os_write}

pub record NodePageManager : Type 0 where
  pub pgno : ℕ
  pub cells : List NodeCell
  pub num_cells : ℕ
  pub total_bytes_free : ℕ
  pub right_child : ℕ

abbrev pub keys : List NodeCell → List ℕ
keys = map (λ c. c.key)

abbrev as_node : ℕ → Page → M NodePageManager
as_node pgno (node h area) = pure (record {
  pgno = pgno;
  cells = take_or h.num_cells zero_node_cell area;
  num_cells = h.num_cells;
  total_bytes_free = h.total_bytes_free % 2 ^ 16;
  right_child = h.right_child;
})
as_node pgno blank = throw invalid_checksum
as_node pgno page = throw assertion

-- `NodePageManager::NodePageManager`
unfoldable pub node_page_manager : ℕ → M NodePageManager
unfolding os_read
node_page_manager pgno = do page ← os_read pgno; as_node pgno page

abbrev pub header_of : NodePageManager → NodeHeader
header_of m = record {
  num_cells = m.num_cells;
  total_bytes_free = m.total_bytes_free;
  right_child = m.right_child;
}

-- A write of cells into a page of another type is not modelled: the page stays.
abbrev put_cells : List NodeCell → Page → Page
put_cells cells (node h area) = node h (cells ++ drop (length cells) area)
put_cells cells page = page

abbrev put_cell : ℕ → NodeCell → Page → Page
put_cell i cell (node h area) = node h (set_or i zero_node_cell cell area)
put_cell i cell page = page

abbrev put_header : NodeHeader → Page → Page
put_header h (node h' area) = node h area
put_header h page = node h []

-- A part of a page is read with the rest of it and written back.
modify_page : ℕ → (Page → Page) → M (Unit {0})
unfolding os_read os_write
modify_page pgno f = do page ← os_read pgno; os_write pgno (f page)

abbrev pub place_of : Found → M ℕ
place_of (found i) = throw duplicate_key
place_of (absent lo) = pure lo
place_of unfinished = throw out_of_fuel

abbrev pub with_cells : NodePageManager → List NodeCell → ℕ → ℕ → NodePageManager
with_cells m cells num room = record m { cells = cells; num_cells = num; total_bytes_free = room }

abbrev page_is_full : NodePageManager → Bool
page_is_full m =
    sizeof_node_header + m.num_cells * sizeof_node_cell + m.total_bytes_free == page_size

abbrev pub new_cell : ℕ → ℕ → NodeCell
new_cell key left_child = record { key = key; left_child = left_child }

insert_new_cell : NodePageManager → ℕ → ℕ → M (Bool × NodePageManager)
unfolding modify_page
insert_new_cell m key lo = do
  let cells = insert_at lo (new_cell key null_page) m.cells
  modify_page m.pgno (put_cells cells)
  let m' = with_cells m cells (m.num_cells + 1) (m.total_bytes_free - sizeof_node_cell)
  assert (page_is_full m')
  modify_page m.pgno (put_header (header_of m'))
  pure (true, m')

unfoldable pub insert_node_cell : NodePageManager → ℕ → M (Bool × NodePageManager)
unfolding insert_new_cell
insert_node_cell m key = do
  assert (m.num_cells == length m.cells)
  if ltb m.total_bytes_free sizeof_node_cell
      then pure (false, m)
      else (do lo ← place_of (search_keys key (keys m.cells)); insert_new_cell m key lo)

abbrev hit_of : Found → M (Option ℕ)
hit_of (found i) = pure (some i)
hit_of (absent lo) = pure none
hit_of unfinished = throw out_of_fuel

-- The search goes over `num_cells_` cells, which are all.
unfoldable pub find_node_cell_idx : NodePageManager → ℕ → M (Option ℕ)
find_node_cell_idx m target_key = do
  assert (length m.cells == m.num_cells)
  hit_of (search_keys target_key (keys m.cells))

abbrev value_or_throw : Option ℕ → M ℕ
value_or_throw none = throw key_not_found
value_or_throw (some i) = pure i

unfoldable pub set_cell_left_child : NodePageManager → ℕ → ℕ → M NodePageManager
unfolding find_node_cell_idx modify_page
set_cell_left_child m key left_child = do
  assert (m.num_cells == length m.cells)
  key_idx_opt ← find_node_cell_idx m key
  key_idx ← value_or_throw key_idx_opt
  assert (get_or (keys m.cells) key_idx 0 == key)
  modify_page m.pgno (put_cell key_idx (new_cell key left_child))
  pure (record m { cells = set m.cells key_idx (new_cell key left_child) })

unfoldable pub set_node_right_child : NodePageManager → ℕ → M NodePageManager
unfolding modify_page
set_node_right_child m new_right_child = do
  let m' = record m { right_child = new_right_child }
  modify_page m.pgno (put_header (header_of m'))
  pure m'

unfoldable pub delete_node_cell : NodePageManager → ℕ → M NodePageManager
unfolding find_node_cell_idx modify_page
delete_node_cell m key = do
  assert (m.num_cells == length m.cells)
  key_idx_opt ← find_node_cell_idx m key
  key_idx ← value_or_throw key_idx_opt
  let cells = erase_at key_idx m.cells
  let m' = with_cells m cells (m.num_cells - 1) ((m.total_bytes_free + sizeof_node_cell) % 2 ^ 16)
  modify_page m.pgno (put_cells cells)
  modify_page m.pgno (put_header (header_of m'))
  pure m'

abbrev pub child_at : List NodeCell → ℕ → ℕ
child_at cells i = (get_or cells i zero_node_cell).left_child

unfoldable pub update_cell_key : NodePageManager → ℕ → ℕ → M NodePageManager
unfolding find_node_cell_idx modify_page
update_cell_key m old_key new_key = do
  assert (m.num_cells == length m.cells)
  key_idx_opt ← find_node_cell_idx m old_key
  key_idx ← value_or_throw key_idx_opt
  let cells = set m.cells key_idx (new_cell new_key (child_at m.cells key_idx))
  modify_page m.pgno (put_cells cells)
  pure (record m { cells = cells })
