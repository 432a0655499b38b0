-- ===== src/Pager/Leaf/Valid.antt =====
-- What holds of a leaf page manager between two calls, and of its page.
use cpplite.Common.{
  ◌+◌, ◌*◌, ◌%◌, ◌^◌, ◌<◌, ◌≡◌, arith, List, ◌++◌, length, take_or-append, take_or,
}
use cpplite.Common.Outcome.{done}
use cpplite.Common.Sorted.{IsSorted}
use cpplite.Pager.Page.{
  leaf, LeafCell, zero_leaf_cell, page_size, sizeof_leaf_header, sizeof_leaf_cell,
}
use cpplite.Pager.Disk.{PagerState}
use cpplite.Pager.Leaf.{LeafPageManager, keys, header_of, leaf_page_manager}

-- The count is that of the cells, their keys ascend, and header, cells and free bytes make a page.
pub record IsValid (m : LeafPageManager) : Type 0 where
  pub count : m.num_cells ≡ length m.cells
  pub sorted : IsSorted (keys m.cells)
  pub room : sizeof_leaf_header + m.num_cells * sizeof_leaf_cell + m.total_bytes_free ≡ page_size

-- The page in the file is the manager's, whatever stands behind its cells.
pub record OnDisk (m : LeafPageManager) (s : PagerState) : Type 0 where
  pub old_cells : List LeafCell
  pub page : s.file m.pgno ≡ leaf (header_of m) (m.cells ++ old_cells)
  pub numbered : 1 < m.pgno

-- A manager that is constructed anew from the page is the same.
pub leaf_page_manager-OnDisk :
    (m : LeafPageManager) (s : PagerState)
    → IsValid m
    → OnDisk m s
    → leaf_page_manager m.pgno s ≡ done m s
unfolding leaf_page_manager
leaf_page_manager-OnDisk m s v o =
    let cells : take_or m.num_cells zero_leaf_cell (m.cells ++ o.old_cells) ≡ m.cells =
      rw v.count (take_or-append zero_leaf_cell m.cells o.old_cells) in
    let room : m.total_bytes_free % 2 ^ 16 ≡ m.total_bytes_free = omega arith in
    ground (arith, o.page, o.numbered, cells, room)
