-- ===== src/Pager/Node/Valid.antt =====
-- What holds of a node page manager between two calls, and of its page.
use cpplite.Common.{
  ℕ, ◌+◌, ◌*◌, ◌%◌, ◌^◌, ◌<◌, ◌≡◌, arith, true, List, ◌++◌, length, take_or, take_or-append, get_or,
  length-map,
}
use cpplite.Common.Outcome.{done}
use cpplite.Common.Sorted.{IsSorted, has, rank, has-eq-rank}
use cpplite.Pager.Page.{
  node, NodeCell, zero_node_cell, page_size, sizeof_node_header, sizeof_node_cell,
}
use cpplite.Pager.Disk.{PagerState}
use cpplite.Pager.Node.{NodePageManager, keys, header_of, node_page_manager}

-- The count is that of the cells, their keys ascend, and header, cells and free bytes make a page.
pub record IsValid (m : NodePageManager) : Type 0 where
  pub count : m.num_cells ≡ length m.cells
  pub sorted : IsSorted (keys m.cells)
  pub room : sizeof_node_header + m.num_cells * sizeof_node_cell + m.total_bytes_free ≡ page_size

-- The page in the file is the manager's, whatever stands behind its cells.
pub record OnDisk (m : NodePageManager) (s : PagerState) : Type 0 where
  pub old_cells : List NodeCell
  pub page : s.file m.pgno ≡ node (header_of m) (m.cells ++ old_cells)
  pub numbered : 1 < m.pgno

-- A manager that is constructed anew from the page is the same.
pub node_page_manager-OnDisk :
    (m : NodePageManager) (s : PagerState)
    → IsValid m
    → OnDisk m s
    → node_page_manager m.pgno s ≡ done m s
unfolding node_page_manager
node_page_manager-OnDisk m s v o =
    let cells : take_or m.num_cells zero_node_cell (m.cells ++ o.old_cells) ≡ m.cells =
      rw v.count (take_or-append zero_node_cell m.cells o.old_cells) in
    let room : m.total_bytes_free % 2 ^ 16 ≡ m.total_bytes_free = omega arith in
    ground (arith, o.page, o.numbered, cells, room)

-- A key that is there stands at its rank.
pub rank_lem :
    (key : ℕ) (cells : List NodeCell)
    → IsSorted (keys cells)
    → has key (keys cells) ≡ true
    → (rank key (keys cells) < length cells) × (get_or (keys cells) (rank key (keys cells)) 0 ≡ key)
rank_lem key cells s e = (
  ground (arith, has-eq-rank key (keys cells) s, length-map (λ (c : NodeCell). c.key) cells),
  ground (arith, has-eq-rank key (keys cells) s),
)
