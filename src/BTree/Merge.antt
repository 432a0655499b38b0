-- ===== src/BTree/Merge.antt =====
-- The merging of siblings of lib/btree/utils.cpp, and the balancing that goes up from it.
use cpplite.Common.{
  ℕ, ◌+◌, ◌-◌, Bool, true, ◌&&◌, not, List, [], ◌∷◌, ltb, leb, ◌==◌, if◌then◌else◌, length, get_or,
}
use cpplite.Common.Outcome.{assertion}
use cpplite.Pager.Page.{LeafCell, NodeCell, zero_node_cell, null_page}
use cpplite.Pager.FreeList.{insert_freelist}
use cpplite.Pager.Seek.{get_page_type}
use cpplite.Pager.Leaf.{
  LeafPageManager, leaf_page_manager, write_cell, set_prev_page, set_next_page,
}
use cpplite.Pager.Node.{
  NodePageManager, node_page_manager, set_node_right_child, delete_node_cell, child_at,
}
use cpplite.BTree.Split.{insert_child}
use cpplite.BTree.Borrow.{borrow_from_node_sibling}
use cpplite.BTree.Cursor.{
  CursorNode, CursorStack, T, pure, throw, assert, ◌>>=◌, ◌>>◌, lift, get_cursor, set_cursor,
  set_root_pgno, is_node, is_leaf,
}

-- Which pages merge, the left into the right, and the cell of the parent that goes.
pub record Merging : Type 0 where
  pub left_pgno : ℕ
  pub right_pgno : ℕ
  pub sibling_pgno : ℕ
  pub pulldown_cell : NodeCell
  pub fix_right_child : Bool

-- The right child merges with the sibling before it, any other child with the one behind it.
unfoldable pub merging_of : NodePageManager → ℕ → ℕ → Merging
merging_of parent_npm idx curr_pgno =
    let before = get_or parent_npm.cells (idx - 1) zero_node_cell in
    let sibling_is_right_child = idx == parent_npm.num_cells - 1 in
    let sibling_pgno =
      if sibling_is_right_child
      then parent_npm.right_child
      else child_at parent_npm.cells (idx + 1) in
    if idx == parent_npm.num_cells
    then record {
      left_pgno = before.left_child;
      right_pgno = curr_pgno;
      sibling_pgno = before.left_child;
      pulldown_cell = before;
      fix_right_child = true;
    }
    else record {
      left_pgno = curr_pgno;
      right_pgno = sibling_pgno;
      sibling_pgno = sibling_pgno;
      pulldown_cell = get_or parent_npm.cells idx zero_node_cell;
      fix_right_child = sibling_is_right_child;
    }

unfoldable pub insert_cells : NodePageManager → List NodeCell → T NodePageManager
unfolding insert_child
insert_cells npm [] = pure npm
insert_cells npm (cell ∷ cells) = do
  npm' ← insert_child npm cell.key cell.left_child
  insert_cells npm' cells

unfoldable pub merge_with_node_sibling : ℕ → CursorNode → T ℕ
unfolding merging_of insert_cells insert_child
merge_with_node_sibling curr_pgno parent = do
  c ← get_cursor
  curr_type ← lift (get_page_type curr_pgno)
  assert (is_node curr_type)
  parent_type ← lift (get_page_type parent.0)
  assert (is_node parent_type)
  parent_npm ← lift (node_page_manager parent.0)
  assert (parent_npm.num_cells == length parent_npm.cells)
  assert (leb parent.1 parent_npm.num_cells)
  let m = merging_of parent_npm parent.1 curr_pgno
  left_npm ← lift (node_page_manager m.left_pgno)
  right_npm ← lift (node_page_manager m.right_pgno)
  assert (leb (left_npm.num_cells + right_npm.num_cells + 1) c.config.node_max_cells)
  right' ← insert_cells right_npm left_npm.cells
  right_done ← insert_child right' m.pulldown_cell.key left_npm.right_child
  parent' ← lift (delete_node_cell parent_npm m.pulldown_cell.key)
  let fix : T (Unit {0}) = (do
    parent_done ← lift (set_node_right_child parent' m.right_pgno)
    pure tt)
  if m.fix_right_child then fix else pure tt
  lift (insert_freelist m.left_pgno)
  pure m.right_pgno

-- What `balance_node` asserts of the node.
assert_small : ℕ → T (Unit {0})
assert_small node_pgno = do
  c ← get_cursor
  node_type ← lift (get_page_type node_pgno)
  assert (is_node node_type)
  curr_npm ← lift (node_page_manager node_pgno)
  assert (ltb curr_npm.num_cells c.config.node_min_cells)

-- `balance_node`, of the stack that it finds in `cursor_`.
unfoldable pub balance_node : CursorStack → ℕ → T (Unit {0})
unfolding assert_small merge_with_node_sibling
balance_node [] node_pgno = do assert_small node_pgno; throw assertion
balance_node (parent ∷ above) node_pgno = do
  assert_small node_pgno
  set_cursor above
  borrowed ← borrow_from_node_sibling parent node_pgno
  let merge : T (Unit {0}) = (do
    merged_pgno ← merge_with_node_sibling node_pgno parent
    c ← get_cursor
    parent_npm ← lift (node_page_manager parent.0)
    let at_root = c.root_pgno == parent.0
    let shrink : T (Unit {0}) = (do lift (insert_freelist c.root_pgno); set_root_pgno merged_pgno)
    let up = balance_node above parent.0
    if at_root && (parent_npm.num_cells == 0)
        then shrink
        else (if not at_root && ltb parent_npm.num_cells c.config.node_min_cells
            then up
            else pure tt))
  if borrowed then pure tt else merge

unfoldable pub write_all : LeafPageManager → List LeafCell → T LeafPageManager
write_all lpm [] = pure lpm
write_all lpm (cell ∷ cells) = do r ← lift (write_cell lpm cell); write_all r.1 cells

-- The right leaf takes the left one's place in the list of leaves.
unfoldable pub unlink_leaf : ℕ → ℕ → T (Unit {0})
unlink_leaf left_pgno right_pgno = do
  left_lpm ← lift (leaf_page_manager left_pgno)
  right_lpm ← lift (leaf_page_manager right_pgno)
  right' ← lift (set_prev_page right_lpm left_lpm.prev_page)
  let fix_prev : T (Unit {0}) = (do
    prev_type ← lift (get_page_type left_lpm.prev_page)
    assert (is_leaf prev_type)
    left_prev_lpm ← lift (leaf_page_manager left_lpm.prev_page)
    assert (left_prev_lpm.next_page == left_pgno)
    m ← lift (set_next_page left_prev_lpm right_pgno)
    pure tt)
  if left_lpm.prev_page == null_page then pure tt else fix_prev

unfoldable pub merge_with_leaf_sibling : CursorNode → ℕ → T (Unit {0})
unfolding merging_of write_all unlink_leaf balance_node
merge_with_leaf_sibling parent curr_pgno = do
  c ← get_cursor
  assert (not (parent.0 == null_page))
  parent_type ← lift (get_page_type parent.0)
  assert (is_node parent_type)
  curr_type ← lift (get_page_type curr_pgno)
  assert (is_leaf curr_type)
  parent_npm ← lift (node_page_manager parent.0)
  assert (parent_npm.num_cells == length parent_npm.cells)
  assert (leb parent.1 parent_npm.num_cells)
  assert (
      if parent.1 == parent_npm.num_cells
      then parent_npm.right_child == curr_pgno
      else child_at parent_npm.cells parent.1 == curr_pgno)
  let m = merging_of parent_npm parent.1 curr_pgno
  sibling_type ← lift (get_page_type m.sibling_pgno)
  assert (is_leaf sibling_type)
  left_lpm ← lift (leaf_page_manager m.left_pgno)
  right_lpm ← lift (leaf_page_manager m.right_pgno)
  assert (leb (left_lpm.num_cells + right_lpm.num_cells) c.config.leaf_max_cells)
  right' ← write_all right_lpm left_lpm.cells
  sibling_again ← lift (get_page_type m.sibling_pgno)
  assert (is_leaf sibling_again)
  parent' ← lift (delete_node_cell parent_npm m.pulldown_cell.key)
  unlink_leaf m.left_pgno m.right_pgno
  lift (insert_freelist m.left_pgno)
  let at_root = parent.0 == c.root_pgno
  let shrink : T (Unit {0}) = (do lift (insert_freelist c.root_pgno); set_root_pgno m.right_pgno)
  if at_root && (parent'.num_cells == 0)
      then shrink
      else (if not at_root && ltb parent'.num_cells c.config.node_min_cells
          then balance_node c.cursor parent.0
          else pure tt)
