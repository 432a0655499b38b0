-- ===== src/BTree/Borrow.antt =====
-- The borrowing of cells from siblings of lib/btree/utils.cpp.
use cpplite.Common.{
  ℕ, ◌+◌, ◌-◌, Bool, true, false, ◌||◌, List, ltb, leb, ◌==◌, if◌then◌else◌, length, get_or,
}
use cpplite.Pager.Page.{zero_leaf_cell, zero_node_cell, null_page}
use cpplite.Pager.Seek.{get_page_type}
use cpplite.Pager.Leaf as Leaf
use cpplite.Pager.Leaf.{LeafPageManager, leaf_page_manager, write_cell, delete_cell}
use cpplite.Pager.Node as Node
use cpplite.Pager.Node.{
  NodePageManager, node_page_manager, insert_node_cell, set_cell_left_child, set_node_right_child,
  delete_node_cell, update_cell_key, child_at,
}
use cpplite.BTree.Split.{insert_child}
use cpplite.BTree.Cursor.{CursorNode, T, pure, assert, ◌>>=◌, ◌>>◌, lift, get_cursor, is_node}

-- The separator of a sibling that is not there is not read.
abbrev pub no_sep : CursorNode
no_sep = (0, 0)

abbrev cell_key : List ℕ → ℕ → ℕ
cell_key keys i = get_or keys i 0

-- What is borrowed from the left sibling is its last cell, from the right one its first.
unfoldable pub move_leaf_cell :
    LeafPageManager → LeafPageManager → NodePageManager → ℕ → Bool → T Bool
move_leaf_cell lpm sibling_lpm sep_npm old_sep_key is_left_sibling = do
  c ← get_cursor
  let borrowed =
      get_or sibling_lpm.cells (if is_left_sibling then sibling_lpm.num_cells - 1 else 0)
        zero_leaf_cell
  sibling' ← lift (delete_cell sibling_lpm borrowed.key)
  assert (leb c.config.leaf_min_cells sibling'.num_cells)
  r ← lift (write_cell lpm borrowed)
  let new_sep_key = cell_key (Leaf.keys sibling'.cells) 0
  let from_left : T Bool = (do
    m ← lift (update_cell_key sep_npm old_sep_key borrowed.key)
    pure true)
  let from_right : T Bool = (do
    assert (ltb borrowed.key new_sep_key)
    m ← lift (update_cell_key sep_npm old_sep_key new_sep_key)
    pure true)
  if is_left_sibling then from_left else from_right

unfoldable pub borrow_leaf_sibling_cell : ℕ → ℕ → CursorNode → Bool → T Bool
unfolding move_leaf_cell
borrow_leaf_sibling_cell curr_pgno sibling_pgno sep is_left_sibling =
    let borrow : LeafPageManager → T Bool = λ sibling_lpm. (do
      lpm ← lift (leaf_page_manager curr_pgno)
      sep_type ← lift (get_page_type sep.0)
      assert (is_node sep_type)
      sep_npm ← lift (node_page_manager sep.0)
      assert (sep_npm.num_cells == length sep_npm.cells)
      assert (ltb sep.1 sep_npm.num_cells)
      assert ((lpm.prev_page == sibling_pgno) || (lpm.next_page == sibling_pgno))
      move_leaf_cell lpm sibling_lpm sep_npm (cell_key (Node.keys sep_npm.cells) sep.1)
          is_left_sibling) in
    let try_sibling : T Bool = (do
      c ← get_cursor
      sibling_lpm ← lift (leaf_page_manager sibling_pgno)
      assert (sibling_lpm.num_cells == length sibling_lpm.cells)
      if leb sibling_lpm.num_cells c.config.leaf_min_cells
          then pure false
          else borrow sibling_lpm) in
    if sibling_pgno == null_page then pure false else try_sibling

-- The sibling behind the child of an index: the right child behind the last cell's, and none behind
-- the right child.
abbrev pub next_sibling_of : NodePageManager → ℕ → ℕ
next_sibling_of npm idx =
    if ltb (idx + 1) npm.num_cells
    then child_at npm.cells (idx + 1)
    else (if idx + 1 == npm.num_cells then npm.right_child else null_page)

-- The index of the parent is asserted to be that of a cell.
unfoldable pub borrow_from_leaf_sibling : CursorNode → ℕ → T Bool
unfolding borrow_leaf_sibling_cell
borrow_from_leaf_sibling parent curr_pgno = do
  parent_type ← lift (get_page_type parent.0)
  assert (is_node parent_type)
  parent_npm ← lift (node_page_manager parent.0)
  assert (parent_npm.num_cells == length parent_npm.cells)
  assert (ltb parent.1 parent_npm.num_cells)
  let has_prev = ltb 0 parent.1
  let prev_sibling = if has_prev then child_at parent_npm.cells (parent.1 - 1) else null_page
  let left_sep : CursorNode = if has_prev then (parent.0, parent.1 - 1) else no_sep
  borrowed ← borrow_leaf_sibling_cell curr_pgno prev_sibling left_sep true
  let from_next =
      borrow_leaf_sibling_cell curr_pgno (next_sibling_of parent_npm parent.1) parent false
  if borrowed then pure true else from_next

unfoldable pub node_cell_from_left :
    NodePageManager → NodePageManager → NodePageManager → CursorNode → T Bool
unfolding insert_child
node_cell_from_left curr_npm sibling_npm parent_npm sep = do
  let sep_key = cell_key (Node.keys parent_npm.cells) sep.1
  let sibling_right_child = sibling_npm.right_child
  let last_sibling_cell = get_or sibling_npm.cells (sibling_npm.num_cells - 1) zero_node_cell
  sibling' ← lift (set_node_right_child sibling_npm last_sibling_cell.left_child)
  sibling_done ← lift (delete_node_cell sibling' last_sibling_cell.key)
  parent' ← lift (update_cell_key parent_npm sep_key last_sibling_cell.key)
  curr' ← insert_child curr_npm sep_key sibling_right_child
  pure true

unfoldable pub node_cell_from_right :
    NodePageManager → NodePageManager → NodePageManager → CursorNode → T Bool
unfolding insert_child
node_cell_from_right curr_npm sibling_npm parent_npm sep = do
  let first_sibling_cell = get_or sibling_npm.cells 0 zero_node_cell
  sibling' ← lift (delete_node_cell sibling_npm first_sibling_cell.key)
  let curr_parent = get_or parent_npm.cells (sep.1 - 1) zero_node_cell
  assert (curr_parent.left_child == curr_npm.pgno)
  parent' ← lift (update_cell_key parent_npm curr_parent.key first_sibling_cell.key)
  curr' ← insert_child curr_npm curr_parent.key curr_npm.right_child
  curr_done ← lift (set_node_right_child curr' first_sibling_cell.left_child)
  pure true

unfoldable pub borrow_node_sibling_cell : ℕ → ℕ → CursorNode → Bool → T Bool
unfolding node_cell_from_left node_cell_from_right
borrow_node_sibling_cell curr_pgno sibling_pgno sep is_left_sibling =
    let borrow : NodePageManager → NodePageManager → T Bool = λ curr_npm sibling_npm. (do
      sep_type ← lift (get_page_type sep.0)
      assert (is_node sep_type)
      parent_npm ← lift (node_page_manager sep.0)
      assert (parent_npm.num_cells == length parent_npm.cells)
      assert (leb sep.1 parent_npm.num_cells)
      if is_left_sibling
          then node_cell_from_left curr_npm sibling_npm parent_npm sep
          else node_cell_from_right curr_npm sibling_npm parent_npm sep) in
    let try_sibling : T Bool = (do
      c ← get_cursor
      curr_npm ← lift (node_page_manager curr_pgno)
      sibling_npm ← lift (node_page_manager sibling_pgno)
      assert (leb c.config.node_min_cells sibling_npm.num_cells)
      if sibling_npm.num_cells == c.config.node_min_cells
          then pure false
          else borrow curr_npm sibling_npm) in
    if sibling_pgno == null_page then pure false else try_sibling

-- A sibling that there is is asserted to be a node.
assert_node_sibling : Bool → ℕ → T (Unit {0})
assert_node_sibling false pgno = pure tt
assert_node_sibling true pgno = do t ← lift (get_page_type pgno); assert (is_node t)

unfoldable pub borrow_from_node_sibling : CursorNode → ℕ → T Bool
unfolding borrow_node_sibling_cell assert_node_sibling
borrow_from_node_sibling parent curr_pgno = do
  parent_type ← lift (get_page_type parent.0)
  assert (is_node parent_type)
  parent_npm ← lift (node_page_manager parent.0)
  assert (parent_npm.num_cells == length parent_npm.cells)
  assert (leb parent.1 parent_npm.num_cells)
  let has_left = ltb 0 parent.1
  let left_sibling = if has_left then child_at parent_npm.cells (parent.1 - 1) else null_page
  let left_sep : CursorNode = if has_left then (parent.0, parent.1 - 1) else no_sep
  assert_node_sibling has_left left_sibling
  let right_sibling = next_sibling_of parent_npm parent.1
  assert_node_sibling (ltb parent.1 parent_npm.num_cells) right_sibling
  borrowed ← borrow_node_sibling_cell curr_pgno left_sibling left_sep true
  let from_right = borrow_node_sibling_cell curr_pgno right_sibling (parent.0, parent.1 + 1) false
  if borrowed then pure true else from_right
