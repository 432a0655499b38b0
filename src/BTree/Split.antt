-- ===== src/BTree/Split.antt =====
-- The splits of lib/btree/utils.cpp. A result of `write_cell` or `insert_node_cell` that says that
-- there was no room is dropped, as the source drops it.
pub mod Halves
use cpplite.Common.{
  ℕ, zero, suc, ◌+◌, ◌-◌, ◌/◌, Bool, true, false, ◌&&◌, not, Option, none, some, List, [], ◌∷◌,
  ◌++◌, ltb, leb, ◌==◌, if◌then◌else◌, length, take, drop, get_or, head_or,
}
use cpplite.Common.Outcome.{Outcome, done, thrown, assertion}
use cpplite.Pager.Page.{LeafCell, NodeCell, zero_leaf_cell, zero_node_cell, null_page}
use cpplite.Pager.Disk as Disk
use cpplite.Pager.Disk.{M}
use cpplite.Pager.Create.{create_leaf_page, create_node_page}
use cpplite.Pager.Seek.{get_page_type}
use cpplite.Pager.Leaf as Leaf
use cpplite.Pager.Leaf.{
  LeafPageManager, leaf_page_manager, write_cell, set_prev_page, set_next_page,
}
use cpplite.Pager.Node as Node
use cpplite.Pager.Node.{
  NodePageManager, node_page_manager, insert_node_cell, set_cell_left_child, set_node_right_child,
  new_cell, child_at,
}
use cpplite.BTree.Cursor.{
  BTreeCursor, BTreeConfig, CursorNode, CursorStack, T, pure, throw, assert, ◌>>=◌, ◌>>◌, lift,
  get_cursor, set_cursor, set_root_pgno, is_node, is_leaf,
}

-- `std::sort`
unfoldable pub sort_insert : ℕ → List ℕ → List ℕ
sort_insert key [] = key ∷ []
sort_insert key (k ∷ ks) = if leb key k then key ∷ k ∷ ks else k ∷ sort_insert key ks

unfoldable pub sort : List ℕ → List ℕ
sort [] = []
sort (k ∷ ks) = sort_insert k (sort ks)

pub record SplitCellRes (C : Type 0) : Type 0 where
  pub left_keys : List ℕ
  pub right_keys : List ℕ
  pub cell_map : ℕ → C

-- `cell_map[key] = cell` for each cell; a key that is not there reads as a cell of zeros.
unfoldable pub cell_map_of : {C : Type 0} → (C → ℕ) → C → List C → ℕ → C
cell_map_of key_of zero_cell [] key = zero_cell
cell_map_of key_of zero_cell (c ∷ cs) key =
    if key_of c == key then c else cell_map_of key_of zero_cell cs key

abbrev pub halves : {C : Type 0} → List ℕ → ℕ → (ℕ → C) → SplitCellRes C
halves keys left_size cell_map = record {
  left_keys = take left_size keys;
  right_keys = drop left_size keys;
  cell_map = cell_map;
}

-- `split_cell` of a leaf: the new cell is stored last, so that it is looked up first.
unfoldable pub split_leaf_cell : ℕ → LeafCell → M (SplitCellRes LeafCell)
unfolding sort cell_map_of
split_leaf_cell pgno cell = Disk.◌>>=◌ (leaf_page_manager pgno) λ lpm.
    let keys = sort (Leaf.keys lpm.cells ++ (cell.key ∷ [])) in
    Disk.pure (
      halves keys ((length keys + 1) / 2)
        (cell_map_of (λ c. c.key) zero_leaf_cell (cell ∷ lpm.cells)))

-- `split_cell` of a node.
unfoldable pub split_node_cell : ℕ → NodeCell → M (SplitCellRes NodeCell)
unfolding sort cell_map_of
split_node_cell pgno cell = Disk.◌>>=◌ (node_page_manager pgno) λ npm.
    let keys = sort (Node.keys npm.cells ++ (cell.key ∷ [])) in
    Disk.pure
      (halves keys (length keys / 2) (cell_map_of (λ c. c.key) zero_node_cell (cell ∷ npm.cells)))

-- The cell for the parent: it takes the place of the old child, which now is the right one's.
unfoldable pub assign_children_nodes : ℕ → ℕ → CursorNode → ℕ → T NodeCell
assign_children_nodes left_node right_node parent separator_key = do
  page_type ← lift (get_page_type parent.0)
  assert (is_node page_type)
  npm ← lift (node_page_manager parent.0)
  assert (npm.num_cells == length npm.cells)
  let last_key = get_or (Node.keys npm.cells) (npm.num_cells - 1) 0
  let old_parent_key = get_or (Node.keys npm.cells) parent.1 0
  let at_right : T NodeCell = (do
    assert (ltb last_key separator_key)
    m ← lift (set_node_right_child npm right_node)
    pure (new_cell separator_key left_node))
  let at_left : T NodeCell = (do
    assert (ltb separator_key old_parent_key)
    m ← lift (set_cell_left_child npm old_parent_key right_node)
    pure (new_cell separator_key left_node))
  if parent.1 == npm.num_cells then at_right else at_left

unfoldable pub write_each : LeafPageManager → (ℕ → LeafCell) → List ℕ → T LeafPageManager
write_each lpm cell_map [] = pure lpm
write_each lpm cell_map (key ∷ keys) = do
  r ← lift (write_cell lpm (cell_map key))
  write_each r.1 cell_map keys

-- A key and its left child, as each caller puts them into a node.
unfoldable pub insert_child : NodePageManager → ℕ → ℕ → T NodePageManager
insert_child npm key left_child = do
  r ← lift (insert_node_cell npm key)
  lift (set_cell_left_child r.1 key left_child)

unfoldable pub insert_each : NodePageManager → (ℕ → NodeCell) → List ℕ → T NodePageManager
unfolding insert_child
insert_each npm cell_map [] = pure npm
insert_each npm cell_map (key ∷ keys) = do
  npm' ← insert_child npm key (cell_map key).left_child
  insert_each npm' cell_map keys

unfoldable pub new_root : ℕ → ℕ → ℕ → T (Unit {0})
unfolding insert_child
new_root separator_key left_child right_child = do
  new_root_pgno ← lift create_node_page
  root_npm ← lift (node_page_manager new_root_pgno)
  root_npm' ← insert_child root_npm separator_key left_child
  m ← lift (set_node_right_child root_npm' right_child)
  set_root_pgno new_root_pgno

-- `split_cursor_node`, of the stack that it finds in `cursor_`.
unfoldable pub split_cursor_node : CursorStack → NodeCell → T (Unit {0})
unfolding split_node_cell assign_children_nodes insert_each insert_child new_root
split_cursor_node [] new_node_cell = throw assertion
split_cursor_node ((pgno, idx) ∷ stack) new_node_cell = do
  c ← get_cursor
  page_type ← lift (get_page_type pgno)
  assert (is_node page_type)
  curr_npm ← lift (node_page_manager pgno)
  assert (
      (length curr_npm.cells == curr_npm.num_cells)
      && (curr_npm.num_cells == c.config.node_max_cells))
  r ← lift (split_node_cell pgno new_node_cell)
  assert (ltb 0 (length r.right_keys))
  let separator_key = head_or r.right_keys 0
  left_node ← lift create_node_page
  right_node ← lift create_node_page
  left_npm ← lift (node_page_manager left_node)
  right_npm ← lift (node_page_manager right_node)
  left_full ← insert_each left_npm r.cell_map r.left_keys
  left_done ← lift (set_node_right_child left_full (r.cell_map separator_key).left_child)
  right_full ← insert_each right_npm r.cell_map (drop 1 r.right_keys)
  right_done ← lift (set_node_right_child right_full curr_npm.right_child)
  let in_parent : CursorStack → T (Unit {0}) = λ stack'. elim stack' [
    | [] ↦ new_root separator_key left_node right_node
    | parent ∷ above ↦ (do
      parent_type ← lift (get_page_type parent.0)
      assert (is_node parent_type)
      new_parent_node ← assign_children_nodes left_node right_node parent separator_key
      npm ← lift (node_page_manager parent.0)
      let up : T (Unit {0}) = (do set_cursor stack; split_cursor_node stack new_parent_node)
      let here : T (Unit {0}) = (do
        m ← insert_child npm new_parent_node.key new_parent_node.left_child
        pure tt)
      if npm.num_cells == c.config.node_max_cells then up else here)
  ]
  in_parent stack

-- The new leaves take the place of the old one in the list of leaves.
unfoldable pub link_leaves : LeafPageManager → LeafPageManager → ℕ → ℕ → T (Unit {0})
link_leaves left_lpm right_lpm old_prev_page old_next_page = do
  let fix_prev : T (Unit {0}) = (do
    old_prev_lpm ← lift (leaf_page_manager old_prev_page)
    m ← lift (set_next_page old_prev_lpm left_lpm.pgno)
    pure tt)
  let fix_next : T (Unit {0}) = (do
    old_next_lpm ← lift (leaf_page_manager old_next_page)
    m ← lift (set_prev_page old_next_lpm right_lpm.pgno)
    pure tt)
  if old_prev_page == null_page then pure tt else fix_prev
  left' ← lift (set_next_page left_lpm right_lpm.pgno)
  right' ← lift (set_next_page right_lpm old_next_page)
  if old_next_page == null_page then pure tt else fix_next
  right_done ← lift (set_prev_page right' left_lpm.pgno)
  left_done ← lift (set_prev_page left' old_prev_page)
  pure tt

leaf_into_parent : ℕ → ℕ → ℕ → CursorStack → T (Unit {0})
unfolding new_root assign_children_nodes split_cursor_node insert_child
leaf_into_parent separator_key left_leaf right_leaf [] = new_root separator_key left_leaf right_leaf
leaf_into_parent separator_key left_leaf right_leaf (parent ∷ above) = do
  c ← get_cursor
  parent_type ← lift (get_page_type parent.0)
  assert (is_node parent_type)
  new_parent_node ← assign_children_nodes left_leaf right_leaf parent separator_key
  npm ← lift (node_page_manager parent.0)
  let up : T (Unit {0}) = (do
    set_cursor (parent ∷ above)
    split_cursor_node (parent ∷ above) new_parent_node)
  let here : T (Unit {0}) = (do
    m ← insert_child npm new_parent_node.key new_parent_node.left_child
    pure tt)
  if npm.num_cells == c.config.node_max_cells then up else here

unfoldable pub split_leaf_at : CursorStack → LeafCell → T (Unit {0})
unfolding split_leaf_cell write_each link_leaves leaf_into_parent
split_leaf_at [] new_leaf_cell = throw assertion
split_leaf_at ((pgno, idx) ∷ stack) new_leaf_cell = do
  c ← get_cursor
  page_type ← lift (get_page_type pgno)
  assert (is_leaf page_type)
  curr_lpm ← lift (leaf_page_manager pgno)
  assert (
      (length curr_lpm.cells == curr_lpm.num_cells)
      && (curr_lpm.num_cells == c.config.leaf_max_cells))
  r ← lift (split_leaf_cell pgno new_leaf_cell)
  assert (ltb 0 (length r.right_keys))
  left_leaf ← lift create_leaf_page
  right_leaf ← lift create_leaf_page
  left_lpm ← lift (leaf_page_manager left_leaf)
  right_lpm ← lift (leaf_page_manager right_leaf)
  left_full ← write_each left_lpm r.cell_map r.left_keys
  right_full ← write_each right_lpm r.cell_map r.right_keys
  link_leaves left_full right_full curr_lpm.prev_page curr_lpm.next_page
  leaf_into_parent (head_or r.right_keys 0) left_leaf right_leaf stack

unfoldable pub split_cursor_leaf : LeafCell → T (Unit {0})
unfolding split_leaf_at
split_cursor_leaf new_leaf_cell = do c ← get_cursor; split_leaf_at c.cursor new_leaf_cell
