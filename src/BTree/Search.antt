-- ===== src/BTree/Search.antt =====
-- `find_child_to_traverse`, `find_matching_leaf_cell` and the descents of lib/btree/btree.cpp. A
-- descent has its fuel as an argument: more than the height of the tree is enough.
pub mod Child
use cpplite.Common.{
  ℕ, zero, suc, ◌+◌, ◌-◌, ◌/◌, Bool, true, false, ◌&&◌, List, [], ◌∷◌, ltb, ◌==◌, if◌then◌else◌,
  length, get_or, Option, none, some,
}
use cpplite.Common.Outcome.{Outcome, done, thrown, out_of_fuel}
use cpplite.Common.Sorted.{Found, found, absent, unfinished, search_keys}
use cpplite.Pager.Page.{LeafCell, NodeCell}
use cpplite.Pager.Disk.{M, pure, throw, assert, ◌>>=◌, ◌>>◌}
use cpplite.Pager.Seek.{seek_page, get_page_type}
use cpplite.Pager.Node.{NodePageManager, child_at}
use cpplite.Pager.Node as Node
use cpplite.Pager.Leaf.{LeafPageManager}
use cpplite.Pager.Leaf as Leaf
use cpplite.BTree.Cursor.{CursorStack, is_node, is_leaf, get_node, get_leaf}

-- The loop of `find_child_to_traverse`, by its rounds: no value if it has not ended in them.
unfoldable pub child_bisect : ℕ → ℕ → List ℕ → ℕ → ℕ → Option ℕ
child_bisect zero key keys lo hi = none
child_bisect (suc fuel) key keys lo hi =
    let mid = lo + (hi - lo) / 2 in
    let left = child_bisect fuel key keys lo mid in
    let right = child_bisect fuel key keys (mid + 1) hi in
    if ltb lo hi then (if ltb key (get_or keys mid 0) then left else right) else some lo

abbrev loop_end : Option ℕ → M ℕ
loop_end none = throw out_of_fuel
loop_end (some lo) = pure lo

-- One round for each cell, and one for the last test of `lo < hi`.
unfoldable pub find_child_to_traverse : ℕ → List NodeCell → M ℕ
unfolding child_bisect
find_child_to_traverse target_key cells =
    loop_end (child_bisect (suc (length cells)) target_key (Node.keys cells) 0 (length cells))

abbrev pub hit_and_place : Found → M (Bool × ℕ)
hit_and_place (found i) = pure (true, i)
hit_and_place (absent lo) = pure (false, lo)
hit_and_place unfinished = throw out_of_fuel

unfoldable pub find_matching_leaf_cell : ℕ → List LeafCell → M (Bool × ℕ)
find_matching_leaf_cell target_key cells = hit_and_place (search_keys target_key (Leaf.keys cells))

-- The child that is left of a cell, or behind the last cell the right child.
abbrev pub child_of_index : NodePageManager → ℕ → ℕ
child_of_index m i = if i == m.num_cells then m.right_child else child_at m.cells i

-- The loop of `move_to_key`: whether the key is there, and the new stack.
unfoldable pub descend_key : ℕ → ℕ → ℕ → CursorStack → M (Bool × CursorStack)
descend_key zero key pgno stack = throw out_of_fuel
descend_key (suc fuel) key pgno stack = do
  manager ← seek_page pgno
  page_type ← get_page_type pgno
  let in_node : M (Bool × CursorStack) = (do
    npm ← get_node manager
    idx ← find_child_to_traverse key npm.cells
    assert (npm.num_cells == length npm.cells)
    descend_key fuel key (child_of_index npm idx) ((pgno, idx) ∷ stack))
  let in_leaf : M (Bool × CursorStack) = (do
    lpm ← get_leaf manager
    hit ← find_matching_leaf_cell key lpm.cells
    pure (hit.0, (pgno, hit.1) ∷ stack))
  if is_node page_type then in_node else in_leaf

-- The loop of `move_to_first`, and what stands behind it.
unfoldable pub descend_first : ℕ → ℕ → CursorStack → M CursorStack
descend_first zero pgno stack = throw out_of_fuel
descend_first (suc fuel) pgno stack = do
  page_type ← get_page_type pgno
  let in_leaf : M CursorStack = (do
    manager ← seek_page pgno
    lpm ← get_leaf manager
    assert ((lpm.num_cells == length lpm.cells) && ltb 0 lpm.num_cells)
    pure ((pgno, 0) ∷ stack))
  let in_node : M CursorStack = (do
    manager ← seek_page pgno
    npm ← get_node manager
    assert ((npm.num_cells == length npm.cells) && ltb 0 npm.num_cells)
    descend_first fuel (child_at npm.cells 0) ((pgno, 0) ∷ stack))
  if is_leaf page_type then in_leaf else in_node

-- The loop of `move_to_last`. The index of a right child is the number of cells.
unfoldable pub descend_last : ℕ → ℕ → CursorStack → M CursorStack
descend_last zero pgno stack = throw out_of_fuel
descend_last (suc fuel) pgno stack = do
  page_type ← get_page_type pgno
  let in_leaf : M CursorStack = (do
    manager ← seek_page pgno
    lpm ← get_leaf manager
    assert ((lpm.num_cells == length lpm.cells) && ltb 0 lpm.num_cells)
    pure ((pgno, lpm.num_cells - 1) ∷ stack))
  let in_node : M CursorStack = (do
    manager ← seek_page pgno
    npm ← get_node manager
    assert ((npm.num_cells == length npm.cells) && ltb 0 npm.num_cells)
    descend_last fuel npm.right_child ((pgno, npm.num_cells) ∷ stack))
  if is_leaf page_type then in_leaf else in_node
