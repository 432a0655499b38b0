-- ===== src/BTree/Move.antt =====
-- The methods of lib/btree/btree.cpp that move the cursor.
use cpplite.Common.{
  ℕ, zero, suc, ◌+◌, ◌-◌, ◌^◌, Bool, true, false, [], ◌∷◌, ltb, ◌==◌, if◌then◌else◌, length,
}
use cpplite.Common.Outcome.{assertion, out_of_fuel}
use cpplite.Pager.Seek.{seek_page, get_page_type}
use cpplite.Pager.Node.{child_at, node_page_manager}
use cpplite.Pager.Leaf.{leaf_page_manager}
use cpplite.BTree.Search.{descend_key, descend_first, descend_last, child_of_index}
use cpplite.BTree.Cursor.{
  CursorStack, T, pure, throw, assert, ◌>>=◌, ◌>>◌, lift, get_cursor, set_cursor, is_node, is_leaf,
}

unfoldable pub move_to_first : ℕ → T (Unit {0})
move_to_first fuel = do
  c ← get_cursor
  manager ← lift (seek_page c.root_pgno)
  new_cursor ← lift (descend_first fuel c.root_pgno [])
  set_cursor new_cursor

-- The root is asserted to be a node.
unfoldable pub move_to_last : ℕ → T (Unit {0})
move_to_last fuel = do
  c ← get_cursor
  manager ← lift (seek_page c.root_pgno)
  page_type ← lift (get_page_type c.root_pgno)
  assert (is_node page_type)
  new_cursor ← lift (descend_last fuel c.root_pgno [])
  set_cursor new_cursor

unfoldable pub move_to_key : ℕ → ℕ → T Bool
move_to_key fuel key = do
  c ← get_cursor
  r ← lift (descend_key fuel key c.root_pgno [])
  set_cursor r.1
  pure r.0

-- The ancestors of which a left subtree is left to descend into.
abbrev pub drop_zeros : CursorStack → CursorStack
drop_zeros [] = []
drop_zeros ((pgno, idx) ∷ stack) = if ltb 0 idx then (pgno, idx) ∷ stack else drop_zeros stack

-- `num_cells - 1`, a `size_t`.
abbrev pub last_index : ℕ → ℕ
last_index num_cells = if num_cells == 0 then 2 ^ 64 - 1 else num_cells - 1

-- The last loop of `prev`: to the rightmost leaf below a page.
unfoldable pub push_last : ℕ → ℕ → T (Unit {0})
push_last zero pgno = throw out_of_fuel
push_last (suc fuel) pgno = do
  page_type ← lift (get_page_type pgno)
  let in_leaf : T (Unit {0}) = (do
    lpm ← lift (leaf_page_manager pgno)
    c ← get_cursor
    set_cursor ((pgno, last_index lpm.num_cells) ∷ c.cursor))
  let in_node : T (Unit {0}) = (do
    npm ← lift (node_page_manager pgno)
    c ← get_cursor
    set_cursor ((pgno, npm.num_cells) ∷ c.cursor)
    push_last fuel npm.right_child)
  if is_leaf page_type then in_leaf else in_node

prev_ancestor : ℕ → CursorStack → T Bool
unfolding push_last
prev_ancestor fuel [] = do set_cursor []; pure false
prev_ancestor fuel ((pgno, idx) ∷ stack) = do
  set_cursor ((pgno, idx - 1) ∷ stack)
  page_type ← lift (get_page_type pgno)
  assert (is_node page_type)
  npm ← lift (node_page_manager pgno)
  push_last fuel (child_at npm.cells (idx - 1))
  pure true

prev_from : ℕ → CursorStack → T Bool
unfolding prev_ancestor
prev_from fuel [] = throw assertion
prev_from fuel ((pgno, idx) ∷ stack) = do
  page_type ← lift (get_page_type pgno)
  assert (is_leaf page_type)
  lpm ← lift (leaf_page_manager pgno)
  assert (length lpm.cells == lpm.num_cells)
  assert (ltb idx (length lpm.cells))
  if ltb 0 idx
      then (do set_cursor ((pgno, idx - 1) ∷ stack); pure true)
      else prev_ancestor fuel (drop_zeros stack)

unfoldable pub prev : ℕ → T Bool
unfolding prev_from
prev fuel = do c ← get_cursor; prev_from fuel c.cursor

-- The first loop of `next`: to the ancestors of which a subtree on the right is left.
unfoldable pub climb : CursorStack → T CursorStack
climb [] = do set_cursor []; pure []
climb ((pgno, idx) ∷ stack) = do
  set_cursor ((pgno, idx) ∷ stack)
  page_type ← lift (get_page_type pgno)
  assert (is_node page_type)
  npm ← lift (node_page_manager pgno)
  if ltb idx npm.num_cells then pure ((pgno, idx) ∷ stack) else climb stack

-- Its last loop: to the leftmost leaf below a page.
unfoldable pub push_first : ℕ → ℕ → T (Unit {0})
push_first zero pgno = throw out_of_fuel
push_first (suc fuel) pgno = do
  page_type ← lift (get_page_type pgno)
  let in_leaf : T (Unit {0}) = (do
    lpm ← lift (leaf_page_manager pgno)
    c ← get_cursor
    set_cursor ((pgno, 0) ∷ c.cursor))
  let in_node : T (Unit {0}) = (do
    npm ← lift (node_page_manager pgno)
    c ← get_cursor
    set_cursor ((pgno, 0) ∷ c.cursor)
    push_first fuel (child_at npm.cells 0))
  if is_leaf page_type then in_leaf else in_node

unfoldable pub next_ancestor : ℕ → CursorStack → T Bool
unfolding push_first
next_ancestor fuel [] = pure false
next_ancestor fuel ((pgno, idx) ∷ stack) = do
  npm ← lift (node_page_manager pgno)
  assert (ltb idx npm.num_cells)
  set_cursor ((pgno, idx + 1) ∷ stack)
  page_type ← lift (get_page_type pgno)
  assert (is_node page_type)
  push_first fuel (child_of_index npm (idx + 1))
  pure true

unfoldable pub next_from : ℕ → CursorStack → T Bool
unfolding climb next_ancestor
next_from fuel [] = throw assertion
next_from fuel ((pgno, idx) ∷ stack) = do
  page_type ← lift (get_page_type pgno)
  assert (is_leaf page_type)
  lpm ← lift (leaf_page_manager pgno)
  assert (length lpm.cells == lpm.num_cells)
  assert (ltb idx lpm.num_cells)
  if ltb idx (lpm.num_cells - 1)
      then (do set_cursor ((pgno, idx + 1) ∷ stack); pure true)
      else (do ancestors ← climb stack; next_ancestor fuel ancestors)

unfoldable pub next : ℕ → T Bool
unfolding next_from
next fuel = do c ← get_cursor; next_from fuel c.cursor
