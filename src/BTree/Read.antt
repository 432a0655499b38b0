-- ===== src/BTree/Read.antt =====
-- The methods of lib/btree/btree.cpp that read where the cursor stands. What the source throws as a
-- pointer is thrown here as the error itself.
use cpplite.Common.{
  ℕ, Bool, false, Option, none, some, List, [], ◌∷◌, ltb, ◌==◌, if◌then◌else◌, length, get_or,
}
use cpplite.Common.Outcome.{assertion, out_of_range, key_not_found}
use cpplite.Pager.Page.{LeafCell, zero_leaf_cell}
use cpplite.Pager.Seek.{get_page_type}
use cpplite.Pager.Leaf.{leaf_page_manager, get_payload}
use cpplite.BTree.Cursor.{
  CursorNode, CursorStack, T, pure, throw, assert, ◌>>=◌, ◌>>◌, lift, get_cursor, is_leaf,
}

unfoldable pub is_empty : T Bool
is_empty = do
  c ← get_cursor
  page_type ← lift (get_page_type c.root_pgno)
  if is_leaf page_type
      then (do lpm ← lift (leaf_page_manager c.root_pgno); pure (lpm.num_cells == 0))
      else pure false

-- `cursor_.top()`, asserted to be there and to be a leaf.
current : CursorStack → T CursorNode
current [] = throw assertion
current ((pgno, idx) ∷ stack) = do
  page_type ← lift (get_page_type pgno)
  assert (is_leaf page_type)
  pure (pgno, idx)

unfoldable pub current_pgno : T ℕ
unfolding current
current_pgno = do c ← get_cursor; curr ← current c.cursor; pure curr.0

-- The cell that the cursor stands on.
unfoldable pub current_cell : T LeafCell
unfolding current
current_cell = do
  c ← get_cursor
  curr ← current c.cursor
  lpm ← lift (leaf_page_manager curr.0)
  if ltb curr.1 (length lpm.cells)
      then pure (get_or lpm.cells curr.1 zero_leaf_cell)
      else throw out_of_range

unfoldable pub current_key : T ℕ
unfolding current_cell
current_key = do cell ← current_cell; pure cell.key

unfoldable pub current_record_pgno : T ℕ
unfolding current_cell
current_record_pgno = do cell ← current_cell; pure cell.record_page

abbrev value_of : Option (List ℕ) → T (List ℕ)
value_of none = throw key_not_found
value_of (some payload) = pure payload

unfoldable pub current_value : ℕ → T (List ℕ)
unfolding current
current_value fuel = do
  c ← get_cursor
  curr ← current c.cursor
  lpm ← lift (leaf_page_manager curr.0)
  assert (ltb curr.1 (length lpm.cells))
  payload ← lift (get_payload fuel lpm (get_or lpm.cells curr.1 zero_leaf_cell).key)
  value_of payload
