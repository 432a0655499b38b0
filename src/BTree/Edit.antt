-- ===== src/BTree/Edit.antt =====
-- `insert` and `remove` of lib/btree/btree.cpp.
pub mod Rightmost
pub mod Insert
pub mod Remove
use cpplite.Common.{ℕ, not, List, [], ◌∷◌, ltb, leb, ◌==◌, if◌then◌else◌, length, get_or}
use cpplite.Common.Outcome.{assertion, duplicate_key}
use cpplite.Pager.Seek.{get_page_type}
use cpplite.Pager.Overflow.{write_overflow_chain}
use cpplite.Pager.Leaf.{
  LeafPageManager, keys, leaf_page_manager, insert_cell, delete_cell, new_cell,
}
use cpplite.BTree.Move.{move_to_key}
use cpplite.BTree.Split.{split_cursor_leaf}
use cpplite.BTree.Borrow.{borrow_from_leaf_sibling}
use cpplite.BTree.Merge.{merge_with_leaf_sibling}
use cpplite.BTree.Cursor.{
  CursorStack, T, pure, throw, assert, ◌>>=◌, ◌>>◌, lift, get_cursor, set_cursor, is_leaf,
}

-- A leaf that is full is split; the new key is then looked for.
insert_by_split : ℕ → ℕ → List ℕ → T (Unit {0})
insert_by_split fuel key value = do
  record_page ← lift (write_overflow_chain value)
  split_cursor_leaf (new_cell key value record_page)
  found ← move_to_key fuel key
  assert found

insert_at_cursor : ℕ → ℕ → List ℕ → CursorStack → T (Unit {0})
unfolding insert_by_split
insert_at_cursor fuel key value [] = throw assertion
insert_at_cursor fuel key value (curr ∷ stack) = do
  c ← get_cursor
  page_type ← lift (get_page_type curr.0)
  assert (is_leaf page_type)
  lpm ← lift (leaf_page_manager curr.0)
  assert (lpm.num_cells == length lpm.cells)
  let here : T (Unit {0}) = (do r ← lift (insert_cell lpm key value); pure tt)
  let split : T (Unit {0}) = (do
    assert (lpm.num_cells == c.config.leaf_max_cells)
    insert_by_split fuel key value)
  if ltb lpm.num_cells c.config.leaf_max_cells then here else split

unfoldable pub insert : ℕ → ℕ → List ℕ → T (Unit {0})
unfolding insert_at_cursor
insert fuel key value = do
  key_exists ← move_to_key fuel key
  c ← get_cursor
  if key_exists then throw duplicate_key else insert_at_cursor fuel key value c.cursor

-- What `remove` does with a leaf that has too few cells left.
refill : LeafPageManager → ℕ → CursorStack → T (Unit {0})
refill lpm pgno [] = throw assertion
refill lpm pgno (parent ∷ above) = do
  set_cursor above
  c ← get_cursor
  assert (ltb lpm.num_cells c.config.leaf_min_cells)
  borrowed ← borrow_from_leaf_sibling parent pgno
  if borrowed then pure tt else merge_with_leaf_sibling parent pgno

-- The root may have any number of cells.
keep_root : LeafPageManager → CursorStack → T (Unit {0})
keep_root lpm (parent ∷ above) = throw assertion
keep_root lpm [] = do
  c ← get_cursor
  page_type ← lift (get_page_type c.root_pgno)
  assert (is_leaf page_type)

-- The key that was removed is looked for, so that the cursor stands on the next one.
seek_removed : ℕ → ℕ → T (Unit {0})
seek_removed fuel key = do found ← move_to_key fuel key; assert (not found)

remove_at : ℕ → CursorStack → T (Unit {0})
unfolding refill keep_root seek_removed
remove_at fuel [] = throw assertion
remove_at fuel (curr ∷ stack) = do
  set_cursor stack
  c ← get_cursor
  page_type ← lift (get_page_type curr.0)
  assert (is_leaf page_type)
  lpm ← lift (leaf_page_manager curr.0)
  assert (lpm.num_cells == length lpm.cells)
  assert (ltb curr.1 lpm.num_cells)
  let key_to_delete = get_or (keys lpm.cells) curr.1 0
  lpm' ← lift (delete_cell lpm key_to_delete)
  let in_root : T (Unit {0}) = (do
    keep_root lpm' stack
    if lpm'.num_cells == 0 then pure tt else seek_removed fuel key_to_delete)
  let below_root : T (Unit {0}) = (do refill lpm' curr.0 stack; seek_removed fuel key_to_delete)
  if leb c.config.leaf_min_cells lpm'.num_cells
      then seek_removed fuel key_to_delete
      else (if curr.0 == c.root_pgno then in_root else below_root)

unfoldable pub remove : ℕ → T (Unit {0})
unfolding remove_at
remove fuel = do c ← get_cursor; remove_at fuel c.cursor
