-- ===== src/BTree/Examples.antt =====
-- A small tree that stands in a file, and the theorems at it.
use cpplite.Common.{ℕ, ◌≡◌, refl, arith, if◌then◌else◌, ◌==◌, List, [], ◌∷◌, length}
use cpplite.Common.Sorted.{has, rank}
use cpplite.Common.Outcome.{done, thrown, duplicate_key}
use cpplite.Pager.Page.{Page, blank, first, node, leaf, LeafCell, FirstHeader}
use cpplite.Pager.Disk.{PagerState}
use cpplite.Pager.FreeList.Chain.{FreeList}
use cpplite.Pager.Leaf as Leaf
use cpplite.Pager.Leaf.{LeafPageManager}
use cpplite.Pager.Leaf.Valid as LeafValid
use cpplite.Pager.Node as Node
use cpplite.Pager.Node.{NodePageManager}
use cpplite.Pager.Node.Valid as NodeValid
use cpplite.BTree.Cursor.{BTreeCursor, BTreeConfig, CursorStack, ◌>>◌}
use cpplite.BTree.Search.{find_child_to_traverse}
use cpplite.BTree.Search.Child as Child
use cpplite.BTree.Split.Halves as Halves
use cpplite.BTree.Move.{move_to_first}
use cpplite.BTree.Edit.{insert}
use cpplite.BTree.Edit.Rightmost as Rightmost
use cpplite.BTree.Edit.Insert as Insert
use cpplite.BTree.Edit.Remove as Remove
use cpplite.BTree.Tree.{
  Tree, tip, branch, last, before, InFile, height, entries, keys_of, Ordered, leaf_for,
}
use cpplite.BTree.Tree.Pages.{Pages, Distinct}
use cpplite.BTree.Tree.Descent as Descent
use cpplite.BTree.Tree.Walk.{Filled, At, at_branch, at_here, at_tip}
use cpplite.BTree.Tree.Scan as Scan

abbrev small : BTreeConfig
small = record { node_max_cells = 3; node_min_cells = 1; leaf_max_cells = 3; leaf_min_cells = 2 }

abbrev leaf_cell : ℕ → LeafCell
leaf_cell key = record { payload_size = 0; key = key; record_page = 0 }

abbrev left_leaf : LeafPageManager
left_leaf = record {
  pgno = 2;
  cells = leaf_cell 1 ∷ leaf_cell 3 ∷ [];
  num_cells = 2;
  total_bytes_free = 4024;
  prev_page = 0;
  next_page = 4;
}

abbrev right_leaf : LeafPageManager
right_leaf = record {
  pgno = 4;
  cells = leaf_cell 5 ∷ leaf_cell 8 ∷ [];
  num_cells = 2;
  total_bytes_free = 4024;
  prev_page = 2;
  next_page = 0;
}

abbrev root_node : NodePageManager
root_node = record {
  pgno = 3;
  cells = record { key = 5; left_child = 2 } ∷ [];
  num_cells = 1;
  total_bytes_free = 4048;
  right_child = 4;
}

abbrev small_tree : Tree
small_tree = branch root_node (before (tip left_leaf) 5 (last (tip right_leaf)))

abbrev header : FirstHeader
header = record { num_pages = 4; free_page_head = 0; next_oid = 1 }

abbrev file : ℕ → Page
file p =
    if p == 1
    then first header
    else (if p == 2
        then leaf (Leaf.header_of left_leaf) left_leaf.cells
        else (if p == 3
            then node (Node.header_of root_node) root_node.cells
            else (if p == 4 then leaf (Leaf.header_of right_leaf) right_leaf.cells else blank)))

abbrev pager : PagerState
pager = record { file = file; file_pages = 4; total_num_pages = 4 }

abbrev cursor : BTreeCursor
cursor = record { cursor = (2, 1) ∷ (3, 0) ∷ []; pager = pager; root_pgno = 3; config = small }

left_leaf-IsValid : LeafValid.IsValid left_leaf
left_leaf-IsValid = record { count = refl; sorted = (omega arith, tt); room = refl }

left_leaf-OnDisk : LeafValid.OnDisk left_leaf pager
left_leaf-OnDisk = record { old_cells = []; page = refl; numbered = omega arith }

right_leaf-IsValid : LeafValid.IsValid right_leaf
right_leaf-IsValid = record { count = refl; sorted = (omega arith, tt); room = refl }

right_leaf-OnDisk : LeafValid.OnDisk right_leaf pager
right_leaf-OnDisk = record { old_cells = []; page = refl; numbered = omega arith }

root_node-IsValid : NodeValid.IsValid root_node
root_node-IsValid = record { count = refl; sorted = tt; room = refl }

root_node-OnDisk : NodeValid.OnDisk root_node pager
root_node-OnDisk = record { old_cells = []; page = refl; numbered = omega arith }

small_tree-InFile : InFile pager small_tree
unfolding InFile
small_tree-InFile = (
  (root_node-IsValid, root_node-OnDisk, refl, refl, omega arith),
  ((left_leaf-IsValid, left_leaf-OnDisk), (right_leaf-IsValid, right_leaf-OnDisk)),
)

small_tree-Holds : Descent.Holds cursor small_tree
unfolding Ordered
small_tree-Holds = record {
  in_file = small_tree-InFile;
  root = refl;
  ordered = (
    omega arith,
    omega arith,
    (omega arith, omega arith, (omega arith, omega arith, tt)),
    (omega arith, (omega arith, omega arith, (omega arith, omega arith, tt))),
  );
}

small_tree-Walkable : Scan.Walkable 2 cursor small_tree
unfolding Filled height
small_tree-Walkable = record {
  holds = small_tree-Holds;
  filled = (omega arith, omega arith);
  high = omega arith;
}

find_child_to_traverse_lem_example :
    find_child_to_traverse 5 root_node.cells pager
    ≡ done (Child.child_scan 5 (Node.keys root_node.cells)) pager
find_child_to_traverse_lem_example = Child.find_child_to_traverse_lem 5 root_node.cells pager tt

move_to_key-Finds_example : Descent.Finds 2 8 cursor small_tree
unfolding height
move_to_key-Finds_example =
    Descent.move_to_key-Finds 2 8 cursor small_tree small_tree-Holds (omega arith)

-- The last entry of the left leaf, with the right leaf's behind it.
cursor-At : At small_tree [] cursor.cursor (leaf_cell 3 ∷ leaf_cell 5 ∷ leaf_cell 8 ∷ [])
unfolding entries
cursor-At =
    at_branch root_node (before (tip left_leaf) 5 (last (tip right_leaf))) [] ((2, 1) ∷ (3, 0) ∷ [])
      (leaf_cell 3 ∷ leaf_cell 5 ∷ leaf_cell 8 ∷ [])
      (at_here 3 0 (tip left_leaf) 5 (last (tip right_leaf)) [] ((2, 1) ∷ (3, 0) ∷ [])
        (leaf_cell 3 ∷ []) (at_tip left_leaf ((3, 0) ∷ []) 1 (omega arith)))

next-At_example : Scan.NextGoes 2 cursor small_tree (leaf_cell 5 ∷ leaf_cell 8 ∷ [])
next-At_example =
    Scan.next-At 2 cursor small_tree (leaf_cell 3) (leaf_cell 5 ∷ leaf_cell 8 ∷ [])
      small_tree-Walkable cursor-At

move_to_first-scan_example :
    (move_to_first 2 >> Scan.scan 2 (length (entries small_tree))) cursor
    ≡ done (keys_of small_tree) (record cursor { cursor = [] })
move_to_first-scan_example = Scan.move_to_first-scan 2 cursor small_tree small_tree-Walkable

-- The cursor in the right leaf.
abbrev right_cursor : BTreeCursor
right_cursor = record cursor { cursor = (4, 0) ∷ (3, 1) ∷ [] }

right_cursor-Rightmost : Rightmost.Rightmost right_cursor right_leaf 0 root_node []
right_cursor-Rightmost = record {
  leaf_valid = right_leaf-IsValid;
  leaf_page = right_leaf-OnDisk;
  node_valid = root_node-IsValid;
  node_page = root_node-OnDisk;
  stack = refl;
  child = refl;
  index = omega arith;
  few = omega arith;
  below_root = omega arith;
  apart = omega arith;
}

remove-Rightmost_example : Rightmost.Halfway 2 right_cursor right_leaf 0 []
remove-Rightmost_example =
    Rightmost.remove-Rightmost 2 right_cursor right_leaf 0 root_node [] right_cursor-Rightmost

split_leaf_cell-Halved_example : Halves.LeafSplits left_leaf (leaf_cell 2) pager
unfolding has
split_leaf_cell-Halved_example =
    Halves.split_leaf_cell-Halved left_leaf (leaf_cell 2) pager left_leaf-IsValid left_leaf-OnDisk
      refl (omega arith)

no_free_pages : FreeList pager header []
no_free_pages = record { header = refl; head = refl; chain = tt; distinct = tt; in_file = tt }

two_bytes : List ℕ
two_bytes = 104 ∷ 105 ∷ []

seven-HasRoom : Insert.HasRoom 2 7 two_bytes cursor small_tree header []
unfolding has height entries leaf_for Pages Distinct two_bytes
seven-HasRoom = record {
  holds = small_tree-Holds;
  high = omega arith;
  distinct = ((omega arith, omega arith), (tt, tt, omega arith));
  in_use = (
    (omega arith, omega arith, tt),
    ((omega arith, omega arith, tt), (omega arith, omega arith, tt)),
  );
  uint32 = omega arith;
  new_key = refl;
  few = omega arith;
  can_insert = record {
    valid = right_leaf-IsValid;
    page = right_leaf-OnDisk;
    room = omega arith;
    new_key = refl;
    free_list = no_free_pages;
    total = refl;
    in_file = omega arith;
    in_use = tt;
    short = omega arith;
  };
}

insert-Inserted_example : Insert.Inserted 2 7 two_bytes cursor small_tree header []
insert-Inserted_example =
    Insert.insert-Inserted 2 7 two_bytes cursor small_tree header [] seven-HasRoom

insert_duplicate_example :
    (stack : CursorStack) × (insert 2 8 two_bytes cursor
      ≡ thrown duplicate_key (record cursor { cursor = stack }))
unfolding has height entries
insert_duplicate_example =
    Insert.insert_duplicate 2 8 two_bytes cursor small_tree small_tree-Holds (omega arith) refl

-- With a least number of one cell, the left leaf has one to spare.
abbrev loose_cursor : BTreeCursor
loose_cursor = record cursor {
  config = record {
    node_max_cells = 3;
    node_min_cells = 1;
    leaf_max_cells = 3;
    leaf_min_cells = 1;
  };
}

three-HasSpare : Remove.HasSpare 2 3 ((3, 0) ∷ []) loose_cursor small_tree
unfolding has rank height entries leaf_for Distinct Pages
three-HasSpare = record {
  holds = record {
    in_file = small_tree-Holds.in_file;
    root = small_tree-Holds.root;
    ordered = small_tree-Holds.ordered;
  };
  high = omega arith;
  distinct = ((omega arith, omega arith), (tt, tt, omega arith));
  uint32 = omega arith;
  there = refl;
  stack = refl;
  spare = omega arith;
}

remove-Removed_example : Remove.Removed 2 3 loose_cursor small_tree
remove-Removed_example =
    Remove.remove-Removed 2 3 ((3, 0) ∷ []) loose_cursor small_tree three-HasSpare
