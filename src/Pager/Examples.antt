-- ===== src/Pager/Examples.antt =====
-- A pager with a leaf, a node and two free pages, and the theorems at it.
use cpplite.Common.{ℕ, refl, arith, List, [], ◌∷◌, ◌==◌, if◌then◌else◌}
use cpplite.Common.Sorted.{has, rank}
use cpplite.Pager.Page.{Page, blank, first, free, node, leaf, FirstHeader, LeafCell, NodeCell}
use cpplite.Pager.Disk.{PagerState}
use cpplite.Pager.FreeList.Chain.{FreeList}
use cpplite.Pager.FreeList.Stack
use cpplite.Pager.Overflow.RoundTrip
use cpplite.Pager.Leaf as Leaf
use cpplite.Pager.Leaf.Valid as LeafValid
use cpplite.Pager.Leaf.Delete as LeafDelete
use cpplite.Pager.Leaf.Payload as LeafPayload
use cpplite.Pager.Node as Node
use cpplite.Pager.Node.Valid as NodeValid
use cpplite.Pager.Node.Insert as NodeInsert

abbrev header : FirstHeader
header = record { num_pages = 5; free_page_head = 4; next_oid = 1 }

abbrev two_cells : List LeafCell
two_cells =
    record { payload_size = 0; key = 5; record_page = 0 }
    ∷ record { payload_size = 0; key = 8; record_page = 0 }
    ∷ []

abbrev small_leaf : Leaf.LeafPageManager
small_leaf = record {
  pgno = 2;
  cells = two_cells;
  num_cells = 2;
  total_bytes_free = 4024;
  prev_page = 0;
  next_page = 0;
}

abbrev one_cell : List NodeCell
one_cell = record { key = 5; left_child = 2 } ∷ []

abbrev small_node : Node.NodePageManager
small_node = record {
  pgno = 3;
  cells = one_cell;
  num_cells = 1;
  total_bytes_free = 4048;
  right_child = 2;
}

abbrev sample_file : ℕ → Page
sample_file p =
    if p == 1
    then first header
    else (if p == 2
        then leaf (Leaf.header_of small_leaf) two_cells
        else (if p == 3
            then node (Node.header_of small_node) one_cell
            else (if p == 4 then free 5 else (if p == 5 then free 0 else blank))))

abbrev sample : PagerState
sample = record { file = sample_file; file_pages = 5; total_num_pages = 5 }

abbrev free_pages : List ℕ
free_pages = 4 ∷ 5 ∷ []

sample-FreeList : FreeList sample header free_pages
sample-FreeList = record {
  header = refl;
  head = refl;
  chain = (omega arith, refl, (omega arith, refl, tt));
  distinct = (omega arith, omega arith);
  in_file = omega arith;
}

small_leaf-IsValid : LeafValid.IsValid small_leaf
small_leaf-IsValid = record { count = refl; sorted = omega arith; room = refl }

small_leaf-OnDisk : LeafValid.OnDisk small_leaf sample
small_leaf-OnDisk = record { old_cells = []; page = refl; numbered = omega arith }

small_node-IsValid : NodeValid.IsValid small_node
small_node-IsValid = record { count = refl; sorted = tt; room = refl }

small_node-OnDisk : NodeValid.OnDisk small_node sample
small_node-OnDisk = record { old_cells = []; page = refl; numbered = omega arith }

abbrev cell_seven : LeafCell
cell_seven = record { payload_size = 0; key = 7; record_page = 0 }

abbrev hello : List ℕ
hello = 104 ∷ 105 ∷ []

program : Unit {0}
unfolding has rank
program = tt

insert_freelist-FreeList_example : Stack.Pushes sample header free_pages 3
insert_freelist-FreeList_example =
    Stack.insert_freelist-FreeList sample header free_pages sample-FreeList 3 (omega arith)
      (omega arith) (omega arith)

pop_freelist-FreeList_example : Stack.Pops sample header 4 (5 ∷ [])
pop_freelist-FreeList_example =
    Stack.pop_freelist-FreeList sample header free_pages sample-FreeList 4 (5 ∷ []) refl

create_free_page-FreeList_example : Stack.Appends sample header free_pages
create_free_page-FreeList_example =
    Stack.create_free_page-FreeList sample header free_pages sample-FreeList refl (omega arith)

write_overflow_chain-Stored_example : RoundTrip.Writes hello sample header free_pages
write_overflow_chain-Stored_example =
    RoundTrip.write_overflow_chain-Stored hello sample header free_pages (omega arith)
      sample-FreeList refl (omega arith)

delete_cell-IsValid_example : LeafDelete.CellDeleted small_leaf 5 sample
unfolding program
delete_cell-IsValid_example =
    LeafDelete.delete_cell-IsValid small_leaf 5 sample small_leaf-IsValid small_leaf-OnDisk refl

ready : LeafPayload.CanInsert small_leaf 7 hello sample header free_pages
unfolding program
ready = record {
  valid = small_leaf-IsValid;
  page = small_leaf-OnDisk;
  room = omega arith;
  new_key = refl;
  free_list = sample-FreeList;
  total = refl;
  in_file = omega arith;
  in_use = omega arith;
  short = omega arith;
}

insert_cell-get_payload_example :
    LeafPayload.CellInserted small_leaf 7 hello sample header free_pages
insert_cell-get_payload_example =
    LeafPayload.insert_cell-get_payload small_leaf 7 hello sample header free_pages ready

insert_node_cell-IsValid_example : NodeInsert.CellInserted small_node 9 sample
unfolding program
insert_node_cell-IsValid_example =
    NodeInsert.insert_node_cell-IsValid small_node 9 sample small_node-IsValid small_node-OnDisk
      (omega arith) refl
