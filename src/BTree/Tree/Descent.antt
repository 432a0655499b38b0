-- ===== src/BTree/Tree/Descent.antt =====
-- `move_to_key` in a tree that stands in the file.
use cpplite.Common.{
  ℕ, zero, suc, ◌+◌, ◌^◌, ◌<◌, ◌≡◌, refl, ap, ◌∙◌, arith, inl, inr, Bool-cases, List, [], ◌∷◌, ltb,
  ◌==◌, if◌then◌else◌, length, get_or, length-map,
}
use cpplite.Common.Outcome.{done}
use cpplite.Common.Sorted.{IsSorted, has, rank, search_keys_lem, has-eq-rank}
use cpplite.Pager.Page.{LeafCell, zero_leaf_cell}
use cpplite.Pager.Disk.{PagerState}
use cpplite.Pager.Seek.Laws.{seek_page_node, seek_page_leaf}
use cpplite.Pager.Leaf as Leaf
use cpplite.Pager.Leaf.{LeafPageManager, leaf_page_manager}
use cpplite.Pager.Leaf.Valid as LeafValid
use cpplite.Pager.Node as Node
use cpplite.Pager.Node.{NodePageManager, child_at}
use cpplite.BTree.Cursor.{BTreeCursor, CursorStack}
use cpplite.BTree.Search.{
  descend_key, child_of_index, find_matching_leaf_cell, find_child_to_traverse,
}
use cpplite.BTree.Search.Child.{child_scan, child_scan-le-length, find_child_to_traverse_lem}
use cpplite.BTree.Move.{move_to_key}
use cpplite.BTree.Read.{current_key}
use cpplite.BTree.Tree.{
  Tree, tip, branch, Kids, last, before, page_of, cells_of, last_of, height, kids_height, InFile,
  KidsInFile, NodeInFile, Ordered, keys_of, leaf_for, kids_leaf_for, path, kids_path,
}
use cpplite.BTree.Tree.Order.{has-leaf_for}

-- The child that a descent goes to.
unfoldable pub picked : ℕ → Kids → Tree
picked key (last t) = t
picked key (before t k ks) = if ltb key k then t else picked key ks

child_scan-picked :
    (key : ℕ) (ks : Kids)
    → let i = child_scan key (Node.keys (cells_of ks)) in
      (if i == length (cells_of ks) then last_of ks else child_at (cells_of ks) i)
      ≡ page_of (picked key ks)
unfolding child_scan picked
child_scan-picked key (last t) = refl
child_scan-picked key (before t k ks) =
    ground (arith, child_scan-picked key ks, child_scan-le-length key (Node.keys (cells_of ks)))

kids_path-picked :
    (key pgno i : ℕ) (ks : Kids) (stack : CursorStack)
    → kids_path key pgno i ks stack
      ≡ path key (picked key ks) ((pgno, i + child_scan key (Node.keys (cells_of ks))) ∷ stack)
unfolding path child_scan picked
kids_path-picked key pgno i (last t) stack = ground arith
kids_path-picked key pgno i (before t k ks) stack =
    ground (arith, kids_path-picked key pgno (suc i) ks stack)

kids_leaf_for-picked : (key : ℕ) (ks : Kids) → kids_leaf_for key ks ≡ leaf_for key (picked key ks)
unfolding leaf_for picked
kids_leaf_for-picked key (last t) = refl
kids_leaf_for-picked key (before t k ks) = ground (arith, kids_leaf_for-picked key ks)

-- Where a search of a leaf's cells ends: at the key, or where it would stand.
pub find_matching_leaf_cell_lem :
    (key : ℕ) (cells : List LeafCell) (s : PagerState)
    → IsSorted (Leaf.keys cells)
    → find_matching_leaf_cell key cells s
      ≡ done (has key (Leaf.keys cells), rank key (Leaf.keys cells)) s
unfolding find_matching_leaf_cell
find_matching_leaf_cell_lem key cells s sorted =
    ground (arith, search_keys_lem key (Leaf.keys cells) sorted)

-- What a descent from a tree's page answers.
abbrev Descends : ℕ → ℕ → Tree → CursorStack → PagerState → Type 0
Descends fuel key t stack s =
    let m = leaf_for key t in
    descend_key fuel key (page_of t) stack s
    ≡ done (has key (Leaf.keys m.cells), (m.pgno, rank key (Leaf.keys m.cells)) ∷ path key t stack)
        s

descend_tip :
    (fuel key : ℕ) (m : LeafPageManager) (stack : CursorStack) (s : PagerState)
    → InFile s (tip m)
    → Descends (suc fuel) key (tip m) stack s
unfolding descend_key InFile leaf_for path
descend_tip fuel key m stack s f =
    let (type, manager) = seek_page_leaf s m f.0 f.1 in
    ground (arith, type, manager, find_matching_leaf_cell_lem key m.cells s f.0.sorted)

descend_branch :
    (fuel key : ℕ) (m : NodePageManager) (ks : Kids) (stack : CursorStack) (s : PagerState)
    → NodeInFile s m ks
    → ((stack' : CursorStack) → Descends fuel key (picked key ks) stack' s)
    → Descends (suc fuel) key (branch m ks) stack s
unfolding descend_key leaf_for path
descend_branch fuel key m ks stack s f below =
    let idx = child_scan key (Node.keys (cells_of ks)) in
    let (type, manager) = seek_page_node s m f.0 f.1 in
    let cells = f.2 in
    let found : find_child_to_traverse key m.cells s ≡ done idx s =
      find_child_to_traverse_lem key m.cells s f.0.sorted
      ∙ ap (λ cs. done (child_scan key (Node.keys cs)) s) cells in
    let child : child_of_index m idx ≡ page_of (picked key ks) =
      ground (arith, child_scan-picked key ks, cells, f.0.count, f.3) in
    let start : 0 + idx ≡ idx = omega arith in
    ground (
      arith,
      type,
      manager,
      f.0.count,
      found,
      child,
      start,
      kids_leaf_for-picked key ks,
      kids_path-picked key m.pgno 0 ks stack,
      below ((m.pgno, idx) ∷ stack),
    )

mutual
  unfolding InFile height picked

  pub descend_tree :
      (fuel key : ℕ) (t : Tree) (stack : CursorStack) (s : PagerState)
      → InFile s t
      → height t < fuel
      → Descends fuel key t stack s
  descend_tree zero key t stack s f h = absurd (omega arith)
  descend_tree (suc fuel) key (tip m) stack s f h = descend_tip fuel key m stack s f
  descend_tree (suc fuel) key (branch m ks) stack s f h =
      descend_branch fuel key m ks stack s f.0
        (λ stack'. descend_picked fuel key ks stack' s f.1 (omega arith))

  descend_picked :
      (fuel key : ℕ) (ks : Kids) (stack : CursorStack) (s : PagerState)
      → KidsInFile s ks
      → kids_height ks < fuel
      → Descends fuel key (picked key ks) stack s
  descend_picked fuel key (last t) stack s f h = descend_tree fuel key t stack s f h
  descend_picked fuel key (before t k ks) stack s f h = elim (Bool-cases (ltb key k)) [
    | inl e ↦ rw e (descend_tree fuel key t stack s f.0 (omega arith))
    | inr e ↦ rw e (descend_picked fuel key ks stack s f.1 (omega arith))
  ]

mutual
  unfolding InFile leaf_for

  pub leaf_for-InFile :
      (key : ℕ) (t : Tree) (s : PagerState)
      → InFile s t
      → LeafValid.IsValid (leaf_for key t) × LeafValid.OnDisk (leaf_for key t) s
  leaf_for-InFile key (tip m) s f = f
  leaf_for-InFile key (branch m ks) s f = kids_leaf_for-InFile key ks s f.1

  kids_leaf_for-InFile :
      (key : ℕ) (ks : Kids) (s : PagerState)
      → KidsInFile s ks
      → LeafValid.IsValid (kids_leaf_for key ks) × LeafValid.OnDisk (kids_leaf_for key ks) s
  kids_leaf_for-InFile key (last t) s f = leaf_for-InFile key t s f
  kids_leaf_for-InFile key (before t k ks) s f = elim (Bool-cases (ltb key k)) [
    | inl e ↦ rw e (leaf_for-InFile key t s f.0)
    | inr e ↦ rw e (kids_leaf_for-InFile key ks s f.1)
  ]

pub key-get_or :
    (cells : List LeafCell) (i : ℕ)
    → (get_or cells i zero_leaf_cell).key ≡ get_or (Leaf.keys cells) i 0
key-get_or [] i = refl
key-get_or (c ∷ cs) zero = refl
key-get_or (c ∷ cs) (suc i) = key-get_or cs i

-- With the top of the stack on a cell of a leaf in the file, `current_key` is the cell's key.
pub current_key_lem :
    (m : LeafPageManager) (i : ℕ) (stack : CursorStack) (c : BTreeCursor)
    → LeafValid.IsValid m
    → LeafValid.OnDisk m c.pager
    → c.cursor ≡ (m.pgno, i) ∷ stack
    → i < length m.cells
    → current_key c ≡ done (get_or (Leaf.keys m.cells) i 0) c
unfolding current_key
current_key_lem m i stack c v o p l =
    let (type, manager) = seek_page_leaf c.pager m v o in
    ground (arith, type, LeafValid.leaf_page_manager-OnDisk m c.pager v o, key-get_or m.cells i, p)

-- The tree that a cursor's pages make: they stand in the file, below the root page, in the order of
-- their keys, which are `uint32_t`.
pub record Holds (c : BTreeCursor) (t : Tree) : Type 0 where
  pub in_file : InFile c.pager t
  pub root : page_of t ≡ c.root_pgno
  pub ordered : Ordered 0 (2 ^ 32) t

-- The search answers whether the tree has the key, and then stands on it.
abbrev pub Finds : ℕ → ℕ → BTreeCursor → Tree → Type 0
Finds fuel key c t =
    (stack : CursorStack) × let c' = record c { cursor = stack } in
      (move_to_key fuel key c ≡ done (has key (keys_of t)) c')
      × (current_key c' ≡ (if has key (keys_of t) then done key c' else current_key c'))

-- In a tree that stands in the file `move_to_key` ends, given more fuel than the tree is high. It
-- answers whether a leaf of the tree holds the key, changes nothing but the cursor, and if one does,
-- the cursor stands on a cell with that key.
pub move_to_key-Finds :
    (fuel key : ℕ) (c : BTreeCursor) (t : Tree) → Holds c t → height t < fuel → Finds fuel key c t
unfolding move_to_key
move_to_key-Finds fuel key c t h l =
    let m = leaf_for key t in
    let (v, o) = leaf_for-InFile key t c.pager h.in_file in
    let i = rank key (Leaf.keys m.cells) in
    let stack : CursorStack = (m.pgno, i) ∷ path key t [] in
    let c' : BTreeCursor = record c { cursor = stack } in
    let same = has-leaf_for key 0 (2 ^ 32) t h.ordered in
    (
      stack,
      (
        ground (arith, h.root, same, descend_tree fuel key t [] c.pager h.in_file l),
        ground (
          arith,
          same,
          has-eq-rank key (Leaf.keys m.cells) v.sorted,
          length-map (λ (e : LeafCell). e.key) m.cells,
          current_key_lem m i (path key t []) c' v o refl,
        ),
      ),
    )
