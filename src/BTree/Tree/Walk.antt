-- ===== src/BTree/Tree/Walk.antt =====
-- `next` in a tree that stands in the file: it goes through the entries from left to right.
use cpplite.Common.{
  ℕ, zero, suc, ◌+◌, ◌<◌, ◌≡◌, ap, arith, List, ◌∷◌, ◌++◌, length, length-append, length-drop, drop,
}
use cpplite.Common.Outcome.{done}
use cpplite.Pager.Page.{LeafCell}
use cpplite.Pager.Seek.Laws.{seek_page_node, seek_page_leaf}
use cpplite.Pager.Leaf.{LeafPageManager}
use cpplite.Pager.Leaf.Valid as LeafValid
use cpplite.Pager.Node.{NodePageManager}
use cpplite.Pager.Node.Valid as NodeValid
use cpplite.BTree.Cursor.{BTreeCursor, CursorStack}
use cpplite.BTree.Move.{push_first}
use cpplite.BTree.Tree.{
  Tree, tip, branch, Kids, last, before, page_of, height, kids_height, entries, kids_entries,
  InFile, KidsInFile, NodeInFile,
}

-- Each leaf has a cell.
unfoldable mutual
  pub Filled : Tree → Type 0
  Filled (tip m) = 0 < length m.cells
  Filled (branch m ks) = KidsFilled ks

  pub KidsFilled : Kids → Type 0
  KidsFilled (last t) = Filled t
  KidsFilled (before t k ks) = Filled t × KidsFilled ks

-- The stack of a tree's cursor, over the stack of its ancestors, and the entries from its cell on.
mutual
  pub data At : Tree → CursorStack → CursorStack → List LeafCell → Type 0 where
    at_tip :
        (m : LeafPageManager) (above : CursorStack) (i : ℕ)
        → i < length m.cells
        → At (tip m) above ((m.pgno, i) ∷ above) (drop i m.cells)
    at_branch :
        (m : NodePageManager) (ks : Kids) (above stack : CursorStack) (rest : List LeafCell)
        → AtKids m.pgno 0 ks above stack rest
        → At (branch m ks) above stack rest

  pub data AtKids : ℕ → ℕ → Kids → CursorStack → CursorStack → List LeafCell → Type 0 where
    at_last :
        (pgno i : ℕ) (t : Tree) (above stack : CursorStack) (rest : List LeafCell)
        → At t ((pgno, i) ∷ above) stack rest
        → AtKids pgno i (last t) above stack rest
    at_here :
        (pgno i : ℕ) (t : Tree) (k : ℕ) (ks : Kids) (above stack : CursorStack)
        (rest : List LeafCell)
        → At t ((pgno, i) ∷ above) stack rest
        → AtKids pgno i (before t k ks) above stack (rest ++ kids_entries ks)
    at_later :
        (pgno i : ℕ) (t : Tree) (k : ℕ) (ks : Kids) (above stack : CursorStack)
        (rest : List LeafCell)
        → AtKids pgno (i + 1) ks above stack rest
        → AtKids pgno i (before t k ks) above stack rest

-- Going down to the first cell of a tree puts the cursor on all its entries.
abbrev pub Pushes : ℕ → BTreeCursor → Tree → Type 0
Pushes fuel c t =
    (stack : CursorStack) × (push_first fuel (page_of t) c ≡ done tt (record c { cursor = stack }))
    × At t c.cursor stack (entries t)

abbrev pub first_of : Kids → Tree
first_of (last t) = t
first_of (before t k ks) = t

pub enter_kids :
    (pgno i : ℕ) (ks : Kids) (above stack : CursorStack)
    → At (first_of ks) ((pgno, i) ∷ above) stack (entries (first_of ks))
    → AtKids pgno i ks above stack (kids_entries ks)
unfolding entries
enter_kids pgno i (last t) above stack a = at_last pgno i t above stack (entries t) a
enter_kids pgno i (before t k ks) above stack a = at_here pgno i t k ks above stack (entries t) a

push_tip :
    (fuel : ℕ) (m : LeafPageManager) (c : BTreeCursor)
    → InFile c.pager (tip m)
    → Filled (tip m)
    → Pushes (suc fuel) c (tip m)
unfolding push_first InFile Filled entries
push_tip fuel m c f l =
    let (type, manager) = seek_page_leaf c.pager m f.0 f.1 in
    (
      (m.pgno, 0) ∷ c.cursor,
      ground (arith, type, LeafValid.leaf_page_manager-OnDisk m c.pager f.0 f.1),
      at_tip m c.cursor 0 l,
    )

push_branch :
    (fuel : ℕ) (m : NodePageManager) (ks : Kids) (c : BTreeCursor)
    → NodeInFile c.pager m ks
    → Pushes fuel (record c { cursor = (m.pgno, 0) ∷ c.cursor }) (first_of ks)
    → Pushes (suc fuel) c (branch m ks)
unfolding push_first entries
push_branch fuel m (last t) c f below = absurd (omega (arith, f.0.count, ap length f.2, f.4))
push_branch fuel m (before t k ks) c f below =
    let (type, manager) = seek_page_node c.pager m f.0 f.1 in
    let (stack, run, a) = below in
    (
      stack,
      ground (arith, type, NodeValid.node_page_manager-OnDisk m c.pager f.0 f.1, f.2, run),
      at_branch m (before t k ks) c.cursor stack (entries t ++ kids_entries ks)
          (enter_kids m.pgno 0 (before t k ks) c.cursor stack a),
    )

mutual
  unfolding InFile Filled height

  pub push_tree :
      (fuel : ℕ) (t : Tree) (c : BTreeCursor)
      → InFile c.pager t
      → Filled t
      → height t < fuel
      → Pushes fuel c t
  push_tree zero t c f l h = absurd (omega arith)
  push_tree (suc fuel) (tip m) c f l h = push_tip fuel m c f l
  push_tree (suc fuel) (branch m ks) c f l h =
      push_branch fuel m ks c f.0
        (push_kids fuel ks (record c { cursor = (m.pgno, 0) ∷ c.cursor }) f.1 l (omega arith))

  pub push_kids :
      (fuel : ℕ) (ks : Kids) (c : BTreeCursor)
      → KidsInFile c.pager ks
      → KidsFilled ks
      → kids_height ks < fuel
      → Pushes fuel c (first_of ks)
  push_kids fuel (last t) c f l h = push_tree fuel t c f l h
  push_kids fuel (before t k ks) c f l h = push_tree fuel t c f.0 l.0 (omega arith)

mutual
  unfolding Filled entries

  pub entries-Filled : (t : Tree) → Filled t → 0 < length (entries t)
  entries-Filled (tip m) l = l
  entries-Filled (branch m ks) l = kids_entries-Filled ks l

  pub kids_entries-Filled : (ks : Kids) → KidsFilled ks → 0 < length (kids_entries ks)
  kids_entries-Filled (last t) l = entries-Filled t l
  kids_entries-Filled (before t k ks) l =
      omega (arith, length-append {0} (entries t) (kids_entries ks), entries-Filled t l.0)

mutual
  pub length-At :
      (t : Tree) (above stack : CursorStack) (rest : List LeafCell)
      → At t above stack rest
      → 0 < length rest
  length-At _ _ _ _ (at_tip m above i l) = omega (arith, length-drop {0} i m.cells)
  length-At _ _ _ _ (at_branch m ks above stack rest a) =
      length-AtKids m.pgno 0 ks above stack rest a

  length-AtKids :
      (pgno i : ℕ) (ks : Kids) (above stack : CursorStack) (rest : List LeafCell)
      → AtKids pgno i ks above stack rest
      → 0 < length rest
  length-AtKids _ _ _ _ _ _ (at_last pgno i t above stack rest a) =
      length-At t ((pgno, i) ∷ above) stack rest a
  length-AtKids _ _ _ _ _ _ (at_here pgno i t k ks above stack rest a) = omega (
    arith,
    length-append {0} rest (kids_entries ks),
    length-At t ((pgno, i) ∷ above) stack rest a,
  )
  length-AtKids _ _ _ _ _ _ (at_later pgno i t k ks above stack rest a) =
      length-AtKids pgno (i + 1) ks above stack rest a
