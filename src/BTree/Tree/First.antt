-- ===== src/BTree/Tree/First.antt =====
-- `move_to_first` in a tree that stands in the file.
use cpplite.Common.{ℕ, zero, suc, ◌<◌, ◌≡◌, ap, arith, ◌∷◌, ◌++◌, length}
use cpplite.Common.Outcome.{done}
use cpplite.Pager.Disk.{PagerState}
use cpplite.Pager.Seek.Laws.{seek_page_node, seek_page_leaf}
use cpplite.Pager.Leaf.{LeafPageManager}
use cpplite.Pager.Node.{NodePageManager}
use cpplite.BTree.Cursor.{CursorStack}
use cpplite.BTree.Search.{descend_first}
use cpplite.BTree.Tree.{
  Tree, tip, branch, Kids, last, before, page_of, height, kids_height, entries, kids_entries,
  InFile, KidsInFile, NodeInFile,
}
use cpplite.BTree.Tree.Walk.{Filled, KidsFilled, At, at_tip, at_branch, first_of, enter_kids}

-- The descent to the first leaf below a tree's page.
abbrev pub FirstOf : ℕ → Tree → CursorStack → PagerState → Type 0
FirstOf fuel t above s =
    (stack : CursorStack) × (descend_first fuel (page_of t) above s ≡ done stack s)
    × At t above stack (entries t)

first_tip :
    (fuel : ℕ) (m : LeafPageManager) (above : CursorStack) (s : PagerState)
    → InFile s (tip m)
    → Filled (tip m)
    → FirstOf (suc fuel) (tip m) above s
unfolding descend_first InFile Filled entries
first_tip fuel m above s f w =
    let (type, manager) = seek_page_leaf s m f.0 f.1 in
    ((m.pgno, 0) ∷ above, ground (arith, type, manager, f.0.count, w), at_tip m above 0 w)

first_branch :
    (fuel : ℕ) (m : NodePageManager) (ks : Kids) (above : CursorStack) (s : PagerState)
    → NodeInFile s m ks
    → FirstOf fuel (first_of ks) ((m.pgno, 0) ∷ above) s
    → FirstOf (suc fuel) (branch m ks) above s
unfolding descend_first entries
first_branch fuel m (last t) above s f below = absurd (omega (arith, f.0.count, ap length f.2, f.4))
first_branch fuel m (before t k ks) above s f below =
    let (type, manager) = seek_page_node s m f.0 f.1 in
    let (stack, run, a) = below in
    (
      stack,
      ground (arith, type, manager, f.0.count, f.2, f.4, run),
      at_branch m (before t k ks) above stack (entries t ++ kids_entries ks)
          (enter_kids m.pgno 0 (before t k ks) above stack a),
    )

mutual
  unfolding InFile Filled height

  pub first_tree :
      (fuel : ℕ) (t : Tree) (above : CursorStack) (s : PagerState)
      → InFile s t
      → Filled t
      → height t < fuel
      → FirstOf fuel t above s
  first_tree zero t above s f w h = absurd (omega arith)
  first_tree (suc fuel) (tip m) above s f w h = first_tip fuel m above s f w
  first_tree (suc fuel) (branch m ks) above s f w h =
      first_branch fuel m ks above s f.0
        (first_kid fuel ks ((m.pgno, 0) ∷ above) s f.1 w (omega arith))

  first_kid :
      (fuel : ℕ) (ks : Kids) (above : CursorStack) (s : PagerState)
      → KidsInFile s ks
      → KidsFilled ks
      → kids_height ks < fuel
      → FirstOf fuel (first_of ks) above s
  first_kid fuel (last t) above s f w h = first_tree fuel t above s f w h
  first_kid fuel (before t k ks) above s f w h = first_tree fuel t above s f.0 w.0 (omega arith)
