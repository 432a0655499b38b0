-- ===== src/BTree/Tree/Climb.antt =====
-- The way up of `next`: to the ancestor of which a child on the right is left.
use cpplite.Common.{
  ℕ, zero, suc, ◌+◌, ◌<◌, ◌≡◌, refl, ap, ◌∙◌, arith, List, [], ◌∷◌, ltb, if◌then◌else◌, length,
  length-append, length-drop, drop,
}
use native.Mathlib.Numerals.{unary_clauses}
use cpplite.Common.Outcome.{done}
use cpplite.Pager.Page.{LeafCell}
use cpplite.Pager.Seek.Laws.{seek_page_node, seek_page_leaf}
use cpplite.Pager.Leaf.{LeafPageManager}
use cpplite.Pager.Leaf.Valid as LeafValid
use cpplite.Pager.Node.{NodePageManager}
use cpplite.Pager.Node.Valid as NodeValid
use cpplite.BTree.Cursor.{BTreeCursor, CursorStack, ◌>>=◌}
use cpplite.BTree.Move.{next_from, next_ancestor, climb}
use cpplite.BTree.Tree.{
  Tree, tip, Kids, before, cells_of, last_of, kids_entries, InFile, KidsInFile, NodeInFile,
}
use cpplite.BTree.Tree.Walk.{
  Filled, KidsFilled, At, AtKids, at_tip, at_branch, at_last, at_here, at_later, length-At,
  kids_entries-Filled,
}

pub climb-node :
    (m : NodePageManager) (i : ℕ) (above : CursorStack) (c : BTreeCursor)
    → NodeValid.IsValid m
    → NodeValid.OnDisk m c.pager
    → climb ((m.pgno, i) ∷ above) c ≡ (
        if ltb i m.num_cells
        then done ((m.pgno, i) ∷ above) (record c { cursor = (m.pgno, i) ∷ above })
        else climb above (record c { cursor = (m.pgno, i) ∷ above }))
unfolding climb
climb-node m i above c v o =
    let (type, manager) = seek_page_node c.pager m v o in
    ground (arith, type, NodeValid.node_page_manager-OnDisk m c.pager v o)

climb-set_cursor :
    (above stack : CursorStack) (c : BTreeCursor)
    → climb above (record c { cursor = stack }) ≡ climb above c
unfolding climb
climb-set_cursor [] stack c = refl
climb-set_cursor ((pgno, i) ∷ above) stack c = refl

climb-passed :
    (m : NodePageManager) (pgno i : ℕ) (above : CursorStack) (c : BTreeCursor)
    → NodeValid.IsValid m
    → NodeValid.OnDisk m c.pager
    → pgno ≡ m.pgno
    → i ≡ m.num_cells
    → climb ((pgno, i) ∷ above) c ≡ climb above c
climb-passed m pgno i above c v o p e =
    ground (arith, p, e, climb-node m i above c v o, climb-set_cursor above ((m.pgno, i) ∷ above) c)

-- What is left of a node's children, from an index on.
abbrev pub KidsFrom : BTreeCursor → NodePageManager → ℕ → ℕ → Kids → Type 0
KidsFrom c m pgno i ks =
    NodeValid.IsValid m
    × NodeValid.OnDisk m c.pager
    × (pgno ≡ m.pgno)
    × (drop i m.cells ≡ cells_of ks)
    × (m.right_child ≡ last_of ks)
    × (i + length (cells_of ks) ≡ m.num_cells)

drop-tail :
    {A : Type 0} → (i : ℕ) (xs ys : List A) (x : A) → drop i xs ≡ x ∷ ys → drop (i + 1) xs ≡ ys
drop-tail zero xs ys x p = ap (drop 1) p
drop-tail (suc i) [] ys x p = ground (arith, ap length p)
drop-tail (suc i) (y ∷ xs) ys x p =
    simp unary_clauses (simp unary_clauses at (drop-tail i xs ys x p))

pub KidsFrom-rest :
    (c : BTreeCursor) (m : NodePageManager) (pgno i : ℕ) (t : Tree) (k : ℕ) (ks : Kids)
    → KidsFrom c m pgno i (before t k ks)
    → KidsFrom c m pgno (i + 1) ks
KidsFrom-rest c m pgno i t k ks f =
    (f.0, f.1, f.2, drop-tail i m.cells (cells_of ks) _ f.3, f.4, omega (arith, f.5))

pub KidsFrom-all :
    (c : BTreeCursor) (m : NodePageManager) (ks : Kids)
    → NodeInFile c.pager m ks
    → KidsFrom c m m.pgno 0 ks
KidsFrom-all c m ks f = (f.0, f.1, refl, f.2, f.3, omega (arith, f.0.count, ap length f.2))

-- At the last entry of a tree, `next` goes up.
abbrev pub GoesUp : ℕ → BTreeCursor → CursorStack → CursorStack → Type 0
GoesUp fuel c above stack = next_from fuel stack c ≡ (climb above >>= next_ancestor fuel) c

end_tip :
    (fuel : ℕ) (m : LeafPageManager) (above : CursorStack) (i : ℕ) (c : BTreeCursor)
    → InFile c.pager (tip m)
    → i < length m.cells
    → length (drop i m.cells) ≡ 1
    → GoesUp fuel c above ((m.pgno, i) ∷ above)
unfolding next_from InFile
end_tip fuel m above i c f l e =
    let (type, manager) = seek_page_leaf c.pager m f.0 f.1 in
    ground (
      arith,
      type,
      LeafValid.leaf_page_manager-OnDisk m c.pager f.0 f.1,
      f.0.count,
      length-drop {0} i m.cells,
    )

mutual
  unfolding InFile Filled

  pub end_tree :
      (fuel : ℕ) (t : Tree) (above stack : CursorStack) (rest : List LeafCell) (c : BTreeCursor)
      → At t above stack rest
      → InFile c.pager t
      → Filled t
      → length rest ≡ 1
      → GoesUp fuel c above stack
  end_tree fuel _ _ _ _ c (at_tip m above i l) f w e = end_tip fuel m above i c f l e
  end_tree fuel _ _ _ _ c (at_branch m ks above stack rest a) f w e =
      end_kids fuel m m.pgno 0 ks above stack rest c a f.1 w (KidsFrom-all c m ks f.0) e

  end_kids :
      (fuel : ℕ) (m : NodePageManager) (pgno i : ℕ) (ks : Kids) (above stack : CursorStack)
      (rest : List LeafCell) (c : BTreeCursor)
      → AtKids pgno i ks above stack rest
      → KidsInFile c.pager ks
      → KidsFilled ks
      → KidsFrom c m pgno i ks
      → length rest ≡ 1
      → GoesUp fuel c above stack
  end_kids fuel m _ _ _ _ _ _ c (at_last pgno i t above stack rest a) f w g e =
      end_tree fuel t ((pgno, i) ∷ above) stack rest c a f w e
      ∙ ap (λ o. (◌>>=◌ (λ _. o) (next_ancestor fuel)) c)
          (climb-passed m pgno i above c g.0 g.1 g.2 (omega (arith, g.5)))
  end_kids fuel m _ _ _ _ _ _ c (at_here pgno i t k ks above stack rest a) f w g e = absurd (
      omega (
        arith,
        e,
        length-append {0} rest (kids_entries ks),
        kids_entries-Filled ks w.1,
        length-At t ((pgno, i) ∷ above) stack rest a,
      ))
  end_kids fuel m _ _ _ _ _ _ c (at_later pgno i t k ks above stack rest a) f w g e =
      end_kids fuel m pgno (i + 1) ks above stack rest c a f.1 w.1
        (KidsFrom-rest c m pgno i t k ks g) e
