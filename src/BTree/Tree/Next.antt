-- ===== src/BTree/Tree/Next.antt =====
-- `next` goes to the next entry of the tree, or ends behind the last one.
use cpplite.Common.{
  ℕ, zero, suc, ◌+◌, ◌<◌, ◌≡◌, refl, ap, ◌∙◌, arith, true, inl, inr, Bool-cases, List, [], ◌∷◌,
  ◌++◌, ltb, length, length-drop, drop,
}
use native.Mathlib.Numerals.{unary_clauses}
use cpplite.Common.Outcome.{done}
use cpplite.Pager.Page.{LeafCell, NodeCell}
use cpplite.Pager.Seek.Laws.{seek_page_node, seek_page_leaf}
use cpplite.Pager.Leaf.{LeafPageManager}
use cpplite.Pager.Leaf.Valid as LeafValid
use cpplite.Pager.Node.{NodePageManager, child_at, new_cell}
use cpplite.Pager.Node.Valid as NodeValid
use cpplite.BTree.Cursor.{BTreeCursor, CursorStack, ◌>>=◌}
use cpplite.BTree.Search.{child_of_index}
use cpplite.BTree.Move.{next_from, next_ancestor, climb, push_first}
use cpplite.BTree.Tree.{
  Tree, tip, Kids, last, before, page_of, cells_of, height, kids_height, kids_entries, InFile,
  KidsInFile,
}
use cpplite.BTree.Tree.Walk.{
  first_of, enter_kids, push_kids, Filled, KidsFilled, At, AtKids, at_tip, at_branch, at_last,
  at_here, at_later, length-At,
}
use cpplite.BTree.Tree.Climb.{climb-node, KidsFrom, KidsFrom-all, KidsFrom-rest, end_tree}

drop-drop : {A : Type 0} → (i : ℕ) (xs : List A) → drop 1 (drop i xs) ≡ drop (i + 1) xs
drop-drop zero xs = refl
drop-drop (suc i) [] = simp unary_clauses refl
drop-drop (suc i) (x ∷ xs) = simp unary_clauses (simp unary_clauses at (drop-drop i xs))

drop-append : {A : Type 0} → (xs ys : List A) → 0 < length xs → drop 1 (xs ++ ys) ≡ drop 1 xs ++ ys
drop-append [] ys l = absurd (omega (arith, l))
drop-append (x ∷ xs) ys l = refl

drop-append-one : {A : Type 0} → (xs ys : List A) → length xs ≡ 1 → drop 1 (xs ++ ys) ≡ ys
drop-append-one [] ys l = absurd (omega (arith, l))
drop-append-one (x ∷ []) ys l = refl
drop-append-one (x ∷ y ∷ xs) ys l = absurd (omega (arith, l))

child_at-drop :
    (i : ℕ) (xs ys : List NodeCell) (k p : ℕ) → drop i xs ≡ new_cell k p ∷ ys → child_at xs i ≡ p
child_at-drop zero xs ys k p e = ap (λ cs. child_at cs 0) e
child_at-drop (suc i) [] ys k p e = ground (arith, ap length e)
child_at-drop (suc i) (x ∷ xs) ys k p e = child_at-drop i xs ys k p e

child_of_index-first_of :
    (c : BTreeCursor) (m : NodePageManager) (pgno i : ℕ) (ks : Kids)
    → KidsFrom c m pgno i ks
    → child_of_index m i ≡ page_of (first_of ks)
child_of_index-first_of c m pgno i (last t) f = ground (arith, f.4, f.5)
child_of_index-first_of c m pgno i (before t k ks) f =
    ground (arith, f.5, child_at-drop i m.cells (cells_of ks) k (page_of t) f.3)

-- From an ancestor, `next` goes down to the first entry of the next child.
turn :
    (fuel : ℕ) (m : NodePageManager) (pgno i : ℕ) (t : Tree) (k : ℕ) (ks : Kids)
    (above stack : CursorStack) (c : BTreeCursor)
    → KidsFrom c m pgno i (before t k ks)
    → push_first fuel (page_of (first_of ks)) (record c { cursor = (pgno, i + 1) ∷ above })
      ≡ done tt (record c { cursor = stack })
    → (climb ((pgno, i) ∷ above) >>= next_ancestor fuel) c ≡ done true (record c { cursor = stack })
unfolding next_ancestor
turn fuel m pgno i t k ks above stack c f run =
    let (type, manager) = seek_page_node c.pager m f.0 f.1 in
    ground (
      arith,
      f.2,
      type,
      NodeValid.node_page_manager-OnDisk m c.pager f.0 f.1,
      f.5,
      run,
      climb-node m i above c f.0 f.1,
      child_of_index-first_of c m pgno (i + 1) ks (KidsFrom-rest c m pgno i t k ks f),
    )

-- One step of `next`: the cursor then stands on what is left behind the entry that it stood on.
abbrev pub Steps : ℕ → BTreeCursor → Tree → CursorStack → CursorStack → List LeafCell → Type 0
Steps fuel c t above stack rest =
    (stack' : CursorStack) × (next_from fuel stack c ≡ done true (record c { cursor = stack' }))
    × At t above stack' rest

abbrev KidsStep :
    ℕ → BTreeCursor → ℕ → ℕ → Kids → CursorStack → CursorStack → List LeafCell → Type 0
KidsStep fuel c pgno i ks above stack rest =
    (stack' : CursorStack) × (next_from fuel stack c ≡ done true (record c { cursor = stack' }))
    × AtKids pgno i ks above stack' rest

step_tip :
    (fuel : ℕ) (m : LeafPageManager) (above : CursorStack) (i : ℕ) (c : BTreeCursor)
    → InFile c.pager (tip m)
    → 1 < length (drop i m.cells)
    → Steps fuel c (tip m) above ((m.pgno, i) ∷ above) (drop 1 (drop i m.cells))
unfolding next_from InFile
step_tip fuel m above i c f e =
    let (type, manager) = seek_page_leaf c.pager m f.0 f.1 in
    let long = length-drop {0} i m.cells in
    rw (drop-drop i m.cells) (
      (m.pgno, i + 1) ∷ above,
      ground (arith, type, LeafValid.leaf_page_manager-OnDisk m c.pager f.0 f.1, f.0.count, long),
      at_tip m above (i + 1) (omega (arith, long, e)),
    )

-- From the last entry of a child to the first one of the next child.
step_over :
    (fuel : ℕ) (m : NodePageManager) (pgno i : ℕ) (t : Tree) (k : ℕ) (ks : Kids)
    (above stack : CursorStack) (rest : List LeafCell) (c : BTreeCursor)
    → At t ((pgno, i) ∷ above) stack rest
    → KidsInFile c.pager (before t k ks)
    → KidsFilled (before t k ks)
    → KidsFrom c m pgno i (before t k ks)
    → kids_height ks < fuel
    → length rest ≡ 1
    → KidsStep fuel c pgno i (before t k ks) above stack (drop 1 (rest ++ kids_entries ks))
unfolding InFile Filled
step_over fuel m pgno i t k ks above stack rest c a f w g h e =
    let (stack', run, a') =
      push_kids fuel ks (record c { cursor = (pgno, i + 1) ∷ above }) f.1 w.1 h in
    rw (drop-append-one rest (kids_entries ks) e) (
      stack',
      end_tree fuel t ((pgno, i) ∷ above) stack rest c a f.0 w.0 e
          ∙ turn fuel m pgno i t k ks above stack' c g run,
      at_later pgno i t k ks above stack' (kids_entries ks)
          (enter_kids pgno (i + 1) ks above stack' a'),
    )

mutual
  unfolding InFile Filled height

  pub step_tree :
      (fuel : ℕ) (t : Tree) (above stack : CursorStack) (rest : List LeafCell) (c : BTreeCursor)
      → At t above stack rest
      → InFile c.pager t
      → Filled t
      → height t < fuel
      → 1 < length rest
      → Steps fuel c t above stack (drop 1 rest)
  step_tree fuel _ _ _ _ c (at_tip m above i l) f w h e = step_tip fuel m above i c f e
  step_tree fuel _ _ _ _ c (at_branch m ks above stack rest a) f w h e =
      let (stack', run, a') =
        step_kids fuel m m.pgno 0 ks above stack rest c a f.1 w (KidsFrom-all c m ks f.0)
          (omega arith) e in
      (stack', run, at_branch m ks above stack' (drop 1 rest) a')

  step_kids :
      (fuel : ℕ) (m : NodePageManager) (pgno i : ℕ) (ks : Kids) (above stack : CursorStack)
      (rest : List LeafCell) (c : BTreeCursor)
      → AtKids pgno i ks above stack rest
      → KidsInFile c.pager ks
      → KidsFilled ks
      → KidsFrom c m pgno i ks
      → kids_height ks < fuel
      → 1 < length rest
      → KidsStep fuel c pgno i ks above stack (drop 1 rest)
  step_kids fuel m _ _ _ _ _ _ c (at_last pgno i t above stack rest a) f w g h e =
      let (stack', run, a') = step_tree fuel t ((pgno, i) ∷ above) stack rest c a f w h e in
      (stack', run, at_last pgno i t above stack' (drop 1 rest) a')
  step_kids fuel m _ _ _ _ _ _ c (at_here pgno i t k ks above stack rest a) f w g h e =
      elim (Bool-cases (ltb 1 (length rest))) [
        | inr l ↦
            step_over fuel m pgno i t k ks above stack rest c a f w g (omega arith)
              (ground (arith, l, length-At t ((pgno, i) ∷ above) stack rest a))
        | inl l ↦
            let (stack', run, a') =
              step_tree fuel t ((pgno, i) ∷ above) stack rest c a f.0 w.0 (omega arith)
                (ground (arith, l)) in
            rw (drop-append rest (kids_entries ks) (ground (arith, l)))
              (stack', run, at_here pgno i t k ks above stack' (drop 1 rest) a')
      ]
  step_kids fuel m _ _ _ _ _ _ c (at_later pgno i t k ks above stack rest a) f w g h e =
      let (stack', run, a') =
        step_kids fuel m pgno (i + 1) ks above stack rest c a f.1 w.1
          (KidsFrom-rest c m pgno i t k ks g) (omega arith) e in
      (stack', run, at_later pgno i t k ks above stack' (drop 1 rest) a')
