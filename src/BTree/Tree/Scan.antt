-- ===== src/BTree/Tree/Scan.antt =====
-- The cursor's walk through a tree that stands in the file: what it reads, and in which order.
use cpplite.Common.{
  ℕ, zero, suc, ◌+◌, ◌≤◌, ◌<◌, ◌≡◌, refl, arith, true, false, List, [], ◌∷◌, ◌++◌, if◌then◌else◌,
  length, drop, get_or,
}
use cpplite.Common.Outcome.{done, out_of_fuel}
use cpplite.Pager.Page.{LeafCell}
use cpplite.Pager.Disk.{PagerState}
use cpplite.Pager.Seek.{seek_page, PageManager, node_manager, leaf_manager}
use cpplite.Pager.Seek.Laws.{seek_page_node, seek_page_leaf}
use cpplite.Pager.Leaf as Leaf
use cpplite.Pager.Leaf.{LeafPageManager}
use cpplite.BTree.Cursor.{BTreeCursor, CursorStack, T, pure, throw, ◌>>=◌, ◌>>◌}
use cpplite.BTree.Move.{move_to_first, next, climb, next_ancestor}
use cpplite.BTree.Read.{current_key}
use cpplite.BTree.Tree.{
  Tree, tip, branch, Kids, page_of, height, entries, kids_entries, InFile, KidsInFile, keys_of,
}
use cpplite.BTree.Tree.Descent.{current_key_lem, Holds}
use cpplite.BTree.Tree.Walk.{
  Filled, At, AtKids, at_tip, at_branch, at_last, at_here, at_later, length-At,
}
use cpplite.BTree.Tree.Climb.{end_tree}
use cpplite.BTree.Tree.Next.{step_tree}
use cpplite.BTree.Tree.First.{first_tree}

abbrev head_key : List LeafCell → ℕ
head_key rest = get_or (Leaf.keys rest) 0 0

head_key-drop :
    (i : ℕ) (cells : List LeafCell) → head_key (drop i cells) ≡ get_or (Leaf.keys cells) i 0
head_key-drop zero cells = refl
head_key-drop (suc i) [] = refl
head_key-drop (suc i) (x ∷ cells) = head_key-drop i cells

head_key-append : (xs ys : List LeafCell) → 0 < length xs → head_key (xs ++ ys) ≡ head_key xs
head_key-append [] ys l = absurd (omega (arith, l))
head_key-append (x ∷ xs) ys l = refl

mutual
  unfolding InFile

  current_key-At :
      (t : Tree) (above stack : CursorStack) (rest : List LeafCell) (c : BTreeCursor)
      → At t above stack rest
      → InFile c.pager t
      → c.cursor ≡ stack
      → current_key c ≡ done (head_key rest) c
  current_key-At _ _ _ _ c (at_tip m above i l) f p =
      rw (head_key-drop i m.cells) (current_key_lem m i above c f.0 f.1 p l)
  current_key-At _ _ _ _ c (at_branch m ks above stack rest a) f p =
      current_key-AtKids m.pgno 0 ks above stack rest c a f.1 p

  current_key-AtKids :
      (pgno i : ℕ) (ks : Kids) (above stack : CursorStack) (rest : List LeafCell) (c : BTreeCursor)
      → AtKids pgno i ks above stack rest
      → KidsInFile c.pager ks
      → c.cursor ≡ stack
      → current_key c ≡ done (head_key rest) c
  current_key-AtKids _ _ _ _ _ _ c (at_last pgno i t above stack rest a) f p =
      current_key-At t ((pgno, i) ∷ above) stack rest c a f p
  current_key-AtKids _ _ _ _ _ _ c (at_here pgno i t k ks above stack rest a) f p =
      rw (head_key-append rest (kids_entries ks) (length-At t ((pgno, i) ∷ above) stack rest a))
        (current_key-At t ((pgno, i) ∷ above) stack rest c a f.0 p)
  current_key-AtKids _ _ _ _ _ _ c (at_later pgno i t k ks above stack rest a) f p =
      current_key-AtKids pgno (i + 1) ks above stack rest c a f.1 p

-- A cursor's tree of which each leaf has a cell, and which is not as high as the fuel.
pub record Walkable (fuel : ℕ) (c : BTreeCursor) (t : Tree) : Type 0 where
  pub holds : Holds c t
  pub filled : Filled t
  pub high : height t < fuel

Walkable-set_cursor :
    (fuel : ℕ) (c : BTreeCursor) (t : Tree) (stack : CursorStack)
    → Walkable fuel c t
    → Walkable fuel (record c { cursor = stack }) t
Walkable-set_cursor fuel c t stack w = record {
  holds = record { in_file = w.holds.in_file; root = w.holds.root; ordered = w.holds.ordered };
  filled = w.filled;
  high = w.high;
}

-- What `next` does when it stands on an entry that others are behind: it goes to the first of them.
abbrev pub NextGoes : ℕ → BTreeCursor → Tree → List LeafCell → Type 0
NextGoes fuel c t [] = next fuel c ≡ done false (record c { cursor = [] })
NextGoes fuel c t (y ∷ behind) =
    (stack : CursorStack) × let c' = record c { cursor = stack } in
      (next fuel c ≡ done true c') × (current_key c' ≡ done y.key c') × At t [] stack (y ∷ behind)

-- In a tree that stands in the file and each of whose leaves has a cell, `next` answers whether there
-- is an entry behind the one that the cursor stands on, given more fuel than the tree is high. If
-- there is one, the cursor then stands on it and reads its key; if not, the cursor is empty. Nothing
-- but the cursor changes.
pub next-At :
    (fuel : ℕ) (c : BTreeCursor) (t : Tree) (x : LeafCell) (behind : List LeafCell)
    → Walkable fuel c t
    → At t [] c.cursor (x ∷ behind)
    → NextGoes fuel c t behind
unfolding next climb next_ancestor
next-At fuel c t x [] w a = end_tree fuel t [] c.cursor (x ∷ []) c a w.holds.in_file w.filled refl
next-At fuel c t x (y ∷ behind) w a =
    let f = w.holds.in_file in
    let (stack, run, a') =
      step_tree fuel t [] c.cursor (x ∷ y ∷ behind) c a f w.filled w.high (omega arith) in
    let c' = record c { cursor = stack } in
    (stack, (run, current_key-At t [] stack (y ∷ behind) c' a' f refl, a'))

-- The keys that `current_key` reads until `next` answers false.
unfoldable pub scan : ℕ → ℕ → T (List ℕ)
scan fuel zero = throw out_of_fuel
scan fuel (suc n) = do
  key ← current_key
  more ← next fuel
  let rest : T (List ℕ) = (do keys ← scan fuel n; pure (key ∷ keys))
  if more then rest else pure (key ∷ [])

scan-At :
    (fuel n : ℕ) (c : BTreeCursor) (t : Tree) (rest : List LeafCell)
    → Walkable fuel c t
    → At t [] c.cursor rest
    → length rest ≤ n
    → scan fuel n c ≡ done (Leaf.keys rest) (record c { cursor = [] })
unfolding scan
scan-At fuel n c t [] w a l = absurd (omega (arith, length-At t [] c.cursor [] a))
scan-At fuel zero c t (x ∷ rest) w a l = absurd (omega (arith, l))
scan-At fuel (suc n) c t (x ∷ []) w a l = ground (
  arith,
  current_key-At t [] c.cursor (x ∷ []) c a w.holds.in_file refl,
  next-At fuel c t x [] w a,
)
scan-At fuel (suc n) c t (x ∷ y ∷ behind) w a l =
    let (stack, (run, key, a')) = next-At fuel c t x (y ∷ behind) w a in
    let c' = record c { cursor = stack } in
    let w' = Walkable-set_cursor fuel c t stack w in
    ground (
      arith,
      current_key-At t [] c.cursor (x ∷ y ∷ behind) c a w.holds.in_file refl,
      run,
      scan-At fuel n c' t (y ∷ behind) w' a' (omega (arith, l)),
    )

seek_page-InFile :
    (t : Tree) (s : PagerState)
    → InFile s t
    → (manager : PageManager) × (seek_page (page_of t) s ≡ done manager s)
unfolding InFile
seek_page-InFile (tip m) s f = (leaf_manager m, (seek_page_leaf s m f.0 f.1).1)
seek_page-InFile (branch m ks) s f = (node_manager m, (seek_page_node s m f.0.0 f.0.1).1)

-- `move_to_first` and then `current_key` and `next`, until `next` answers false, read the keys of all
-- the leaves from left to right, of a tree that stands in the file and each of whose leaves has a
-- cell. The fuel is more than the height of the tree, and the rounds are as many as the entries.
pub move_to_first-scan :
    (fuel : ℕ) (c : BTreeCursor) (t : Tree)
    → Walkable fuel c t
    → (move_to_first fuel >> scan fuel (length (entries t))) c
      ≡ done (keys_of t) (record c { cursor = [] })
unfolding move_to_first
move_to_first-scan fuel c t w =
    let (stack, run, a) = first_tree fuel t [] c.pager w.holds.in_file w.filled w.high in
    let c' = record c { cursor = stack } in
    let w' = Walkable-set_cursor fuel c t stack w in
    ground (
      arith,
      w.holds.root,
      run,
      (seek_page-InFile t c.pager w.holds.in_file).1,
      scan-At fuel (length (entries t)) c' t (entries t) w' a (omega arith),
    )
