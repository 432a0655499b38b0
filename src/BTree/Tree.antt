-- ===== src/BTree/Tree.antt =====
-- A B+ tree as a tree of page managers, what it is for one to stand in the file, and the order of its
-- keys: those below a cell's child are less than the cell's key, those behind it are not.
pub mod Order
pub mod Descent
pub mod Walk
pub mod Climb
pub mod Next
pub mod First
pub mod Scan
pub mod Pages
pub mod Put
use cpplite.Common.{
  ℕ, zero, suc, ◌+◌, ◌*◌, ◌^◌, ◌≤◌, ◌<◌, ◌≡◌, Bool, true, false, List, [], ◌∷◌, ◌++◌, ltb,
  if◌then◌else◌, length,
}
use Prim.Native.Nat.{max}
use cpplite.Pager.Page.{LeafCell, NodeCell}
use cpplite.Pager.Disk.{PagerState}
use cpplite.Pager.Leaf.{LeafPageManager}
use cpplite.Pager.Leaf as Leaf
use cpplite.Pager.Leaf.Valid as LeafValid
use cpplite.Pager.Node.{NodePageManager, new_cell}
use cpplite.Pager.Node.Valid as NodeValid
use cpplite.BTree.Cursor.{CursorStack}

mutual
  pub data Tree : Type 0 where
    tip : LeafPageManager → Tree
    branch : NodePageManager → Kids → Tree

  -- The children of a node, each but the last with the key of its cell.
  pub data Kids : Type 0 where
    last : Tree → Kids
    before : Tree → ℕ → Kids → Kids

abbrev pub page_of : Tree → ℕ
page_of (tip m) = m.pgno
page_of (branch m ks) = m.pgno

abbrev pub cells_of : Kids → List NodeCell
cells_of (last t) = []
cells_of (before t k ks) = new_cell k (page_of t) ∷ cells_of ks

abbrev pub last_of : Kids → ℕ
last_of (last t) = page_of t
last_of (before t k ks) = last_of ks

unfoldable mutual
  pub height : Tree → ℕ
  height (tip m) = 0
  height (branch m ks) = suc (kids_height ks)

  pub kids_height : Kids → ℕ
  kids_height (last t) = height t
  kids_height (before t k ks) = max (height t) (kids_height ks)

-- The cells of the leaves, from left to right.
unfoldable mutual
  pub entries : Tree → List LeafCell
  entries (tip m) = m.cells
  entries (branch m ks) = kids_entries ks

  pub kids_entries : Kids → List LeafCell
  kids_entries (last t) = entries t
  kids_entries (before t k ks) = entries t ++ kids_entries ks

abbrev pub NodeInFile : PagerState → NodePageManager → Kids → Type 0
NodeInFile s m ks =
    NodeValid.IsValid m
    × NodeValid.OnDisk m s
    × (m.cells ≡ cells_of ks)
    × (m.right_child ≡ last_of ks)
    × (0 < m.num_cells)

-- Each page in the file is the tree's.
unfoldable mutual
  pub InFile : PagerState → Tree → Type 0
  InFile s (tip m) = LeafValid.IsValid m × LeafValid.OnDisk m s
  InFile s (branch m ks) = NodeInFile s m ks × KidsInFile s ks

  pub KidsInFile : PagerState → Kids → Type 0
  KidsInFile s (last t) = InFile s t
  KidsInFile s (before t k ks) = InFile s t × KidsInFile s ks

abbrev pub Between : ℕ → ℕ → List ℕ → Type 0
Between lo hi [] = Unit {0}
Between lo hi (k ∷ ks) = (lo ≤ k) × (k < hi) × Between lo hi ks

-- The keys are from `lo` on and below `hi`.
unfoldable mutual
  pub Ordered : ℕ → ℕ → Tree → Type 0
  Ordered lo hi (tip m) = Between lo hi (Leaf.keys m.cells)
  Ordered lo hi (branch m ks) = KidsOrdered lo hi ks

  pub KidsOrdered : ℕ → ℕ → Kids → Type 0
  KidsOrdered lo hi (last t) = (lo ≤ hi) × Ordered lo hi t
  KidsOrdered lo hi (before t k ks) = (lo ≤ k) × (k ≤ hi) × Ordered lo k t × KidsOrdered k hi ks

abbrev pub keys_of : Tree → List ℕ
keys_of t = Leaf.keys (entries t)

-- The leaf that a descent comes to, and the nodes on its way.
unfoldable mutual
  pub leaf_for : ℕ → Tree → LeafPageManager
  leaf_for key (tip m) = m
  leaf_for key (branch m ks) = kids_leaf_for key ks

  pub kids_leaf_for : ℕ → Kids → LeafPageManager
  kids_leaf_for key (last t) = leaf_for key t
  kids_leaf_for key (before t k ks) = if ltb key k then leaf_for key t else kids_leaf_for key ks

unfoldable mutual
  pub path : ℕ → Tree → CursorStack → CursorStack
  path key (tip m) stack = stack
  path key (branch m ks) stack = kids_path key m.pgno 0 ks stack

  pub kids_path : ℕ → ℕ → ℕ → Kids → CursorStack → CursorStack
  kids_path key pgno i (last t) stack = path key t ((pgno, i) ∷ stack)
  kids_path key pgno i (before t k ks) stack =
      if ltb key k then path key t ((pgno, i) ∷ stack) else kids_path key pgno (suc i) ks stack
