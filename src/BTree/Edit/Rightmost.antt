-- ===== src/BTree/Edit/Rightmost.antt =====
-- `remove` from a leaf that is its parent's right child.
use cpplite.Common.{
  ℕ, zero, suc, ◌≤◌, ◌<◌, ◌≡◌, refl, ◌≢◌, ◌∙◌, arith, true, false, if◌then◌else◌, not, List, [],
  ◌∷◌, ◌==◌, length, get_or, length-map,
}
use cpplite.Common.Outcome.{thrown, assertion}
use cpplite.Common.Sorted.{has}
use cpplite.Pager.Page.{LeafCell}
use cpplite.Pager.Disk.{PagerState}
use cpplite.Pager.Seek.Laws.{seek_page_node, seek_page_leaf}
use cpplite.Pager.Leaf as Leaf
use cpplite.Pager.Leaf.{LeafPageManager}
use cpplite.Pager.Leaf.Valid as LeafValid
use cpplite.Pager.Leaf.Delete.{without_key, delete_cell-IsValid}
use cpplite.Pager.Node.{NodePageManager}
use cpplite.Pager.Node.Valid as NodeValid
use cpplite.BTree.Cursor.{BTreeCursor, CursorStack}
use cpplite.BTree.Borrow.{borrow_from_leaf_sibling}
use cpplite.BTree.Edit.{remove, refill}

-- The index of a right child is none of a cell, and the search for a sibling asserts that it is one.
borrow_from_leaf_sibling-right :
    (m : NodePageManager) (curr_pgno : ℕ) (c : BTreeCursor)
    → NodeValid.IsValid m
    → NodeValid.OnDisk m c.pager
    → borrow_from_leaf_sibling (m.pgno, m.num_cells) curr_pgno c ≡ thrown assertion c
unfolding borrow_from_leaf_sibling
borrow_from_leaf_sibling-right m curr_pgno c v o =
    let (type, manager) = seek_page_node c.pager m v o in
    ground (arith, type, NodeValid.node_page_manager-OnDisk m c.pager v o, v.count)

has-get_or : (i : ℕ) (ks : List ℕ) → i < length ks → has (get_or ks i 0) ks ≡ true
unfolding has
has-get_or i [] l = absurd (omega (arith, l))
has-get_or zero (k ∷ ks) l = ground arith
has-get_or (suc i) (k ∷ ks) l = ground (arith, has-get_or i ks (omega (arith, l)))

-- The cursor stands in the leaf that is its parent's right child, below the root, and the leaf has no
-- cell to spare.
pub record Rightmost (c : BTreeCursor) (m : LeafPageManager) (i : ℕ) (p : NodePageManager)
    (above : CursorStack) : Type 0 where
  pub leaf_valid : LeafValid.IsValid m
  pub leaf_page : LeafValid.OnDisk m c.pager
  pub node_valid : NodeValid.IsValid p
  pub node_page : NodeValid.OnDisk p c.pager
  pub stack : c.cursor ≡ (m.pgno, i) ∷ (p.pgno, p.num_cells) ∷ above
  pub child : p.right_child ≡ m.pgno
  pub index : i < m.num_cells
  pub few : m.num_cells ≤ c.config.leaf_min_cells
  pub below_root : m.pgno ≢ c.root_pgno
  pub apart : p.pgno ≢ m.pgno

-- The state in which `remove` fails: the cell is gone from the page of the leaf.
abbrev pub Halfway : ℕ → BTreeCursor → LeafPageManager → ℕ → CursorStack → Type 0
Halfway fuel c m i above =
    let key = get_or (Leaf.keys m.cells) i 0 in
    (t : PagerState) × (m' : LeafPageManager) × (remove fuel c
      ≡ thrown assertion (record c { cursor = above; pager = t }))
    × LeafValid.IsValid m'
    × LeafValid.OnDisk m' t
    × (m'.pgno ≡ m.pgno)
    × ((q : ℕ)
        → has q (Leaf.keys m'.cells) ≡ (if key == q then false else has q (Leaf.keys m.cells)))
    × ((q : ℕ) → q ≢ m.pgno → t.file q ≡ c.pager.file q)

-- With the cursor in a leaf that is the right child of its parent, and that has no more cells than the
-- least number for a leaf, the leaf and the parent being well formed and on their pages, `remove` fails at
-- an assertion. On the disk the leaf's page is then that of a well-formed leaf with the keys that it had
-- but for the one at the cursor, and no other page is changed.
pub remove-Rightmost :
    (fuel : ℕ) (c : BTreeCursor) (m : LeafPageManager) (i : ℕ) (p : NodePageManager)
    (above : CursorStack)
    → Rightmost c m i p above
    → Halfway fuel c m i above
unfolding remove refill
remove-Rightmost fuel c m i p above r =
    let key = get_or (Leaf.keys m.cells) i 0 in
    let v = r.leaf_valid in
    let o = r.leaf_page in
    let there =
      has-get_or i (Leaf.keys m.cells)
        (omega (arith, r.index, v.count, length-map (λ (e : LeafCell). e.key) m.cells)) in
    let (t, deleted, v', o', same, kept) = delete_cell-IsValid m key c.pager v o there in
    let ne : not (m.pgno == p.pgno) ≡ true = ground (arith, r.apart) in
    let page : t.file p.pgno ≡ c.pager.file p.pgno = ground (arith, kept p.pgno, ne) in
    let parent : NodeValid.OnDisk p t = record {
      old_cells = r.node_page.old_cells;
      page = page ∙ r.node_page.page;
      numbered = r.node_page.numbered;
    } in
    let (type, manager) = seek_page_leaf c.pager m v o in
    let borrow =
      borrow_from_leaf_sibling-right p m.pgno (record c { cursor = above; pager = t }) r.node_valid
        parent in
    (
      t,
      without_key m key,
      ground (
        arith,
        r.stack,
        type,
        LeafValid.leaf_page_manager-OnDisk m c.pager v o,
        v.count,
        r.index,
        deleted,
        r.few,
        r.below_root,
        borrow,
      ),
      v',
      o',
      refl,
      same,
      λ q n. ground (arith, kept q, n),
    )
