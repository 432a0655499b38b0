-- ===== src/BTree/Edit/Remove.antt =====
-- `remove` from a leaf that has a cell to spare, in a tree that stands in the file.
use cpplite.Common.{
  ℕ, ◌^◌, ◌<◌, ◌≡◌, ◌≢◌, refl, ◌∙◌, arith, true, false, [], ◌∷◌, ◌==◌, if◌then◌else◌, get_or,
  erase_at, map-erase_at,
}
use cpplite.Common.Outcome.{done}
use cpplite.Common.Sorted.{has, rank}
use cpplite.Pager.Page.{LeafCell}
use cpplite.Pager.Disk.{PagerState}
use cpplite.Pager.Seek.Laws.{seek_page_leaf}
use cpplite.Pager.Leaf as Leaf
use cpplite.Pager.Leaf.{LeafPageManager}
use cpplite.Pager.Leaf.Valid as LeafValid
use cpplite.Pager.Leaf.Delete.{without_key, delete_cell-IsValid, rank_lem}
use cpplite.BTree.Cursor.{BTreeCursor, CursorStack}
use cpplite.BTree.Move.{move_to_key}
use cpplite.BTree.Edit.{remove, seek_removed}
use cpplite.BTree.Tree.{Tree, height, keys_of, leaf_for, path}
use cpplite.BTree.Tree.Order.{has-leaf_for}
use cpplite.BTree.Tree.Descent.{Holds, descend_tree, leaf_for-InFile}
use cpplite.BTree.Tree.Pages.{Distinct, Pages-all}
use cpplite.BTree.Tree.Put.{put, page_of-put, put-InFile}
use cpplite.BTree.Tree.Put.Keys.{put-Ordered, put-has-erased, Between-erase_at, height-put}

-- The cursor stands on a key of the tree, in a leaf that has more cells than the least number.
pub record HasSpare (fuel key : ℕ) (above : CursorStack) (c : BTreeCursor) (t : Tree) : Type 0 where
  pub holds : Holds c t
  pub high : height t < fuel
  pub distinct : Distinct t
  pub uint32 : key < 2 ^ 32
  pub there : has key (keys_of t) ≡ true
  pub stack :
      c.cursor ≡ ((leaf_for key t).pgno, rank key (Leaf.keys (leaf_for key t).cells)) ∷ above
  pub spare : c.config.leaf_min_cells < (leaf_for key t).num_cells

-- After `remove`: the tree has the keys that it had, but for that one.
abbrev pub Removed : ℕ → ℕ → BTreeCursor → Tree → Type 0
Removed fuel key c t =
    (c' : BTreeCursor) × (t' : Tree) × (remove fuel c ≡ done tt c')
    × Holds c' t'
    × ((q : ℕ) → has q (keys_of t') ≡ (if key == q then false else has q (keys_of t)))

module _ (fuel key : ℕ) (above : CursorStack) (c : BTreeCursor) (t : Tree)
    (r : HasSpare fuel key above c t) where
  abbrev old_leaf : LeafPageManager
  old_leaf = leaf_for key t

  abbrev new_leaf : LeafPageManager
  new_leaf = without_key old_leaf key

  abbrev new_tree : Tree
  new_tree = put key new_leaf t

  abbrev in_leaf : has key (Leaf.keys old_leaf.cells) ≡ true
  in_leaf = has-leaf_for key 0 (2 ^ 32) t r.holds.ordered ∙ r.there

  -- The key that the cursor reads.
  key_at : get_or (Leaf.keys old_leaf.cells) (rank key (Leaf.keys old_leaf.cells)) 0 ≡ key
  key_at =
      let (v, o) = leaf_for-InFile key t c.pager r.holds.in_file in
      (rank_lem key old_leaf.cells v.sorted in_leaf).1

  new_keys :
      Leaf.keys new_leaf.cells
      ≡ erase_at (rank key (Leaf.keys old_leaf.cells)) (Leaf.keys old_leaf.cells)
  new_keys =
      map-erase_at (λ (e : LeafCell). e.key) (rank key (Leaf.keys old_leaf.cells)) old_leaf.cells

  -- The tree with the new leaf stands in the file.
  Holds-put :
      (u : PagerState) (stack : CursorStack)
      → LeafValid.IsValid new_leaf
      → LeafValid.OnDisk new_leaf u
      → ((q : ℕ) → u.file q ≡ (if old_leaf.pgno == q then u.file q else c.pager.file q))
      → Holds (record c { cursor = stack; pager = u }) new_tree
  Holds-put u stack v o kept =
      let same =
        Pages-all (λ q. q ≢ old_leaf.pgno → u.file q ≡ c.pager.file q) t
          (λ q ne. ground (arith, kept q, ne)) in
      record {
        in_file = put-InFile key new_leaf c.pager u v o t r.holds.in_file r.distinct same refl;
        root = page_of-put key new_leaf t refl ∙ r.holds.root;
        ordered =
            put-Ordered key 0 (2 ^ 32) new_leaf t r.holds.ordered (omega arith) r.uint32
              (λ lo hi l h b. rw new_keys (
                Between-erase_at lo hi (rank key (Leaf.keys old_leaf.cells))
                  (Leaf.keys old_leaf.cells) b));
      }

  -- The cursor that `remove` leaves: where the key would stand.
  abbrev cursor_after : PagerState → BTreeCursor
  cursor_after u =
      let m = leaf_for key new_tree in
      record c { cursor = (m.pgno, rank key (Leaf.keys m.cells)) ∷ path key new_tree []; pager = u }

  remove-run :
      (u : PagerState)
      → Leaf.delete_cell old_leaf key c.pager ≡ done new_leaf u
      → Holds (record c { cursor = above; pager = u }) new_tree
      → has key (keys_of new_tree) ≡ false
      → remove fuel c ≡ done tt (cursor_after u)
  unfolding remove move_to_key seek_removed
  remove-run u run holds gone =
      let (v, o) = leaf_for-InFile key t c.pager r.holds.in_file in
      let (type, manager) = seek_page_leaf c.pager old_leaf v o in
      let absent = has-leaf_for key 0 (2 ^ 32) new_tree holds.ordered ∙ gone in
      let high : height new_tree < fuel = rw (height-put key new_leaf t) r.high in
      let index = (rank_lem key old_leaf.cells v.sorted in_leaf).0 in
      ground (
        arith,
        r.stack,
        type,
        LeafValid.leaf_page_manager-OnDisk old_leaf c.pager v o,
        v.count,
        key_at,
        index,
        run,
        r.spare,
        holds.root,
        absent,
        descend_tree fuel key new_tree [] u holds.in_file high,
      )

-- `remove` with the cursor on a key of a tree that stands in the file with each page once, in a leaf
-- that has more cells than the least number for a leaf, succeeds, given more fuel than the tree is
-- high. The tree that then stands in the file has the keys that it had but for that one, in order.
pub remove-Removed :
    (fuel key : ℕ) (above : CursorStack) (c : BTreeCursor) (t : Tree)
    → HasSpare fuel key above c t
    → Removed fuel key c t
remove-Removed fuel key above c t r =
    let m = leaf_for key t in
    let (v, o) = leaf_for-InFile key t c.pager r.holds.in_file in
    let (u, run, v', o', same, kept) =
      delete_cell-IsValid m key c.pager v o (in_leaf fuel key above c t r) in
    let keys =
      λ (q : ℕ). put-has-erased q key 0 (2 ^ 32) (without_key m key) t r.holds.ordered (same q) in
    let gone : has key (keys_of (put key (without_key m key) t)) ≡ false =
      ground (arith, keys key) in
    let holds = Holds-put fuel key above c t r u above v' o' kept in
    (
      cursor_after fuel key above c t r u,
      put key (without_key m key) t,
      remove-run fuel key above c t r u run holds gone,
      Holds-put fuel key above c t r u (cursor_after fuel key above c t r u).cursor v' o' kept,
      keys,
    )
