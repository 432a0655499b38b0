-- ===== src/BTree/Tree/Put.antt =====
-- A tree with another manager in the place of the leaf that a key's descent comes to.
pub mod Keys
use cpplite.Common.{
  ℕ, zero, suc, ◌≤◌, ◌<◌, ◌≡◌, ◌≢◌, refl, sym, ap, ◌∙◌, arith, Bool, true, false, ◌||◌, inl, inr,
  Bool-cases, List, [], ◌∷◌, ◌++◌, ltb, ◌==◌, if◌then◌else◌, insert_at, erase_at,
}
use Prim.Native.Nat.{max}
use cpplite.Common.Sorted.{has, rank}
use cpplite.Pager.Disk.{PagerState}
use cpplite.Pager.Leaf as Leaf
use cpplite.Pager.Leaf.{LeafPageManager}
use cpplite.Pager.Leaf.Valid as LeafValid
use cpplite.Pager.Node.{new_cell}
use cpplite.BTree.Tree.{
  Tree, tip, branch, Kids, last, before, page_of, cells_of, last_of, height, kids_height, entries,
  kids_entries, InFile, KidsInFile, NodeInFile, Between, Ordered, KidsOrdered, keys_of, leaf_for,
  kids_leaf_for,
}
use cpplite.BTree.Tree.Order.{has-append, keys-append, has-Ordered, has-KidsOrdered}
use cpplite.BTree.Tree.Pages.{
  Pages, KidsPages, Distinct, KidsDistinct, Pages-map, KidsPages-map, Pages-both, KidsPages-both,
  leaf_for-Pages, kids_leaf_for-Pages, InFile-Pages, KidsInFile-Pages,
}

unfoldable mutual
  pub put : ℕ → LeafPageManager → Tree → Tree
  put key m' (tip m) = tip m'
  put key m' (branch m ks) = branch m (put_kids key m' ks)

  pub put_kids : ℕ → LeafPageManager → Kids → Kids
  put_kids key m' (last t) = last (put key m' t)
  put_kids key m' (before t k ks) =
      if ltb key k then before (put key m' t) k ks else before t k (put_kids key m' ks)

module _ (key : ℕ) (m' : LeafPageManager) where
  pub page_of-put :
      (t : Tree) → m'.pgno ≡ (leaf_for key t).pgno → page_of (put key m' t) ≡ page_of t
  unfolding put leaf_for
  page_of-put (tip m) e = e
  page_of-put (branch m ks) e = refl

  -- The cells of a node stay as they are.
  node-put_kids :
      (ks : Kids)
      → m'.pgno ≡ (kids_leaf_for key ks).pgno
      → (cells_of ks ≡ cells_of (put_kids key m' ks)) × (last_of ks ≡ last_of (put_kids key m' ks))
  unfolding put leaf_for
  node-put_kids (last t) e = (refl, sym (page_of-put t e))
  node-put_kids (before t k ks) e = elim (Bool-cases (ltb key k)) [
    | inl l ↦ rw l (ap (λ p. new_cell k p ∷ cells_of ks) (sym (page_of-put t (rw l at e))), refl)
    | inr l ↦
        let (cells, right) = node-put_kids ks (rw l at e) in
        rw l (ap (◌∷◌ (new_cell k (page_of t))) cells, right)
  ]

  module _ (s u : PagerState) (v : LeafValid.IsValid m') (o : LeafValid.OnDisk m' u) where
    abbrev Kept : ℕ → Type 0
    Kept q = q ≢ m'.pgno → u.file q ≡ s.file q

    mutual
      unfolding put leaf_for InFile Pages Distinct

      -- The tree stands in a file that has the new leaf's page and the other pages of the old one.
      pub put-InFile :
          (t : Tree)
          → InFile s t
          → Distinct t
          → Pages Kept t
          → m'.pgno ≡ (leaf_for key t).pgno
          → InFile u (put key m' t)
      put-InFile (tip m) f d same e = (v, o)
      put-InFile (branch m ks) f d same e =
          let (cells, right) = node-put_kids ks e in
          let apart = rw (sym e) at (kids_leaf_for-Pages (λ q. q ≢ m.pgno) key ks d.0) in
          let page = same.0 (λ p. apart (sym p)) in
          (
            (
              f.0.0,
              record {
                old_cells = f.0.1.old_cells;
                page = page ∙ f.0.1.page;
                numbered = f.0.1.numbered;
              },
              f.0.2 ∙ cells,
              f.0.3 ∙ right,
              f.0.4,
            ),
            put_kids-KidsInFile ks f.1 d.1 same.1 e,
          )

      put_kids-KidsInFile :
          (ks : Kids)
          → KidsInFile s ks
          → KidsDistinct ks
          → KidsPages Kept ks
          → m'.pgno ≡ (kids_leaf_for key ks).pgno
          → KidsInFile u (put_kids key m' ks)
      put_kids-KidsInFile (last t) f d same e = put-InFile t f d same e
      put_kids-KidsInFile (before t k ks) f d same e = elim (Bool-cases (ltb key k)) [
        | inl l ↦
            let e' = rw l at e in
            let apart = leaf_for-Pages (λ q. KidsPages (λ r. r ≢ q) ks) key t d.2 in
            let others =
              KidsPages-map _ (λ q. u.file q ≡ s.file q) ks
                (λ q both. both.0 (λ p. both.1 (p ∙ e')))
                (KidsPages-both Kept (λ r. r ≢ (leaf_for key t).pgno) ks same.1 apart) in
            rw l (put-InFile t f.0 d.0 same.0 e', KidsInFile-Pages s u ks others f.1)
        | inr l ↦
            let e' = rw l at e in
            let others =
              Pages-map _ (λ q. u.file q ≡ s.file q) t
                (λ q both.
                  both.0 (λ p. kids_leaf_for-Pages (λ r. r ≢ q) key ks both.1 (sym (p ∙ e'))))
                (Pages-both Kept (λ q. KidsPages (λ r. r ≢ q) ks) t same.0 d.2) in
            rw l (InFile-Pages s u t others f.0, put_kids-KidsInFile ks f.1 d.1 same.1 e')
      ]
