-- ===== src/BTree/Tree/Put/Keys.antt =====
-- The keys of a tree with another leaf, and their order.
use cpplite.Common.{
  ℕ, zero, suc, ◌≤◌, ◌<◌, ◌≡◌, refl, ap, arith, true, false, inl, inr, Bool-cases, List, [], ◌∷◌,
  ltb, ◌==◌, if◌then◌else◌, insert_at, erase_at,
}
use Prim.Native.Nat.{max}
use cpplite.Common.Sorted.{has}
use cpplite.Pager.Leaf as Leaf
use cpplite.Pager.Leaf.{LeafPageManager}
use cpplite.BTree.Tree.{
  Tree, tip, branch, Kids, last, before, height, kids_height, entries, kids_entries, Between,
  Ordered, KidsOrdered, keys_of, leaf_for, kids_leaf_for,
}
use cpplite.BTree.Tree.Order.{has-append, keys-append, has-Ordered, has-KidsOrdered}
use cpplite.BTree.Tree.Put.{put, put_kids}

pub Between-insert_at :
    (lo hi key i : ℕ) (ks : List ℕ)
    → Between lo hi ks
    → lo ≤ key
    → key < hi
    → Between lo hi (insert_at i key ks)
Between-insert_at lo hi key zero ks b l h = (l, h, b)
Between-insert_at lo hi key (suc i) [] b l h = (l, h, tt)
Between-insert_at lo hi key (suc i) (k ∷ ks) b l h =
    (b.0, b.1, Between-insert_at lo hi key i ks b.2 l h)

pub Between-erase_at :
    (lo hi i : ℕ) (ks : List ℕ) → Between lo hi ks → Between lo hi (erase_at i ks)
Between-erase_at lo hi i [] b = b
Between-erase_at lo hi zero (k ∷ ks) b = b.2
Between-erase_at lo hi (suc i) (k ∷ ks) b = (b.0, b.1, Between-erase_at lo hi i ks b.2)

-- The new leaf's keys lie between the bounds that the old one's lie between, if the key does.
abbrev pub BetweenKept : ℕ → LeafPageManager → LeafPageManager → Type 0
BetweenKept key m m' =
    (lo hi : ℕ)
    → lo ≤ key
    → key < hi
    → Between lo hi (Leaf.keys m.cells)
    → Between lo hi (Leaf.keys m'.cells)

mutual
  unfolding put leaf_for Ordered

  pub put-Ordered :
      (key lo hi : ℕ) (m' : LeafPageManager) (t : Tree)
      → Ordered lo hi t
      → lo ≤ key
      → key < hi
      → BetweenKept key (leaf_for key t) m'
      → Ordered lo hi (put key m' t)
  put-Ordered key lo hi m' (tip m) o l h e = e lo hi l h o
  put-Ordered key lo hi m' (branch m ks) o l h e = put_kids-KidsOrdered key lo hi m' ks o l h e

  put_kids-KidsOrdered :
      (key lo hi : ℕ) (m' : LeafPageManager) (ks : Kids)
      → KidsOrdered lo hi ks
      → lo ≤ key
      → key < hi
      → BetweenKept key (kids_leaf_for key ks) m'
      → KidsOrdered lo hi (put_kids key m' ks)
  put_kids-KidsOrdered key lo hi m' (last t) o l h e = (o.0, put-Ordered key lo hi m' t o.1 l h e)
  put_kids-KidsOrdered key lo hi m' (before t k ks) o l h e = elim (Bool-cases (ltb key k)) [
    | inl b ↦ rw b (o.0, o.1, put-Ordered key lo k m' t o.2 l (ground (arith, b)) (rw b at e), o.3)
    | inr b ↦
        rw b
          (o.0, o.1, o.2, put_kids-KidsOrdered key k hi m' ks o.3 (ground (arith, b)) h (rw b at e))
  ]

-- The leaf has the keys that it had, and one more.
abbrev pub HasOneMore : ℕ → ℕ → List ℕ → List ℕ → Type 0
HasOneMore q key old new = has q new ≡ (if key == q then true else has q old)

mutual
  unfolding put leaf_for entries

  pub put-has :
      (q key : ℕ) (m' : LeafPageManager) (t : Tree)
      → HasOneMore q key (Leaf.keys (leaf_for key t).cells) (Leaf.keys m'.cells)
      → HasOneMore q key (keys_of t) (keys_of (put key m' t))
  put-has q key m' (tip m) e = e
  put-has q key m' (branch m ks) e = put_kids-has q key m' ks e

  put_kids-has :
      (q key : ℕ) (m' : LeafPageManager) (ks : Kids)
      → HasOneMore q key (Leaf.keys (kids_leaf_for key ks).cells) (Leaf.keys m'.cells)
      → HasOneMore q key
          (Leaf.keys (kids_entries ks))
          (Leaf.keys (kids_entries (put_kids key m' ks)))
  put_kids-has q key m' (last t) e = put-has q key m' t e
  put_kids-has q key m' (before t k ks) e = elim (Bool-cases (ltb key k)) [
    | inl b ↦
        let new = entries (put key m' t) in
        let e' = put-has q key m' t (rw b at e) in
        rw b (
          ground (
            arith,
            e',
            keys-append (entries t) (kids_entries ks),
            keys-append new (kids_entries ks),
            has-append q (keys_of t) (Leaf.keys (kids_entries ks)),
            has-append q (Leaf.keys new) (Leaf.keys (kids_entries ks)),
          ))
    | inr b ↦
        let new = kids_entries (put_kids key m' ks) in
        let e' = put_kids-has q key m' ks (rw b at e) in
        rw b (
          ground (
            arith,
            e',
            keys-append (entries t) (kids_entries ks),
            keys-append (entries t) new,
            has-append q (keys_of t) (Leaf.keys (kids_entries ks)),
            has-append q (keys_of t) (Leaf.keys new),
          ))
  ]

mutual
  unfolding put leaf_for entries Ordered

  -- In a tree in order, a key that is gone from the leaf is gone from the tree.
  pub put-has-erased :
      (q key lo hi : ℕ) (m' : LeafPageManager) (t : Tree)
      → Ordered lo hi t
      → (has q (Leaf.keys m'.cells)
          ≡ (if key == q then false else has q (Leaf.keys (leaf_for key t).cells)))
      → has q (keys_of (put key m' t)) ≡ (if key == q then false else has q (keys_of t))
  put-has-erased q key lo hi m' (tip m) o e = e
  put-has-erased q key lo hi m' (branch m ks) o e = put_kids-has-erased q key lo hi m' ks o e

  put_kids-has-erased :
      (q key lo hi : ℕ) (m' : LeafPageManager) (ks : Kids)
      → KidsOrdered lo hi ks
      → (has q (Leaf.keys m'.cells)
          ≡ (if key == q then false else has q (Leaf.keys (kids_leaf_for key ks).cells)))
      → has q (Leaf.keys (kids_entries (put_kids key m' ks)))
        ≡ (if key == q then false else has q (Leaf.keys (kids_entries ks)))
  put_kids-has-erased q key lo hi m' (last t) o e = put-has-erased q key lo hi m' t o.1 e
  put_kids-has-erased q key lo hi m' (before t k ks) o e = elim (Bool-cases (ltb key k)) [
    | inl b ↦
        let new = entries (put key m' t) in
        let e' = put-has-erased q key lo k m' t o.2 (rw b at e) in
        let none_behind = has-KidsOrdered key k hi ks o.3 (inl (ground (arith, b))) in
        rw b (
          ground (
            arith,
            e',
            none_behind,
            keys-append (entries t) (kids_entries ks),
            keys-append new (kids_entries ks),
            has-append q (keys_of t) (Leaf.keys (kids_entries ks)),
            has-append q (Leaf.keys new) (Leaf.keys (kids_entries ks)),
          ))
    | inr b ↦
        let new = kids_entries (put_kids key m' ks) in
        let e' = put_kids-has-erased q key k hi m' ks o.3 (rw b at e) in
        let none_before = has-Ordered key lo k t o.2 (inr (ground (arith, b))) in
        rw b (
          ground (
            arith,
            e',
            none_before,
            keys-append (entries t) (kids_entries ks),
            keys-append (entries t) new,
            has-append q (keys_of t) (Leaf.keys (kids_entries ks)),
            has-append q (keys_of t) (Leaf.keys new),
          ))
  ]

mutual
  unfolding put height

  pub height-put : (key : ℕ) (m' : LeafPageManager) (t : Tree) → height (put key m' t) ≡ height t
  height-put key m' (tip m) = refl
  height-put key m' (branch m ks) = ap suc (kids_height-put_kids key m' ks)

  kids_height-put_kids :
      (key : ℕ) (m' : LeafPageManager) (ks : Kids)
      → kids_height (put_kids key m' ks) ≡ kids_height ks
  kids_height-put_kids key m' (last t) = height-put key m' t
  kids_height-put_kids key m' (before t k ks) = elim (Bool-cases (ltb key k)) [
    | inl b ↦ rw b (ap (λ n. max n (kids_height ks)) (height-put key m' t))
    | inr b ↦ rw b (ap (max (height t)) (kids_height-put_kids key m' ks))
  ]
