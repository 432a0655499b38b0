-- ===== src/BTree/Tree/Order.antt =====
-- In an ordered tree the leaf that a descent comes to holds the key if any leaf does.
use cpplite.Common.{ℕ, ◌≤◌, ◌<◌, ◌≡◌, refl, arith, false, ◌||◌, ◌⊎◌, List, [], ◌∷◌, ◌++◌}
use mathlib.Core.List.{map-append}
use cpplite.Common.Sorted.{has}
use cpplite.Pager.Page.{LeafCell}
use cpplite.Pager.Leaf.{keys}
use cpplite.BTree.Tree.{
  Tree, tip, branch, Kids, last, before, entries, kids_entries, Ordered, KidsOrdered, Between,
  leaf_for, kids_leaf_for, keys_of,
}

pub has-append : (key : ℕ) (xs ys : List ℕ) → has key (xs ++ ys) ≡ (has key xs || has key ys)
unfolding has
has-append key [] ys = refl
has-append key (x ∷ xs) ys = ground (arith, has-append key xs ys)

pub keys-append : (xs ys : List LeafCell) → keys (xs ++ ys) ≡ keys xs ++ keys ys
keys-append xs ys = map-append _ xs ys

has-Between :
    (key lo hi : ℕ) (ks : List ℕ) → Between lo hi ks → (key < lo) ⊎ (hi ≤ key) → has key ks ≡ false
unfolding has
has-Between key lo hi [] b o = refl
has-Between key lo hi (k ∷ ks) b o = ground (arith, has-Between key lo hi ks b.2 o)

mutual
  unfolding Ordered entries

  -- A tree has no key outside its bounds.
  pub has-Ordered :
      (key lo hi : ℕ) (t : Tree)
      → Ordered lo hi t
      → (key < lo) ⊎ (hi ≤ key)
      → has key (keys_of t) ≡ false
  has-Ordered key lo hi (tip m) o out = has-Between key lo hi (keys m.cells) o out
  has-Ordered key lo hi (branch m ks) o out = has-KidsOrdered key lo hi ks o out

  pub has-KidsOrdered :
      (key lo hi : ℕ) (ks : Kids)
      → KidsOrdered lo hi ks
      → (key < lo) ⊎ (hi ≤ key)
      → has key (keys (kids_entries ks)) ≡ false
  has-KidsOrdered key lo hi (last t) o out = has-Ordered key lo hi t o.1 out
  has-KidsOrdered key lo hi (before t k ks) o out = ground (
    arith,
    keys-append (entries t) (kids_entries ks),
    has-append key (keys_of t) (keys (kids_entries ks)),
    has-Ordered key lo k t o.2 (ground arith),
    has-KidsOrdered key k hi ks o.3 (ground arith),
  )

mutual
  unfolding Ordered entries leaf_for

  pub has-leaf_for :
      (key lo hi : ℕ) (t : Tree)
      → Ordered lo hi t
      → has key (keys (leaf_for key t).cells) ≡ has key (keys_of t)
  has-leaf_for key lo hi (tip m) o = refl
  has-leaf_for key lo hi (branch m ks) o = has-kids_leaf_for key lo hi ks o

  pub has-kids_leaf_for :
      (key lo hi : ℕ) (ks : Kids)
      → KidsOrdered lo hi ks
      → has key (keys (kids_leaf_for key ks).cells) ≡ has key (keys (kids_entries ks))
  has-kids_leaf_for key lo hi (last t) o = has-leaf_for key lo hi t o.1
  has-kids_leaf_for key lo hi (before t k ks) o = ground (
    arith,
    keys-append (entries t) (kids_entries ks),
    has-append key (keys_of t) (keys (kids_entries ks)),
    has-Ordered key lo k t o.2,
    has-KidsOrdered key k hi ks o.3,
    has-leaf_for key lo k t o.2,
    has-kids_leaf_for key k hi ks o.3,
  )
