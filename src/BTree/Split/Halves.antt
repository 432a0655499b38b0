-- ===== src/BTree/Split/Halves.antt =====
-- How `split_cell` shares out the cells of a full page and the new one.
use cpplite.Common.{
  ℕ, zero, suc, ◌+◌, ◌/◌, ◌≤◌, ◌<◌, ◌≡◌, refl, sym, ap, ◌∙◌, arith, false, List, [], ◌∷◌, ◌++◌,
  ◌==◌, if◌then◌else◌, length, length-map, map, take, drop, insert_at, length-insert_at,
  map-insert_at, length-drop, length-take,
}
use cpplite.Common.Outcome.{done}
use cpplite.Common.Sorted.{Above, IsSorted, has, rank, has-Above, Above-IsSorted}
use cpplite.Pager.Page.{LeafCell, NodeCell, zero_leaf_cell, zero_node_cell}
use cpplite.Pager.Disk.{PagerState}
use cpplite.Pager.Leaf as Leaf
use cpplite.Pager.Leaf.{LeafPageManager}
use cpplite.Pager.Leaf.Valid as LeafValid
use cpplite.Pager.Node as Node
use cpplite.Pager.Node.{NodePageManager}
use cpplite.Pager.Node.Valid as NodeValid
use cpplite.BTree.Split.{
  sort_insert, sort, SplitCellRes, cell_map_of, halves, split_leaf_cell, split_node_cell,
}

sort_insert-Above : (key : ℕ) (ks : List ℕ) → Above key ks → sort_insert key ks ≡ key ∷ ks
unfolding sort_insert
sort_insert-Above key [] s = refl
sort_insert-Above key (k ∷ ks) s = ground (arith, s.0)

sort_insert-swap :
    (a b : ℕ) (ks : List ℕ) → sort_insert a (sort_insert b ks) ≡ sort_insert b (sort_insert a ks)
unfolding sort_insert
sort_insert-swap a b [] = ground arith
sort_insert-swap a b (k ∷ ks) = ground (arith, sort_insert-swap a b ks)

sort_insert-rank : (key : ℕ) (ks : List ℕ) → sort_insert key ks ≡ insert_at (rank key ks) key ks
unfolding sort_insert rank
sort_insert-rank key [] = refl
sort_insert-rank key (k ∷ ks) = ground (arith, sort_insert-rank key ks)

sort-append : (key : ℕ) (ks : List ℕ) → IsSorted ks → sort (ks ++ (key ∷ [])) ≡ sort_insert key ks
unfolding sort sort_insert
sort-append key [] s = refl
sort-append key (k ∷ ks) s =
    ap (sort_insert k) (sort-append key ks (Above-IsSorted k ks s))
    ∙ sort_insert-swap k key ks
    ∙ ap (sort_insert key) (sort_insert-Above k ks s)

-- The keys in order, with the new one at its rank.
sort-rank :
    (key : ℕ) (ks : List ℕ) → IsSorted ks → sort (ks ++ (key ∷ [])) ≡ insert_at (rank key ks) key ks
sort-rank key ks s = sort-append key ks s ∙ sort_insert-rank key ks

same : {C : Type 0} → (k : ℕ) (a b : C) → (if k == k then a else b) ≡ a
same k a b = ground arith

module _ {C : Type 0} (key_of : C → ℕ) (zero_cell : C) where
  cell_map_of-skip :
      (c : C) (cs : List C) (ks : List ℕ)
      → has (key_of c) ks ≡ false
      → map (cell_map_of key_of zero_cell (c ∷ cs)) ks ≡ map (cell_map_of key_of zero_cell cs) ks
  unfolding cell_map_of has
  cell_map_of-skip c cs [] e = refl
  cell_map_of-skip c cs (k ∷ ks) e = ground (arith, e, cell_map_of-skip c cs ks)

  cell_map_of-keys :
      (cs : List C)
      → IsSorted (map key_of cs)
      → map (cell_map_of key_of zero_cell cs) (map key_of cs) ≡ cs
  unfolding cell_map_of
  cell_map_of-keys [] s = refl
  cell_map_of-keys (c ∷ cs) s =
      let here = same (key_of c) c (cell_map_of key_of zero_cell cs (key_of c)) in
      let below =
        cell_map_of-skip c cs (map key_of cs)
          (has-Above (key_of c) (key_of c) (map key_of cs) s (omega arith)) in
      ap (λ x. x ∷ map (cell_map_of key_of zero_cell (c ∷ cs)) (map key_of cs)) here
      ∙ ap (◌∷◌ c) (below ∙ cell_map_of-keys cs (Above-IsSorted (key_of c) (map key_of cs) s))

  -- The cells that the map has for the keys in order: those of the page, with the new one at its rank.
  cell_map_of-sort :
      (c : C) (cs : List C)
      → IsSorted (map key_of cs)
      → has (key_of c) (map key_of cs) ≡ false
      → map (cell_map_of key_of zero_cell (c ∷ cs)) (sort (map key_of cs ++ (key_of c ∷ [])))
        ≡ insert_at (rank (key_of c) (map key_of cs)) c cs
  unfolding cell_map_of
  cell_map_of-sort c cs s e =
      let key = key_of c in
      let keys = map key_of cs in
      let f = cell_map_of key_of zero_cell (c ∷ cs) in
      let here : f key ≡ c = ground arith in
      let below : map f keys ≡ cs = cell_map_of-skip c cs keys e ∙ cell_map_of-keys cs s in
      ap (map f) (sort-rank key keys s)
      ∙ map-insert_at f (rank key keys) key keys
      ∙ ap (λ x. insert_at (rank key keys) x (map f keys)) here
      ∙ ap (insert_at (rank key keys) c) below

-- The left keys and the right ones together are the keys of the cells in order, and the map has a
-- cell for each.
abbrev pub Halved : {C : Type 0} → (C → ℕ) → List C → SplitCellRes C → Type 0
Halved key_of cells r =
    (r.left_keys ++ r.right_keys ≡ map key_of cells)
    × (map r.cell_map (r.left_keys ++ r.right_keys) ≡ cells)

take-drop : {A : Type 0} → (n : ℕ) (xs : List A) → take n xs ++ drop n xs ≡ xs
take-drop zero xs = refl
take-drop (suc n) [] = refl
take-drop (suc n) (x ∷ xs) = ap (◌∷◌ x) (take-drop n xs)

module _ {C : Type 0} (key_of : C → ℕ) (zero_cell : C) (c : C) (cs : List C) (n : ℕ)
    (s : IsSorted (map key_of cs)) (e : has (key_of c) (map key_of cs) ≡ false) where
  halves-Halved :
      Halved key_of
        (insert_at (rank (key_of c) (map key_of cs)) c cs)
        (halves (sort (map key_of cs ++ (key_of c ∷ []))) n (cell_map_of key_of zero_cell (c ∷ cs)))
  halves-Halved =
      let keys = sort (map key_of cs ++ (key_of c ∷ [])) in
      (
        take-drop n keys
            ∙ sort-rank (key_of c) (map key_of cs) s
            ∙ sym (map-insert_at key_of (rank (key_of c) (map key_of cs)) c cs),
        ap (map (cell_map_of key_of zero_cell (c ∷ cs))) (take-drop n keys)
            ∙ cell_map_of-sort key_of zero_cell c cs s e,
      )

  length-sort : length (sort (map key_of cs ++ (key_of c ∷ []))) ≡ length cs + 1
  length-sort =
      ap length (sort-rank (key_of c) (map key_of cs) s)
      ∙ length-insert_at (rank (key_of c) (map key_of cs)) (key_of c) (map key_of cs)
      ∙ ap (λ k. k + 1) (length-map key_of cs)

-- The split of a leaf: the left half has as many keys as the right one, or one more.
abbrev pub LeafSplits : LeafPageManager → LeafCell → PagerState → Type 0
LeafSplits m cell s =
    (r : SplitCellRes LeafCell) × (split_leaf_cell m.pgno cell s ≡ done r s)
    × Halved (λ c. c.key) (insert_at (rank cell.key (Leaf.keys m.cells)) cell m.cells) r
    × (length r.right_keys ≤ length r.left_keys)
    × (length r.left_keys ≤ length r.right_keys + 1)
    × (0 < length r.right_keys)

-- The split of a node: the right half has as many keys as the left one, or one more. Its first key
-- goes up.
abbrev pub NodeSplits : NodePageManager → NodeCell → PagerState → Type 0
NodeSplits m cell s =
    (r : SplitCellRes NodeCell) × (split_node_cell m.pgno cell s ≡ done r s)
    × Halved (λ c. c.key) (insert_at (rank cell.key (Node.keys m.cells)) cell m.cells) r
    × (length r.left_keys ≤ length r.right_keys)
    × (length r.right_keys ≤ length r.left_keys + 1)
    × (0 < length r.right_keys)

-- `split_cell` of a well-formed leaf on its page that has a cell, with a cell whose key the leaf does
-- not have: the keys of the halves together are the keys of all the cells in order, the map has the
-- cell of each, the left half has as many keys as the right one or one more, and the right half has
-- one. Nothing is written.
pub split_leaf_cell-Halved :
    (m : LeafPageManager) (cell : LeafCell) (s : PagerState)
    → LeafValid.IsValid m
    → LeafValid.OnDisk m s
    → has cell.key (Leaf.keys m.cells) ≡ false
    → 0 < m.num_cells
    → LeafSplits m cell s
unfolding split_leaf_cell
split_leaf_cell-Halved m cell s v o e l =
    let keys = sort (Leaf.keys m.cells ++ (cell.key ∷ [])) in
    let n = (length keys + 1) / 2 in
    let len = length-sort (λ (c : LeafCell). c.key) zero_leaf_cell cell m.cells n v.sorted e in
    let left = length-take {0} n keys in
    let right = length-drop {0} n keys in
    (
      halves keys n (cell_map_of (λ c. c.key) zero_leaf_cell (cell ∷ m.cells)),
      ground (arith, LeafValid.leaf_page_manager-OnDisk m s v o),
      halves-Halved (λ (c : LeafCell). c.key) zero_leaf_cell cell m.cells n v.sorted e,
      omega (arith, left, right),
      omega (arith, left, right),
      omega (arith, left, right, len, v.count, l),
    )

-- `split_cell` of a well-formed node on its page, with a cell whose key the node does not have: the
-- keys of the halves together are the keys of all the cells in order, the map has the cell of each,
-- and the right half has as many keys as the left one or one more, and at least the one that goes up.
-- Nothing is written.
pub split_node_cell-Halved :
    (m : NodePageManager) (cell : NodeCell) (s : PagerState)
    → NodeValid.IsValid m
    → NodeValid.OnDisk m s
    → has cell.key (Node.keys m.cells) ≡ false
    → NodeSplits m cell s
unfolding split_node_cell
split_node_cell-Halved m cell s v o e =
    let keys = sort (Node.keys m.cells ++ (cell.key ∷ [])) in
    let n = length keys / 2 in
    let len = length-sort (λ (c : NodeCell). c.key) zero_node_cell cell m.cells n v.sorted e in
    let left = length-take {0} n keys in
    let right = length-drop {0} n keys in
    (
      halves keys n (cell_map_of (λ c. c.key) zero_node_cell (cell ∷ m.cells)),
      ground (arith, NodeValid.node_page_manager-OnDisk m s v o),
      halves-Halved (λ (c : NodeCell). c.key) zero_node_cell cell m.cells n v.sorted e,
      omega (arith, left, right),
      omega (arith, left, right),
      omega (arith, left, right, len),
    )
