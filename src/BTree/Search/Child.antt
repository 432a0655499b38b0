-- ===== src/BTree/Search/Child.antt =====
-- The loop of `find_child_to_traverse` against a linear scan.
use cpplite.Common.{
  ℕ, zero, suc, ◌+◌, ◌-◌, ◌/◌, ◌≤◌, ◌<◌, ◌≡◌, arith, inl, inr, Bool-cases, List, [], ◌∷◌, ltb,
  if◌then◌else◌, some, length, length-map, get_or,
}
use cpplite.Common.Sorted.{IsSorted, Above-IsSorted, Above-get}
use cpplite.Common.Outcome.{done}
use cpplite.Pager.Page.{NodeCell}
use cpplite.Pager.Disk.{PagerState}
use cpplite.Pager.Node.{keys}
use cpplite.BTree.Search.{child_bisect, find_child_to_traverse}

-- How many keys at the front are not above a key.
unfoldable pub child_scan : ℕ → List ℕ → ℕ
child_scan key [] = 0
child_scan key (k ∷ ks) = if ltb key k then 0 else suc (child_scan key ks)

pub child_scan-le-length : (key : ℕ) (ks : List ℕ) → child_scan key ks ≤ length ks
unfolding child_scan
child_scan-le-length key [] = omega arith
child_scan-le-length key (k ∷ ks) = ground (arith, child_scan-le-length key ks)

below_scan : (key : ℕ) (ks : List ℕ) (i : ℕ) → i < child_scan key ks → get_or ks i 0 ≤ key
unfolding child_scan
below_scan key [] i h = absurd (omega arith)
below_scan key (k ∷ ks) zero h = ground arith
below_scan key (k ∷ ks) (suc i) h = ground (arith, below_scan key ks i)

above_scan :
    (key : ℕ) (ks : List ℕ) (i : ℕ)
    → IsSorted ks
    → child_scan key ks ≤ i
    → i < length ks
    → key < get_or ks i 0
unfolding child_scan
above_scan key [] i s h l = absurd (omega arith)
above_scan key (k ∷ ks) zero s h l = ground arith
above_scan key (k ∷ ks) (suc i) s h l = elim (Bool-cases (ltb key k)) [
  | inl e ↦ ground (arith, e, Above-get k ks i s)
  | inr e ↦ above_scan key ks i (Above-IsSorted k ks s) (ground (arith, e)) (omega arith)
]

child_bisect-scan :
    (fuel key : ℕ) (ks : List ℕ) (lo hi : ℕ)
    → IsSorted ks
    → lo ≤ child_scan key ks
    → child_scan key ks ≤ hi
    → hi ≤ length ks
    → hi < fuel + lo
    → child_bisect fuel key ks lo hi ≡ some (child_scan key ks)
unfolding child_bisect
child_bisect-scan zero key ks lo hi s a b c f = absurd (omega arith)
child_bisect-scan (suc fuel) key ks lo hi s a b c f =
    let mid = lo + (hi - lo) / 2 in
    ground (
      arith,
      below_scan key ks mid,
      above_scan key ks mid s,
      child_bisect-scan fuel key ks lo mid s,
      child_bisect-scan fuel key ks (mid + 1) hi s,
    )

-- On cells in the order of their keys the loop of `find_child_to_traverse` ends within one round more
-- than there are cells: `find_child_to_traverse` returns the number of keys at the front that are not
-- above the target, and changes nothing.
pub find_child_to_traverse_lem :
    (key : ℕ) (cells : List NodeCell) (s : PagerState)
    → IsSorted (keys cells)
    → find_child_to_traverse key cells s ≡ done (child_scan key (keys cells)) s
unfolding find_child_to_traverse
find_child_to_traverse_lem key cells s sorted =
    let n = length-map (λ (c : NodeCell). c.key) cells in
    let ends =
      child_bisect-scan (suc (length cells)) key (keys cells) 0 (length cells) sorted (omega arith)
        (omega (arith, n, child_scan-le-length key (keys cells))) (omega (arith, n))
        (omega arith) in
    ground (arith, ends)
