-- ===== src/Common/Sorted.antt =====
-- Strictly ascending lists of keys, the position of a key in one, and the binary search that the
-- page managers and the cursor share, against a linear scan.
pub mod Edits
use Prim.Native.Nat.{ℕ, zero, suc, ◌+◌, ◌-◌, ◌/◌, ◌≤◌, ◌<◌}
use mathlib.Core.Path.{◌≡◌, refl}
use mathlib.Core.Logic.{inl, inr}
use mathlib.Core.Bool.{Bool, true, false}
use mathlib.Core.List.{List, [], ◌∷◌}
use native.Mathlib.Omega.{arith}
use cpplite.Common.Tests.{ltb, ◌==◌, if◌then◌else◌, Bool-cases}
use cpplite.Common.Lists.{length, get_or, insert_at, erase_at, set}

-- The keys ascend strictly and lie above a bound.
abbrev pub Above : ℕ → List ℕ → Type 0
Above b [] = Unit {0}
Above b (k ∷ ks) = (b < k) × Above k ks

abbrev pub IsSorted : List ℕ → Type 0
IsSorted [] = Unit {0}
IsSorted (k ∷ ks) = Above k ks

-- How many keys at the front are below a key.
unfoldable pub rank : ℕ → List ℕ → ℕ
rank key [] = 0
rank key (k ∷ ks) = if ltb k key then suc (rank key ks) else 0

unfoldable pub has : ℕ → List ℕ → Bool
has key [] = false
has key (k ∷ ks) = if k == key then true else has key ks

pub data Found : Type 0 where
  found : ℕ → Found
  absent : ℕ → Found
  unfinished : Found

-- The binary search of `insert_cell`, `delete_cell`, `find_node_cell_idx` and
-- `find_matching_leaf_cell`: `found` is its hit, `absent` the `lo` at which its loop ends,
-- `unfinished` a loop that has not ended in the rounds given.
unfoldable pub bisect : ℕ → ℕ → List ℕ → ℕ → ℕ → Found
bisect zero key keys lo hi = unfinished
bisect (suc fuel) key keys lo hi =
    let mid = lo + (hi - lo) / 2 in
    let left = bisect fuel key keys lo mid in
    let right = bisect fuel key keys (mid + 1) hi in
    if ltb lo hi
    then (if ltb key (get_or keys mid 0)
        then left
        else (if ltb (get_or keys mid 0) key then right else found mid))
    else absent lo

-- One round for each key, and one for the last test of `lo < hi`.
unfoldable pub search_keys : ℕ → List ℕ → Found
search_keys key keys = bisect (suc (length keys)) key keys 0 (length keys)

pub Above-weaken : (a b : ℕ) (ks : List ℕ) → a ≤ b → Above b ks → Above a ks
Above-weaken a b [] h s = tt
Above-weaken a b (k ∷ ks) h s = (omega arith, s.1)

pub Above-IsSorted : (b : ℕ) (ks : List ℕ) → Above b ks → IsSorted ks
Above-IsSorted b [] s = tt
Above-IsSorted b (k ∷ ks) s = s.1

pub rank-le-length : (key : ℕ) (ks : List ℕ) → rank key ks ≤ length ks
unfolding rank
rank-le-length key [] = omega arith
rank-le-length key (k ∷ ks) = ground (arith, rank-le-length key ks)

pub below_rank : (key : ℕ) (ks : List ℕ) (i : ℕ) → i < rank key ks → get_or ks i 0 < key
unfolding rank
below_rank key [] i h = absurd (omega arith)
below_rank key (k ∷ ks) zero h = ground arith
below_rank key (k ∷ ks) (suc i) h = ground (arith, below_rank key ks i)

pub Above-get : (b : ℕ) (ks : List ℕ) (i : ℕ) → Above b ks → i < length ks → b < get_or ks i 0
Above-get b [] i s h = absurd (omega arith)
Above-get b (k ∷ ks) zero s h = s.0
Above-get b (k ∷ ks) (suc i) s h = omega (arith, Above-get k ks i s.1)

pub sorted_lt :
    (ks : List ℕ) (i j : ℕ) → IsSorted ks → i < j → j < length ks → get_or ks i 0 < get_or ks j 0
sorted_lt [] i j s h l = absurd (omega arith)
sorted_lt (k ∷ ks) i zero s h l = absurd (omega arith)
sorted_lt (k ∷ ks) zero (suc j) s h l = Above-get k ks j s (omega arith)
sorted_lt (k ∷ ks) (suc i) (suc j) s h l =
    sorted_lt ks i j (Above-IsSorted k ks s) (omega arith) (omega arith)

pub above_rank :
    (key : ℕ) (ks : List ℕ) (i : ℕ)
    → IsSorted ks
    → rank key ks ≤ i
    → i < length ks
    → key ≤ get_or ks i 0
unfolding rank
above_rank key [] i s h l = absurd (omega arith)
above_rank key (k ∷ ks) zero s h l = ground arith
above_rank key (k ∷ ks) (suc i) s h l = elim (Bool-cases (ltb k key)) [
  | inl e ↦ above_rank key ks i (Above-IsSorted k ks s) (ground arith) (omega arith)
  | inr e ↦ ground (arith, Above-get k ks i s (omega arith))
]

pub has-Above : (key b : ℕ) (ks : List ℕ) → Above b ks → key ≤ b → has key ks ≡ false
unfolding has
has-Above key b [] s h = refl
has-Above key b (k ∷ ks) s h = ground (arith, has-Above key k ks s.1 (omega arith))

-- A sorted list has a key exactly if the key stands at its rank.
pub has-eq-rank :
    (key : ℕ) (ks : List ℕ)
    → IsSorted ks
    → has key ks
      ≡ (if ltb (rank key ks) (length ks) then get_or ks (rank key ks) 0 == key else false)
unfolding has rank
has-eq-rank key [] s = refl
has-eq-rank key (k ∷ ks) s = elim (Bool-cases (ltb k key)) [
  | inl e ↦ ground (arith, has-eq-rank key ks (Above-IsSorted k ks s))
  | inr e ↦ ground (arith, has-Above key k ks s)
]

-- What the linear scan answers.
abbrev pub scan_keys : ℕ → List ℕ → Found
scan_keys key ks = if has key ks then found (rank key ks) else absent (rank key ks)

-- All keys from `hi` on are above the key.
abbrev Bounded : ℕ → List ℕ → ℕ → ℕ → Type 0
Bounded key ks lo hi =
    (lo ≤ rank key ks)
    × (rank key ks ≤ hi)
    × (hi ≤ length ks)
    × ((hi < length ks) → key < get_or ks hi 0)

found_lem :
    (key : ℕ) (ks : List ℕ) (mid : ℕ)
    → IsSorted ks
    → mid < length ks
    → get_or ks mid 0 ≡ key
    → scan_keys key ks ≡ found mid
found_lem key ks mid s l e = ground (
  arith,
  has-eq-rank key ks s,
  below_rank key ks mid,
  above_rank key ks (rank key ks) s,
  sorted_lt ks (rank key ks) mid s,
)

absent_lem :
    (key : ℕ) (ks : List ℕ) (lo hi : ℕ)
    → IsSorted ks
    → Bounded key ks lo hi
    → hi ≤ lo
    → scan_keys key ks ≡ absent lo
absent_lem key ks lo hi s b h =
    let e : rank key ks ≡ hi = omega arith in ground (arith, has-eq-rank key ks s, e, b.3)

bisect-scan :
    (fuel key : ℕ) (ks : List ℕ) (lo hi : ℕ)
    → IsSorted ks
    → Bounded key ks lo hi
    → hi < fuel + lo
    → bisect fuel key ks lo hi ≡ scan_keys key ks
unfolding bisect
bisect-scan zero key ks lo hi s b f = absurd (omega arith)
bisect-scan (suc fuel) key ks lo hi s b f =
    let mid = lo + (hi - lo) / 2 in
    let below = below_rank key ks mid in
    let above = above_rank key ks mid s in
    ground (
      arith,
      below,
      above,
      found_lem key ks mid s,
      absent_lem key ks lo hi s b,
      bisect-scan fuel key ks lo mid s,
      bisect-scan fuel key ks (mid + 1) hi s,
    )

-- On sorted keys the binary search ends, and answers as the linear scan does.
pub search_keys_lem : (key : ℕ) (ks : List ℕ) → IsSorted ks → search_keys key ks ≡ scan_keys key ks
unfolding search_keys
search_keys_lem key ks s =
    bisect-scan (suc (length ks)) key ks 0 (length ks) s
      (omega arith, rank-le-length key ks, omega arith, λ h. absurd (omega arith)) (omega arith)
