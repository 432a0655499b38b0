-- ===== src/Common/Sorted/Edits.antt =====
-- Sorted keys after a key is inserted, erased or replaced.
use Prim.Native.Nat.{ℕ, zero, suc, ◌≤◌, ◌<◌}
use mathlib.Core.Path.{◌≡◌, refl}
use mathlib.Core.Logic.{inl, inr}
use mathlib.Core.Bool.{true, false}
use mathlib.Core.List.{List, [], ◌∷◌}
use native.Mathlib.Omega.{arith}
use cpplite.Common.Tests.{ltb, ◌==◌, if◌then◌else◌, Bool-cases}
use cpplite.Common.Lists.{insert_at, erase_at, set}
use cpplite.Common.Sorted.{Above, IsSorted, rank, has, Above-weaken, Above-IsSorted, has-Above}

Above-insert :
    (b key : ℕ) (ks : List ℕ)
    → Above b ks
    → b < key
    → has key ks ≡ false
    → Above b (insert_at (rank key ks) key ks)
unfolding rank has
Above-insert b key [] s h e = (h, tt)
Above-insert b key (k ∷ ks) s h e = elim (Bool-cases (ltb k key)) [
  | inl lt ↦ ground (arith, Above-insert k key ks s.1)
  | inr ge ↦ ground arith
]

-- To insert an absent key at its rank keeps the order.
pub insert_at-IsSorted :
    (key : ℕ) (ks : List ℕ)
    → IsSorted ks
    → has key ks ≡ false
    → IsSorted (insert_at (rank key ks) key ks)
unfolding rank has
insert_at-IsSorted key [] s e = tt
insert_at-IsSorted key (k ∷ ks) s e = elim (Bool-cases (ltb k key)) [
  | inl lt ↦ ground (arith, Above-insert k key ks s)
  | inr ge ↦ ground arith
]

Above-erase : (b i : ℕ) (ks : List ℕ) → Above b ks → Above b (erase_at i ks)
Above-erase b i [] s = tt
Above-erase b zero (k ∷ ks) s = Above-weaken b k ks (omega arith) s.1
Above-erase b (suc i) (k ∷ ks) s = (s.0, Above-erase k i ks s.1)

-- To erase a key keeps the order.
pub erase_at-IsSorted : (i : ℕ) (ks : List ℕ) → IsSorted ks → IsSorted (erase_at i ks)
erase_at-IsSorted i [] s = tt
erase_at-IsSorted zero (k ∷ ks) s = Above-IsSorted k ks s
erase_at-IsSorted (suc i) (k ∷ ks) s = Above-erase k i ks s

pub has-insert_at :
    (q i key : ℕ) (ks : List ℕ) → has q (insert_at i key ks) ≡ (if key == q then true else has q ks)
unfolding has
has-insert_at q zero key ks = refl
has-insert_at q (suc i) key [] = refl
has-insert_at q (suc i) key (k ∷ ks) = ground (arith, has-insert_at q i key ks)

has-erase-Above :
    (b q : ℕ) (ks : List ℕ) → Above b ks → q ≤ b → (i : ℕ) → has q (erase_at i ks) ≡ false
has-erase-Above b q ks s h i = has-Above q b (erase_at i ks) (Above-erase b i ks s) h

-- To erase a key at its rank takes that key away, and no other.
pub has-erase_at :
    (q key : ℕ) (ks : List ℕ)
    → IsSorted ks
    → has key ks ≡ true
    → has q (erase_at (rank key ks) ks) ≡ (if key == q then false else has q ks)
unfolding has rank
has-erase_at q key [] s e = cc
has-erase_at q key (k ∷ ks) s e = elim (Bool-cases (ltb k key)) [
  | inl lt ↦ ground (arith, has-erase_at q key ks (Above-IsSorted k ks s))
  | inr ge ↦ ground (arith, has-Above key k ks s, has-Above q k ks s)
]

-- A key may take the place of another if it lies between the same neighbours.
abbrev pub Fits : ℕ → ℕ → List ℕ → Type 0
Fits old new [] = Unit {0}
Fits old new (k ∷ ks) = (k < old → k < new) × (old < k → new < k) × Fits old new ks

Above-new : (k old new : ℕ) (ks : List ℕ) → Above k ks → Fits old new ks → k ≡ old → Above new ks
Above-new k old new [] s g e = tt
Above-new k old new (x ∷ ks) s g e = (g.1 (omega (arith, s.0)), s.1)

Above-set :
    (b old new : ℕ) (ks : List ℕ)
    → Above b ks
    → (b < old → b < new)
    → Fits old new ks
    → has old ks ≡ true
    → b < old
    → Above b (set ks (rank old ks) new)
unfolding rank has
Above-set b old new [] s f g e h = cc
Above-set b old new (k ∷ ks) s f g e h = elim (Bool-cases (ltb k old)) [
  | inl lt ↦ ground (arith, Above-set k old new ks s.1 g.0 g.2)
  | inr ge ↦ elim (Bool-cases (k == old)) [
    | inl eq ↦ ground (arith, Above-new k old new ks s.1 g.2)
    | inr ne ↦ ground (arith, has-Above old k ks s.1)
  ]
]

pub set-IsSorted :
    (old new : ℕ) (ks : List ℕ)
    → IsSorted ks
    → Fits old new ks
    → has old ks ≡ true
    → IsSorted (set ks (rank old ks) new)
unfolding rank has
set-IsSorted old new [] s g e = tt
set-IsSorted old new (k ∷ ks) s g e = elim (Bool-cases (ltb k old)) [
  | inl lt ↦ ground (arith, Above-set k old new ks s g.0 g.2)
  | inr ge ↦ elim (Bool-cases (k == old)) [
    | inl eq ↦ ground (arith, Above-new k old new ks s g.2)
    | inr ne ↦ ground (arith, has-Above old k ks s)
  ]
]
