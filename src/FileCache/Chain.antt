-- ===== src/FileCache/Chain.antt =====
-- The map and the chain of the file cache after a key is erased or an address is unlinked.
use cpplite.Common.{
  ℕ, ◌+◌, ◌<◌, ◌≡◌, refl, ap, ◌∙◌, arith, true, false, Option, none, some, ◌⊎◌, inl, inr,
  Bool-cases, List, [], ◌∷◌, ◌++◌, ◌==◌, if◌then◌else◌, length,
}
use cpplite.Common.Sorted.{has}
use cpplite.Pager.FreeList.Chain.{Avoids, Distinct}
use cpplite.FileCache.{FileKey, is_key, find, erase, store, unlink, tail}

pub find-erase :
    {A : Type 0}
    → (key other : FileKey) (entries : List (FileKey × A))
    → find other (erase key entries) ≡ (if is_key key other then none else find other entries)
unfolding find erase
find-erase key other [] = ground arith
find-erase key other ((k, a) ∷ entries) = ground (arith, find-erase key other entries)

pub find-store :
    {A : Type 0}
    → (key other : FileKey) (a : A) (entries : List (FileKey × A))
    → find other (store key a entries) ≡ (if is_key key other then some a else find other entries)
unfolding find
find-store key other a entries = ground (arith, find-erase key other entries)

pub has-unlink :
    (a node : ℕ) (chain : List ℕ)
    → has a (unlink node chain) ≡ (if node == a then false else has a chain)
unfolding has unlink
has-unlink a node [] = ground arith
has-unlink a node (x ∷ chain) = ground (arith, has-unlink a node chain)

pub is_key_refl : (key : FileKey) → is_key key key ≡ true
is_key_refl key = ground arith

pub is_key_eq : (key other : FileKey) → is_key key other ≡ true → key ≡ other
is_key_eq (a, b) (x, y) e =
    let p : a ≡ x = ground (arith, e) in
    let q : b ≡ y = ground (arith, e) in ap (λ u. (u, b)) p ∙ ap (λ w. (x, w)) q

pub Option-cases : {A : Type 0} → (o : Option A) → (o ≡ none) ⊎ ((a : A) × (o ≡ some a))
Option-cases none = inl refl
Option-cases (some a) = inr (a, refl)

pub length-unlink-absent :
    (node : ℕ) (chain : List ℕ) → Avoids node chain → unlink node chain ≡ chain
unfolding unlink
length-unlink-absent node [] d = refl
length-unlink-absent node (x ∷ chain) d = ground (arith, d.0, length-unlink-absent node chain d.1)

pub length-unlink :
    (node : ℕ) (chain : List ℕ)
    → Distinct chain
    → has node chain ≡ true
    → length (unlink node chain) + 1 ≡ length chain
unfolding unlink has
length-unlink node [] d e = absurd (ground (arith, e))
length-unlink node (x ∷ chain) d e = elim (Bool-cases (x == node)) [
  | inl p ↦
      let q : x ≡ node = ground (arith, p) in
      let a : Avoids node chain = rw q at d.0 in
      ground (arith, p, length-unlink-absent node chain a)
  | inr p ↦ ground (arith, p, e, length-unlink node chain d.1)
]

pub Avoids-unlink : (q node : ℕ) (chain : List ℕ) → Avoids q chain → Avoids q (unlink node chain)
unfolding unlink
Avoids-unlink q node [] d = tt
Avoids-unlink q node (x ∷ chain) d = elim (Bool-cases (x == node)) [
  | inl p ↦ rw p (Avoids-unlink q node chain d.1)
  | inr p ↦ rw p (d.0, Avoids-unlink q node chain d.1)
]

pub Distinct-unlink : (node : ℕ) (chain : List ℕ) → Distinct chain → Distinct (unlink node chain)
unfolding unlink
Distinct-unlink node [] d = tt
Distinct-unlink node (x ∷ chain) d = elim (Bool-cases (x == node)) [
  | inl p ↦ rw p (Distinct-unlink node chain d.1)
  | inr p ↦ rw p (Avoids-unlink x node chain d.0, Distinct-unlink node chain d.1)
]

pub Avoids-unlinked : (node : ℕ) (chain : List ℕ) → Avoids node (unlink node chain)
unfolding unlink
Avoids-unlinked node [] = tt
Avoids-unlinked node (x ∷ chain) = elim (Bool-cases (x == node)) [
  | inl p ↦ rw p (Avoids-unlinked node chain)
  | inr p ↦ rw p (ground (arith, p), Avoids-unlinked node chain)
]

tail-none : (chain : List ℕ) → tail chain ≡ none → chain ≡ []
unfolding tail
tail-none [] e = refl
tail-none (x ∷ chain) e = elim (Option-cases (tail chain)) [
  | inl p ↦ absurd (ground (arith, p, e))
  | inr (t, p) ↦ absurd (ground (arith, p, e))
]

Avoids-has : (x l : ℕ) (chain : List ℕ) → Avoids x chain → has l chain ≡ true → (x == l) ≡ false
unfolding has
Avoids-has x l [] d e = absurd (ground (arith, e))
Avoids-has x l (y ∷ chain) d e = elim (Bool-cases (y == l)) [
  | inl p ↦ ground (arith, p, d.0)
  | inr p ↦ Avoids-has x l chain d.1 (ground (arith, p, e))
]

pub has-tail : (l : ℕ) (chain : List ℕ) → tail chain ≡ some l → has l chain ≡ true
unfolding tail has
has-tail l [] e = absurd (ground (arith, e))
has-tail l (x ∷ chain) e = elim (Option-cases (tail chain)) [
  | inl p ↦ ground (arith, p, e)
  | inr p ↦ ground (arith, p.1, e, has-tail p.0 chain p.1)
]

-- The node at the tail is the last of the chain.
pub unlink-tail :
    (l : ℕ) (chain : List ℕ)
    → Distinct chain
    → tail chain ≡ some l
    → chain ≡ unlink l chain ++ (l ∷ [])
unfolding tail unlink
unlink-tail l [] d e = absurd (ground (arith, e))
unlink-tail l (x ∷ chain) d e = elim (Option-cases (tail chain)) [
  | inl p ↦ ground (arith, p, e, tail-none chain p)
  | inr (t, p) ↦
      let last : tail chain ≡ some l = ground (arith, p, e) in
      let apart : (x == l) ≡ false = Avoids-has x l chain d.0 (has-tail l chain last) in
      ground (arith, apart, unlink-tail l chain d.1 last)
]

pub tail-Filled : (chain : List ℕ) → 0 < length chain → (l : ℕ) × (tail chain ≡ some l)
unfolding tail
tail-Filled [] h = absurd (omega (arith, h))
tail-Filled (x ∷ chain) h = elim (Option-cases (tail chain)) [
  | inl p ↦ (x, ground (arith, p))
  | inr p ↦ (p.0, ground (arith, p.1))
]
