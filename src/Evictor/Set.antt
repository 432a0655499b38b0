-- ===== src/Evictor/Set.antt =====
-- `std::set<std::pair<size_t, frame_id_t>>` as the ascending list of its elements.
use cpplite.Common.{
  ℕ, ◌+◌, ◌≡◌, refl, arith, Bool, true, false, List, [], ◌∷◌, ltb, ◌==◌, if◌then◌else◌, length,
}

-- The order of pairs.
abbrev pub pair_ltb : ℕ × ℕ → ℕ × ℕ → Bool
pair_ltb a b = if ltb a.0 b.0 then true else (if ltb b.0 a.0 then false else ltb a.1 b.1)

abbrev pub pair_eqb : ℕ × ℕ → ℕ × ℕ → Bool
pair_eqb a b = if a.0 == b.0 then a.1 == b.1 else false

unfoldable pub set_insert : ℕ × ℕ → List (ℕ × ℕ) → List (ℕ × ℕ)
set_insert x [] = x ∷ []
set_insert x (y ∷ ys) =
    if pair_ltb x y then x ∷ y ∷ ys else (if pair_ltb y x then y ∷ set_insert x ys else y ∷ ys)

unfoldable pub set_erase : ℕ × ℕ → List (ℕ × ℕ) → List (ℕ × ℕ)
set_erase x [] = []
set_erase x (y ∷ ys) =
    if pair_ltb x y then y ∷ ys else (if pair_ltb y x then y ∷ set_erase x ys else ys)

unfoldable pub in_set : ℕ × ℕ → List (ℕ × ℕ) → Bool
in_set x [] = false
in_set x (y ∷ ys) = if pair_eqb y x then true else in_set x ys

abbrev pub AbovePair : ℕ × ℕ → List (ℕ × ℕ) → Type 0
AbovePair b [] = Unit {0}
AbovePair b (y ∷ ys) = (pair_ltb b y ≡ true) × AbovePair y ys

abbrev pub IsOrdered : List (ℕ × ℕ) → Type 0
IsOrdered [] = Unit {0}
IsOrdered (y ∷ ys) = AbovePair y ys

AbovePair-weaken :
    (a b : ℕ × ℕ) (ys : List (ℕ × ℕ)) → pair_ltb a b ≡ true → AbovePair b ys → AbovePair a ys
AbovePair-weaken a b [] h s = tt
AbovePair-weaken a b (y ∷ ys) h s = (ground (arith, s.0), s.1)

pub tail-IsOrdered : (b : ℕ × ℕ) (ys : List (ℕ × ℕ)) → AbovePair b ys → IsOrdered ys
tail-IsOrdered b [] s = tt
tail-IsOrdered b (y ∷ ys) s = s.1

pub in_set_above :
    (b x : ℕ × ℕ) (ys : List (ℕ × ℕ)) → AbovePair b ys → pair_ltb b x ≡ false → in_set x ys ≡ false
unfolding in_set
in_set_above b x [] s h = refl
in_set_above b x (y ∷ ys) s h = ground (arith, in_set_above y x ys s.1, s.0)

pub in_set-insert :
    (q x : ℕ × ℕ) (ys : List (ℕ × ℕ))
    → in_set q (set_insert x ys) ≡ (if pair_eqb x q then true else in_set q ys)
unfolding in_set set_insert
in_set-insert q x [] = refl
in_set-insert q x (y ∷ ys) = ground (arith, in_set-insert q x ys)

pub in_set-erase :
    (q x : ℕ × ℕ) (ys : List (ℕ × ℕ))
    → IsOrdered ys
    → in_set q (set_erase x ys) ≡ (if pair_eqb x q then false else in_set q ys)
unfolding in_set set_erase
in_set-erase q x [] s = ground arith
in_set-erase q x (y ∷ ys) s =
    ground (arith, in_set-erase q x ys (tail-IsOrdered y ys s), in_set_above y q ys s)

AbovePair-insert :
    (b x : ℕ × ℕ) (ys : List (ℕ × ℕ))
    → AbovePair b ys
    → pair_ltb b x ≡ true
    → AbovePair b (set_insert x ys)
unfolding set_insert
AbovePair-insert b x [] s h = (h, tt)
AbovePair-insert b x (y ∷ ys) s h = ground (arith, s.0, AbovePair-insert y x ys s.1)

pub set_insert-IsOrdered :
    (x : ℕ × ℕ) (ys : List (ℕ × ℕ)) → IsOrdered ys → IsOrdered (set_insert x ys)
unfolding set_insert
set_insert-IsOrdered x [] s = tt
set_insert-IsOrdered x (y ∷ ys) s = ground (arith, AbovePair-insert y x ys s)

AbovePair-erase : (b x : ℕ × ℕ) (ys : List (ℕ × ℕ)) → AbovePair b ys → AbovePair b (set_erase x ys)
unfolding set_erase
AbovePair-erase b x [] s = tt
AbovePair-erase b x (y ∷ ys) s =
    ground (arith, s.0, AbovePair-erase y x ys s.1, AbovePair-weaken b y ys s.0 s.1)

pub set_erase-IsOrdered :
    (x : ℕ × ℕ) (ys : List (ℕ × ℕ)) → IsOrdered ys → IsOrdered (set_erase x ys)
unfolding set_erase
set_erase-IsOrdered x [] s = tt
set_erase-IsOrdered x (y ∷ ys) s = ground (arith, AbovePair-erase y x ys s, tail-IsOrdered y ys s)

pub length-insert :
    (x : ℕ × ℕ) (ys : List (ℕ × ℕ))
    → IsOrdered ys
    → in_set x ys ≡ false
    → length (set_insert x ys) ≡ length ys + 1
unfolding in_set set_insert
length-insert x [] s e = omega arith
length-insert x (y ∷ ys) s e = ground (arith, length-insert x ys (tail-IsOrdered y ys s))

pub length-erase :
    (x : ℕ × ℕ) (ys : List (ℕ × ℕ))
    → IsOrdered ys
    → in_set x ys ≡ true
    → length (set_erase x ys) + 1 ≡ length ys
unfolding in_set set_erase
length-erase x [] s e = cc
length-erase x (y ∷ ys) s e =
    ground (arith, length-erase x ys (tail-IsOrdered y ys s), in_set_above y x ys s)
