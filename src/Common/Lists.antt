-- ===== src/Common/Lists.antt =====
-- Lists measured and indexed by native numbers, under the library's names; vectors of the source.
use Prim.Native.Nat.{ℕ, zero, suc, ◌+◌, ◌-◌, ◌<◌, min}
use mathlib.Core.Path.{◌≡◌, refl, ap}
use mathlib.Core.List.{List, [], ◌∷◌, ◌++◌, map}
use native.Mathlib.Omega.{arith}

module _ {ℓ} {A : Type ℓ} where
  abbrev pub length : List A → ℕ
  length [] = 0
  length (x ∷ xs) = suc (length xs)

  abbrev pub get_or : List A → ℕ → A → A
  get_or [] i d = d
  get_or (x ∷ xs) zero d = x
  get_or (x ∷ xs) (suc i) d = get_or xs i d

  abbrev pub take : ℕ → List A → List A
  take zero xs = []
  take (suc n) [] = []
  take (suc n) (x ∷ xs) = x ∷ take n xs

  abbrev pub drop : ℕ → List A → List A
  drop zero xs = xs
  drop (suc n) [] = []
  drop (suc n) (x ∷ xs) = drop n xs

  abbrev pub replicate : ℕ → A → List A
  replicate zero a = []
  replicate (suc n) a = a ∷ replicate n a

  -- `v.insert(v.begin() + i, a)`
  abbrev pub insert_at : ℕ → A → List A → List A
  insert_at zero a xs = a ∷ xs
  insert_at (suc i) a [] = a ∷ []
  insert_at (suc i) a (x ∷ xs) = x ∷ insert_at i a xs

  -- `v.erase(v.begin() + i)`
  abbrev pub erase_at : ℕ → List A → List A
  erase_at i [] = []
  erase_at zero (x ∷ xs) = xs
  erase_at (suc i) (x ∷ xs) = x ∷ erase_at i xs

  -- The first `n` of what a vector or a zeroed buffer holds; `d` is what its unwritten part reads as.
  abbrev pub take_or : ℕ → A → List A → List A
  take_or zero d xs = []
  take_or (suc n) d [] = d ∷ take_or n d []
  take_or (suc n) d (x ∷ xs) = x ∷ take_or n d xs

  -- The first element, or a default.
  abbrev pub head_or : List A → A → A
  head_or [] d = d
  head_or (x ∷ xs) d = x

  -- `v[i] = a`
  abbrev pub set : List A → ℕ → A → List A
  set [] i v = []
  set (x ∷ xs) zero v = v ∷ xs
  set (x ∷ xs) (suc i) v = x ∷ set xs i v

  -- `v[i] = a` in an array of which `xs` is the written part, and the rest reads as `d`.
  abbrev pub set_or : ℕ → A → A → List A → List A
  set_or zero d v [] = v ∷ []
  set_or zero d v (x ∷ xs) = v ∷ xs
  set_or (suc i) d v [] = d ∷ set_or i d v []
  set_or (suc i) d v (x ∷ xs) = x ∷ set_or i d v xs

  pub set_or-append :
      (i : ℕ) (d v : A) (xs ys : List A)
      → i < length xs
      → set_or i d v (xs ++ ys) ≡ set xs i v ++ ys
  set_or-append i d v [] ys h = absurd (omega arith)
  set_or-append zero d v (x ∷ xs) ys h = refl
  set_or-append (suc i) d v (x ∷ xs) ys h = ap (◌∷◌ x) (set_or-append i d v xs ys (omega arith))

  pub length-append : (xs ys : List A) → length (xs ++ ys) ≡ length xs + length ys
  length-append [] ys = omega arith
  length-append (x ∷ xs) ys = omega (arith, length-append xs ys)

  pub length-take : (n : ℕ) (xs : List A) → length (take n xs) ≡ min n (length xs)
  length-take zero xs = omega arith
  length-take (suc n) [] = omega arith
  length-take (suc n) (x ∷ xs) = omega (arith, length-take n xs)

  pub length-drop : (n : ℕ) (xs : List A) → length (drop n xs) ≡ length xs - n
  length-drop zero xs = omega arith
  length-drop (suc n) [] = omega arith
  length-drop (suc n) (x ∷ xs) = omega (arith, length-drop n xs)

  pub length-replicate : (n : ℕ) (a : A) → length (replicate n a) ≡ n
  length-replicate zero a = refl
  length-replicate (suc n) a = ap suc (length-replicate n a)

  pub length-insert_at : (i : ℕ) (a : A) (xs : List A) → length (insert_at i a xs) ≡ length xs + 1
  length-insert_at zero a xs = omega arith
  length-insert_at (suc i) a [] = omega arith
  length-insert_at (suc i) a (x ∷ xs) = omega (arith, length-insert_at i a xs)

  pub length-erase_at :
      (i : ℕ) (xs : List A) → i < length xs → length (erase_at i xs) + 1 ≡ length xs
  length-erase_at i [] h = absurd (omega arith)
  length-erase_at zero (x ∷ xs) h = omega arith
  length-erase_at (suc i) (x ∷ xs) h = omega (arith, length-erase_at i xs)

  pub length-set : (xs : List A) (i : ℕ) (v : A) → length (set xs i v) ≡ length xs
  length-set [] i v = refl
  length-set (x ∷ xs) zero v = refl
  length-set (x ∷ xs) (suc i) v = ap suc (length-set xs i v)

  pub take-append-drop : (n : ℕ) (xs : List A) → take n xs ++ drop n xs ≡ xs
  take-append-drop zero xs = refl
  take-append-drop (suc n) [] = refl
  take-append-drop (suc n) (x ∷ xs) = ap (◌∷◌ x) (take-append-drop n xs)

  pub take-append : (xs ys : List A) → take (length xs) (xs ++ ys) ≡ xs
  take-append [] ys = refl
  take-append (x ∷ xs) ys = ap (◌∷◌ x) (take-append xs ys)

  pub take_or-append : (d : A) (xs ys : List A) → take_or (length xs) d (xs ++ ys) ≡ xs
  take_or-append d [] ys = refl
  take_or-append d (x ∷ xs) ys = ap (◌∷◌ x) (take_or-append d xs ys)

  pub get_or-append :
      (xs ys : List A) (i : ℕ) (d : A) → get_or (xs ++ ys) (length xs + i) d ≡ get_or ys i d
  get_or-append [] ys i d = let e : zero + i ≡ i = omega arith in rw e
  get_or-append (x ∷ xs) ys i d =
      let e : suc (length xs) + i ≡ suc (length xs + i) = omega arith in
      rw e (get_or-append xs ys i d)

module _ {ℓ κ} {A : Type ℓ} {B : Type κ} (f : A → B) where
  pub length-map : (xs : List A) → length (map f xs) ≡ length xs
  length-map [] = refl
  length-map (x ∷ xs) = ap suc (length-map xs)

  pub map-insert_at :
      (i : ℕ) (a : A) (xs : List A) → map f (insert_at i a xs) ≡ insert_at i (f a) (map f xs)
  map-insert_at zero a xs = refl
  map-insert_at (suc i) a [] = refl
  map-insert_at (suc i) a (x ∷ xs) = ap (◌∷◌ (f x)) (map-insert_at i a xs)

  pub map-erase_at : (i : ℕ) (xs : List A) → map f (erase_at i xs) ≡ erase_at i (map f xs)
  map-erase_at i [] = refl
  map-erase_at zero (x ∷ xs) = refl
  map-erase_at (suc i) (x ∷ xs) = ap (◌∷◌ (f x)) (map-erase_at i xs)

  pub map-set : (xs : List A) (i : ℕ) (a : A) → map f (set xs i a) ≡ set (map f xs) i (f a)
  map-set [] i a = refl
  map-set (x ∷ xs) zero a = refl
  map-set (x ∷ xs) (suc i) a = ap (◌∷◌ (f x)) (map-set xs i a)

module _ {ℓ} {A : Type ℓ} where
  pub set-get_or : (xs : List A) (i : ℕ) (d : A) → set xs i (get_or xs i d) ≡ xs
  set-get_or [] i d = refl
  set-get_or (x ∷ xs) zero d = refl
  set-get_or (x ∷ xs) (suc i) d = ap (◌∷◌ x) (set-get_or xs i d)
