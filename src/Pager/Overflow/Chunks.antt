-- ===== src/Pager/Overflow/Chunks.antt =====
-- The chunks of a payload, put together again, are the payload.
use Prim.Native.Nat.{min}
use cpplite.Common.{
  ℕ, zero, suc, ◌+◌, ◌-◌, ◌^◌, ◌≤◌, ◌<◌, ◌≡◌, refl, sym, ap, arith, inl, inr, List, [], ◌∷◌, ◌++◌,
  ltb, length, take, drop, take-append-drop, length-drop, Bool-cases,
}
use cpplite.Pager.Overflow.{chunks_from, chunk_size}

abbrev pub concat : List (List ℕ) → List ℕ
concat [] = []
concat (c ∷ cs) = c ++ concat cs

drop_all : (n : ℕ) (xs : List ℕ) → length xs ≤ n → drop n xs ≡ []
drop_all zero [] h = refl
drop_all zero (x ∷ xs) h = absurd (omega arith)
drop_all (suc n) [] h = refl
drop_all (suc n) (x ∷ xs) h = drop_all n xs (omega arith)

drop-drop : (m n : ℕ) (xs : List ℕ) → drop n (drop m xs) ≡ drop (m + n) xs
drop-drop zero n xs = let e : zero + n ≡ n = omega arith in rw e
drop-drop (suc m) zero [] = let e : suc m + zero ≡ suc m = omega arith in rw e
drop-drop (suc m) (suc n) [] = let e : suc m + suc n ≡ suc (m + suc n) = omega arith in rw e
drop-drop (suc m) n (x ∷ xs) =
    let e : suc m + n ≡ suc (m + n) = omega arith in rw e (drop-drop m n xs)

take-min : (c : ℕ) (xs : List ℕ) → take (min c (length xs)) xs ≡ take c xs
take-min zero xs = let e : min zero (length xs) ≡ zero = omega arith in rw e
take-min (suc c) [] = let e : min (suc c) zero ≡ zero = omega arith in rw e
take-min (suc c) (x ∷ xs) =
    let e : min (suc c) (suc (length xs)) ≡ suc (min c (length xs)) = omega arith in
    rw e (ap (◌∷◌ x) (take-min c xs))

-- A chunk and all behind it.
chunk-rest :
    (offset c : ℕ) (xs : List ℕ)
    → take (min c (length xs - offset)) (drop offset xs) ++ drop (offset + c) xs ≡ drop offset xs
chunk-rest offset c xs =
    rw (← length-drop offset xs, take-min, ← drop-drop) (take-append-drop c (drop offset xs))

-- With enough fuel, and where `offset` cannot wrap round, no byte is lost or repeated.
pub concat-chunks_from :
    (fuel : ℕ) (payload : List ℕ) (offset : ℕ)
    → length payload + chunk_size ≤ 2 ^ 32
    → offset < length payload + chunk_size
    → length payload ≤ fuel + offset
    → concat (chunks_from fuel payload offset) ≡ drop offset payload
unfolding chunks_from
concat-chunks_from zero payload offset h o f = sym (drop_all offset payload (omega arith))
concat-chunks_from (suc fuel) payload offset h o f =
    elim (Bool-cases (ltb offset (length payload))) [
      | inl more ↦ ground (
        arith,
        more,
        chunk-rest offset chunk_size payload,
        concat-chunks_from fuel payload (offset + chunk_size) h,
      )
      | inr over ↦ ground (arith, over, drop_all offset payload)
    ]

pub chunks_from-nil : (fuel : ℕ) → chunks_from fuel [] 0 ≡ []
unfolding chunks_from
chunks_from-nil zero = refl
chunks_from-nil (suc fuel) = refl
