-- ===== src/Record/Bitmap.antt =====
-- A bit that is set is the only one that changes.
use cpplite.Common.{
  ℕ, zero, suc, ◌+◌, ◌*◌, ◌/◌, ◌%◌, ◌≤◌, ◌<◌, ◌≡◌, refl, arith, Bool, true, false, List, [], ◌∷◌,
  ◌==◌, if◌then◌else◌, length, length-set, get_or, set, replicate,
}
use cpplite.Encoding.{Bytes}
use cpplite.Record.{
  Value, null_value, integer_value, text_value, bool_value, test_bit, or_bit, is_null, set_bit,
}

test_bit-or_bit : (m k b : ℕ) → test_bit k (or_bit m b) ≡ (if m == k then true else test_bit k b)
unfolding test_bit or_bit
test_bit-or_bit zero zero b = ground arith
test_bit-or_bit zero (suc k) b =
    let e : (b % 2 ≡ 0) → (b + 1) / 2 ≡ b / 2 = λ h. omega arith in ground (arith, e)
test_bit-or_bit (suc m) zero b = ground arith
test_bit-or_bit (suc m) (suc k) b =
    let e : (b % 2 + 2 * or_bit m (b / 2)) / 2 ≡ or_bit m (b / 2) = omega arith in
    ground (arith, e, test_bit-or_bit m k (b / 2))

get_or-set :
    (xs : List ℕ) (i j v : ℕ)
    → i < length xs
    → get_or (set xs i v) j 0 ≡ (if i == j then v else get_or xs j 0)
get_or-set [] i j v h = absurd (omega arith)
get_or-set (x ∷ xs) zero zero v h = ground arith
get_or-set (x ∷ xs) zero (suc j) v h = ground arith
get_or-set (x ∷ xs) (suc i) zero v h = ground arith
get_or-set (x ∷ xs) (suc i) (suc j) v h = ground (arith, get_or-set xs i j v)

pub is_null-set_bit :
    (nullbytes : Bytes) (i j : ℕ)
    → i < 8 * length nullbytes
    → is_null (set_bit nullbytes i) j ≡ (if i == j then true else is_null nullbytes j)
unfolding is_null set_bit
is_null-set_bit nullbytes i j h =
    let b = get_or nullbytes (i / 8) 0 in
    let s : i / 8 < length nullbytes = omega arith in
    let e : (i / 8 ≡ j / 8) → (i % 8 ≡ j % 8) → i ≡ j = λ p q. omega arith in
    ground (
      arith,
      e,
      get_or-set nullbytes (i / 8) (j / 8) (or_bit (i % 8) b) s,
      test_bit-or_bit (i % 8) (j % 8) b,
    )

pub length-set_bit : (nullbytes : Bytes) (i : ℕ) → length (set_bit nullbytes i) ≡ length nullbytes
unfolding set_bit
length-set_bit nullbytes i = length-set nullbytes (i / 8) _

-- The bitmap of the values from the `i`th on.
unfoldable pub nulls : List Value → ℕ → Bytes → Bytes
nulls [] i nullbytes = nullbytes
nulls (null_value ∷ vs) i nullbytes = nulls vs (suc i) (set_bit nullbytes i)
nulls (v ∷ vs) i nullbytes = nulls vs (suc i) nullbytes

abbrev pub holds_null : Value → Bool
holds_null null_value = true
holds_null v = false

-- The bits from the `i`th on tell which of the values are null.
abbrev pub Marks : (ℕ → Bool) → ℕ → List Value → Type 0
Marks bit i [] = Unit {0}
Marks bit i (v ∷ vs) = (bit i ≡ holds_null v) × Marks bit (suc i) vs

pub length-nulls :
    (vs : List Value) (i : ℕ) (nullbytes : Bytes) → length (nulls vs i nullbytes) ≡ length nullbytes
unfolding nulls
length-nulls [] i nullbytes = refl
length-nulls (null_value ∷ vs) i nullbytes =
    ground (arith, length-nulls vs (suc i) (set_bit nullbytes i), length-set_bit nullbytes i)
length-nulls (integer_value v ∷ vs) i nullbytes = length-nulls vs (suc i) nullbytes
length-nulls (text_value v ∷ vs) i nullbytes = length-nulls vs (suc i) nullbytes
length-nulls (bool_value v ∷ vs) i nullbytes = length-nulls vs (suc i) nullbytes

is_null-nulls :
    (vs : List Value) (i j : ℕ) (nullbytes : Bytes)
    → j < i
    → i + length vs ≤ 8 * length nullbytes
    → is_null (nulls vs i nullbytes) j ≡ is_null nullbytes j
unfolding nulls
is_null-nulls [] i j nullbytes h l = refl
is_null-nulls (null_value ∷ vs) i j nullbytes h l = ground (
  arith,
  is_null-nulls vs (suc i) j (set_bit nullbytes i),
  is_null-set_bit nullbytes i j,
  length-set_bit nullbytes i,
)
is_null-nulls (integer_value v ∷ vs) i j nullbytes h l =
    is_null-nulls vs (suc i) j nullbytes (omega arith) (omega arith)
is_null-nulls (text_value v ∷ vs) i j nullbytes h l =
    is_null-nulls vs (suc i) j nullbytes (omega arith) (omega arith)
is_null-nulls (bool_value v ∷ vs) i j nullbytes h l =
    is_null-nulls vs (suc i) j nullbytes (omega arith) (omega arith)

-- What `nulls` needs of a bitmap with no bit from the `i`th on.
abbrev pub IsClear : Bytes → ℕ → Type 0
IsClear nullbytes i = (j : ℕ) → i ≤ j → is_null nullbytes j ≡ false

pub nulls-Marks :
    (vs : List Value) (i : ℕ) (nullbytes : Bytes)
    → IsClear nullbytes i
    → i + length vs ≤ 8 * length nullbytes
    → Marks (is_null (nulls vs i nullbytes)) i vs
unfolding nulls
nulls-Marks [] i nullbytes c l = tt
nulls-Marks (null_value ∷ vs) i nullbytes c l = (
  ground (
    arith,
    is_null-nulls vs (suc i) i (set_bit nullbytes i),
    is_null-set_bit nullbytes i i,
    length-set_bit nullbytes i,
  ),
  nulls-Marks vs (suc i) (set_bit nullbytes i)
      (λ j h. ground (arith, is_null-set_bit nullbytes i j, c j))
      (ground (arith, length-set_bit nullbytes i)),
)
nulls-Marks (integer_value v ∷ vs) i nullbytes c l = (
  ground (arith, is_null-nulls vs (suc i) i nullbytes, c i),
  nulls-Marks vs (suc i) nullbytes (λ j h. c j (omega arith)) (omega arith),
)
nulls-Marks (text_value v ∷ vs) i nullbytes c l = (
  ground (arith, is_null-nulls vs (suc i) i nullbytes, c i),
  nulls-Marks vs (suc i) nullbytes (λ j h. c j (omega arith)) (omega arith),
)
nulls-Marks (bool_value v ∷ vs) i nullbytes c l = (
  ground (arith, is_null-nulls vs (suc i) i nullbytes, c i),
  nulls-Marks vs (suc i) nullbytes (λ j h. c j (omega arith)) (omega arith),
)

test_bit-zero : (k : ℕ) → test_bit k 0 ≡ false
unfolding test_bit
test_bit-zero zero = ground arith
test_bit-zero (suc k) = test_bit-zero k

get_or-replicate : (n i : ℕ) → get_or {A = ℕ} (replicate n 0) i 0 ≡ 0
get_or-replicate zero i = refl
get_or-replicate (suc n) zero = refl
get_or-replicate (suc n) (suc i) = get_or-replicate n i

pub replicate-IsClear : (n i : ℕ) → IsClear (replicate n 0) i
unfolding is_null
replicate-IsClear n i j h = rw (get_or-replicate n (j / 8)) (test_bit-zero (j % 8))
