-- ===== src/Vfs/Patch.antt =====
-- Parts of a file that bytes have been laid over.
use cpplite.Common.{
  ℕ, zero, suc, ◌+◌, ◌-◌, ◌≤◌, ◌<◌, ◌≡◌, refl, sym, ap, ◌∙◌, arith, [], ◌∷◌, ◌++◌, length, get_or,
  take_or, take, drop, replicate, ltb, if◌then◌else◌, ◌⊎◌, inl, inr, length-replicate,
  length-append, length-take, Bool-cases,
}
use cpplite.Encoding.{Bytes}
use cpplite.Vfs.{grow, patch}

get_or-nil : (i : ℕ) → get_or {A = ℕ} [] i 0 ≡ 0
get_or-nil i = refl

get_or-drop : (k : ℕ) (xs : Bytes) (i : ℕ) → get_or (drop k xs) i 0 ≡ get_or xs (k + i) 0
get_or-drop zero xs i = let e : zero + i ≡ i = omega arith in rw e refl
get_or-drop (suc k) [] i = refl
get_or-drop (suc k) (x ∷ xs) i =
    let e : suc k + i ≡ suc (k + i) = omega arith in rw e (get_or-drop k xs i)

pub length-take_or : (n : ℕ) (xs : Bytes) → length (take_or n 0 xs) ≡ n
length-take_or zero xs = refl
length-take_or (suc n) [] = ap suc (length-take_or n [])
length-take_or (suc n) (x ∷ xs) = ap suc (length-take_or n xs)

get_or-take_or : (n : ℕ) (xs : Bytes) (i : ℕ) → i < n → get_or (take_or n 0 xs) i 0 ≡ get_or xs i 0
get_or-take_or zero xs i h = absurd (omega arith)
get_or-take_or (suc n) [] zero h = refl
get_or-take_or (suc n) [] (suc i) h = get_or-take_or n [] i (omega arith)
get_or-take_or (suc n) (x ∷ xs) zero h = refl
get_or-take_or (suc n) (x ∷ xs) (suc i) h = get_or-take_or n xs i (omega arith)

get_or-front : (xs ys : Bytes) (i : ℕ) → i < length xs → get_or (xs ++ ys) i 0 ≡ get_or xs i 0
get_or-front [] ys i h = absurd (omega arith)
get_or-front (x ∷ xs) ys zero h = refl
get_or-front (x ∷ xs) ys (suc i) h = get_or-front xs ys i (omega arith)

get_or-back :
    (xs ys : Bytes) (i : ℕ) → length xs ≤ i → get_or (xs ++ ys) i 0 ≡ get_or ys (i - length xs) 0
get_or-back [] ys i h = let e : i - zero ≡ i = omega arith in rw e refl
get_or-back (x ∷ xs) ys zero h = absurd (omega arith)
get_or-back (x ∷ xs) ys (suc i) h =
    let e : suc i - suc (length xs) ≡ i - length xs = omega arith in
    rw e (get_or-back xs ys i (omega arith))

-- Outside the bytes, and in them.
pub get_or-patch :
    (offset : ℕ) (bytes under : Bytes) (i : ℕ)
    → get_or (patch offset bytes under) i 0 ≡ (
        if ltb i offset
        then get_or under i 0
        else if ltb i (offset + length bytes)
        then get_or bytes (i - offset) 0
        else get_or under i 0)
get_or-patch offset bytes under i =
    let front = take_or offset 0 under in
    let back = drop (offset + length bytes) under in
    let l = length-take_or offset under in
    elim (Bool-cases (ltb i offset)) [
      | inl a ↦ rw a (
          get_or-front front (bytes ++ back) i (ground (arith, a, l))
          ∙ get_or-take_or offset under i (ground (arith, a)))
      | inr a ↦
          let step : get_or (patch offset bytes under) i 0 ≡ get_or (bytes ++ back) (i - offset) 0 =
            get_or-back front (bytes ++ back) i (ground (arith, a, l))
            ∙ ap (λ n. get_or (bytes ++ back) (i - n) 0) l in
          elim (Bool-cases (ltb i (offset + length bytes))) [
            | inl b ↦ rw (a, b) (step ∙ get_or-front bytes back (i - offset) (ground (arith, a, b)))
            | inr b ↦
                let e : offset + length bytes + (i - offset - length bytes) ≡ i =
                  ground (arith, a, b) in
                rw (a, b)
                  (step
                    ∙ get_or-back bytes back (i - offset) (ground (arith, a, b))
                    ∙ get_or-drop (offset + length bytes) under (i - offset - length bytes)
                    ∙ ap (λ n. get_or under n 0) e)
          ]
    ]

-- A page is the bytes at its place, zero where there are none.
abbrev pub page : ℕ → ℕ → Bytes → Bytes
page size offset content = take_or size 0 (drop offset content)

take_or_ext :
    (n : ℕ) (xs ys : Bytes)
    → ((i : ℕ) → i < n → get_or xs i 0 ≡ get_or ys i 0)
    → take_or n 0 xs ≡ take_or n 0 ys
take_or_ext zero xs ys h = refl
take_or_ext (suc n) [] [] h = refl
take_or_ext (suc n) [] (y ∷ ys) h =
    cc (h 0 (omega arith), take_or_ext n [] ys (λ i l. h (suc i) (omega arith)))
take_or_ext (suc n) (x ∷ xs) [] h =
    cc (h 0 (omega arith), take_or_ext n xs [] (λ i l. h (suc i) (omega arith)))
take_or_ext (suc n) (x ∷ xs) (y ∷ ys) h =
    cc (h 0 (omega arith), take_or_ext n xs ys (λ i l. h (suc i) (omega arith)))

page_ext :
    (size offset : ℕ) (xs ys : Bytes)
    → ((i : ℕ) → i < size → get_or xs (offset + i) 0 ≡ get_or ys (offset + i) 0)
    → page size offset xs ≡ page size offset ys
page_ext size offset xs ys h =
    take_or_ext size (drop offset xs) (drop offset ys)
      (λ i l. get_or-drop offset xs i ∙ h i l ∙ sym (get_or-drop offset ys i))

take_or-all : (xs : Bytes) → take_or (length xs) 0 xs ≡ xs
take_or-all [] = refl
take_or-all (x ∷ xs) = ap (◌∷◌ x) (take_or-all xs)

-- The page that the bytes fill is the bytes.
pub page-patch :
    (offset : ℕ) (bytes under : Bytes)
    → page (length bytes) offset (patch offset bytes under) ≡ bytes
page-patch offset bytes under =
    take_or_ext (length bytes) (drop offset (patch offset bytes under)) bytes (λ i l.
      let e : offset + i - offset ≡ i = omega arith in
      get_or-drop offset (patch offset bytes under) i
      ∙ ground
          (arith, get_or-patch offset bytes under (offset + i), l, ap (λ k. get_or bytes k 0) e))
    ∙ take_or-all bytes

-- A page beside the bytes is what it was.
pub page-apart :
    (size offset place : ℕ) (bytes under : Bytes)
    → (offset + length bytes ≤ place) ⊎ (place + size ≤ offset)
    → page size place (patch offset bytes under) ≡ page size place under
page-apart size offset place bytes under apart =
    page_ext size place (patch offset bytes under) under
      (λ i l. ground (arith, apart, get_or-patch offset bytes under (place + i), l))

take_or-nil : (n : ℕ) → replicate n 0 ≡ take_or {A = ℕ} n 0 []
take_or-nil zero = refl
take_or-nil (suc n) = ap (◌∷◌ 0) (take_or-nil n)

take-pad :
    (n : ℕ) (xs : Bytes) → take n xs ++ drop (length (take n xs)) (replicate n 0) ≡ take_or n 0 xs
take-pad zero xs = refl
take-pad (suc n) [] = take_or-nil (suc n)
take-pad (suc n) (x ∷ xs) = ap (◌∷◌ x) (take-pad n xs)

-- What is read into an empty buffer is the page.
pub read-page :
    (size offset : ℕ) (content : Bytes)
    → patch 0 (take size (drop offset content)) (grow size []) ≡ page size offset content
read-page size offset content =
    let bytes = take size (drop offset content) in
    let e : 0 + length bytes ≡ length bytes = omega arith in
    let f : size - 0 ≡ size = omega arith in rw (e, f) (take-pad size (drop offset content))

pub length-grown : (len : ℕ) (buffer : Bytes) → length (take len (grow len buffer)) ≡ len
length-grown len buffer = omega (
  arith,
  length-take len (grow len buffer),
  length-append buffer (replicate (len - length buffer) 0),
  length-replicate {A = ℕ} (len - length buffer) 0,
)
