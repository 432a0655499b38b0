-- ===== src/Storage/Paths/RoundTrip.antt =====
-- The names of the files are read back, so that two segments have two names.
use mathlib.Core.List.{append-nil}
use cpplite.Common.{
  ℕ, zero, suc, ◌+◌, ◌/◌, ◌%◌, ◌^◌, ◌<◌, ◌≡◌, refl, sym, ap, ◌∙◌, arith, true, false, none, some,
  [], ◌∷◌, ◌++◌, take, drop, length, take-append, ltb, inl, inr, Bool-cases, Option-cases,
}
use cpplite.Common.Outcome.{ok}
use cpplite.Common.Sorted.{has}
use cpplite.Encoding.{Bytes}
use cpplite.Vfs.Laws.{inside}
use cpplite.Storage.Paths.{
  emit, to_string, is_digit, scan_digits, unsigned, skip_space, signed, stoull, rfind, suffix,
  tbl_path, seg_path, stem, last_component, path_to_tbl_id, path_to_seg_id,
}

-- The text begins with no digit.
abbrev IsStopped : Bytes → Type 0
IsStopped [] = Unit {0}
IsStopped (c ∷ s) = is_digit c ≡ false

-- The text begins with a digit.
abbrev Leads : Bytes → Type 0
Leads [] = ⊥
Leads (c ∷ s) = is_digit c ≡ true

scan_stopped : (s : Bytes) (n : ℕ) → IsStopped s → scan_digits s n ≡ n
unfolding scan_digits
scan_stopped [] n h = refl
scan_stopped (c ∷ s) n h = ground (arith, h)

tenth_lt : (n fuel : ℕ) → n < 10 ^ suc fuel → n / 10 < 10 ^ fuel
tenth_lt n fuel h = omega (arith, h)

scan_digits-emit :
    (fuel n : ℕ) (out : Bytes) → n < 10 ^ fuel → scan_digits (emit fuel n out) 0 ≡ scan_digits out n
unfolding emit scan_digits
scan_digits-emit zero n out h = let e : n ≡ 0 = omega arith in rw e refl
scan_digits-emit (suc fuel) n out h =
    ground (arith, scan_digits-emit fuel (n / 10) ((b'0' + n % 10) ∷ out) (tenth_lt n fuel h))

Leads-emit : (fuel n : ℕ) (out : Bytes) → Leads out → Leads (emit fuel n out)
unfolding emit
Leads-emit zero n out l = l
Leads-emit (suc fuel) n out l = elim (Bool-cases (ltb n 10)) [
  | inl e ↦ rw e (ground arith)
  | inr e ↦ rw e (Leads-emit fuel (n / 10) ((b'0' + n % 10) ∷ out) (ground arith))
]

Leads-to_string : (n : ℕ) (rest : Bytes) → Leads (emit 20 n rest)
unfolding emit
Leads-to_string n rest = elim (Bool-cases (ltb n 10)) [
  | inl e ↦ rw e (ground arith)
  | inr e ↦ rw e (Leads-emit 19 (n / 10) ((b'0' + n % 10) ∷ rest) (ground arith))
]

emit-append : (fuel n : ℕ) (out rest : Bytes) → emit fuel n out ++ rest ≡ emit fuel n (out ++ rest)
unfolding emit
emit-append zero n out rest = refl
emit-append (suc fuel) n out rest = elim (Bool-cases (ltb n 10)) [
  | inl e ↦ rw e refl
  | inr e ↦ rw e (emit-append fuel (n / 10) ((b'0' + n % 10) ∷ out) rest)
]

stoull-Leads : (s : Bytes) → Leads s → scan_digits s 0 < 2 ^ 64 → stoull s ≡ ok (scan_digits s 0)
unfolding stoull skip_space signed unsigned
stoull-Leads [] l h = absurd l
stoull-Leads (c ∷ s) l h = ground (arith, l, h)

-- What `to_string` writes is read back, also before a text that begins with no digit.
stoull-to_string :
    (n : ℕ) (rest : Bytes) → n < 2 ^ 64 → IsStopped rest → stoull (to_string n ++ rest) ≡ ok n
unfolding to_string
stoull-to_string n rest h stop =
    let small : n < 10 ^ 20 = omega arith in
    let value : scan_digits (emit 20 n rest) 0 ≡ n =
      scan_digits-emit 20 n rest small ∙ scan_stopped rest n stop in
    rw (emit-append 20 n [] rest) (
      stoull-Leads (emit 20 n rest) (Leads-to_string n rest) (omega (arith, value, h))
      ∙ ap ok value)

rfind-emit :
    (c fuel n : ℕ) (out : Bytes)
    → is_digit c ≡ false
    → rfind c out ≡ none
    → rfind c (emit fuel n out) ≡ none
unfolding emit rfind
rfind-emit c zero n out d e = e
rfind-emit c (suc fuel) n out d e = elim (Bool-cases (ltb n 10)) [
  | inl l ↦ rw l (ground (arith, e, d))
  | inr l ↦ rw l (rfind-emit c fuel (n / 10) ((b'0' + n % 10) ∷ out) d (ground (arith, e, d)))
]

rfind-append :
    (c : ℕ) (xs ys : Bytes) → rfind c ys ≡ none → rfind c (xs ++ (c ∷ ys)) ≡ some (length xs)
unfolding rfind
rfind-append c [] ys e = ground (arith, e)
rfind-append c (x ∷ xs) ys e = rw (rfind-append c xs ys e) refl

drop-append : (xs ys : Bytes) (c : ℕ) → drop (suc (length xs)) (xs ++ (c ∷ ys)) ≡ ys
drop-append [] ys c = refl
drop-append (x ∷ xs) ys c = drop-append xs ys c

-- The name of a segment's file in its folder.
abbrev pub file_name : ℕ → Bytes
file_name seg_id = to_string seg_id ++ suffix

no_slash : (n : ℕ) → (rfind b'/' (to_string n) ≡ none) × (rfind b'/' (file_name n) ≡ none)
unfolding to_string rfind
no_slash n = (
  rfind-emit b'/' 20 n [] refl refl,
  rw (emit-append 20 n [] suffix) (rfind-emit b'/' 20 n suffix refl refl),
)

last_component-seg_path :
    (tbl_id seg_id : ℕ) → last_component (seg_path tbl_id seg_id) ≡ file_name seg_id
unfolding last_component seg_path
last_component-seg_path tbl_id seg_id =
    rw (rfind-append b'/' (to_string tbl_id) (file_name seg_id) (no_slash seg_id).1, last_component)
      (drop-append (to_string tbl_id) (file_name seg_id) b'/')

last_component-tbl_path : (tbl_id : ℕ) → last_component (tbl_path tbl_id) ≡ to_string tbl_id
unfolding last_component tbl_path
last_component-tbl_path tbl_id = rw ((no_slash tbl_id).0, last_component) refl

no_dot : rfind b'.' (b'd' ∷ b'b' ∷ []) ≡ none
unfolding rfind
no_dot = refl

stem-file_name : (seg_id : ℕ) → stem (file_name seg_id) ≡ to_string seg_id
unfolding stem
stem-file_name seg_id =
    let dot = rfind-append b'.' (to_string seg_id) (b'd' ∷ b'b' ∷ []) (no_dot) in
    rw (dot, stem) (take-append (to_string seg_id) suffix)

stoull-alone : (n : ℕ) → n < 2 ^ 64 → stoull (to_string n) ≡ ok n
stoull-alone n h = ap stoull (sym (append-nil (to_string n))) ∙ stoull-to_string n [] h tt

-- The identifier of a table and that of a segment, both of 64 bits, are read back from the names of
-- the table's folder and of the segment's file.
pub path_to_id-path :
    (tbl_id seg_id : ℕ)
    → tbl_id < 2 ^ 64
    → seg_id < 2 ^ 64
    → (path_to_tbl_id (tbl_path tbl_id) ≡ ok tbl_id)
      × (path_to_seg_id (seg_path tbl_id seg_id) ≡ ok seg_id)
unfolding path_to_tbl_id path_to_seg_id
path_to_id-path tbl_id seg_id ht hs = (
  ap stoull (last_component-tbl_path tbl_id) ∙ stoull-alone tbl_id ht,
  ap (λ (name : Bytes). stoull (stem name)) (last_component-seg_path tbl_id seg_id)
      ∙ ap stoull (stem-file_name seg_id)
      ∙ stoull-alone seg_id hs,
)

some_inj : (a b : ℕ) → some a ≡ some b → a ≡ b
some_inj a b e = cc

split :
    (c : ℕ) (xs ys xs' ys' : Bytes)
    → rfind c ys ≡ none
    → rfind c ys' ≡ none
    → xs ++ (c ∷ ys) ≡ xs' ++ (c ∷ ys')
    → xs ≡ xs'
split c xs ys xs' ys' a b e =
    let n : length xs ≡ length xs' =
      some_inj (length xs) (length xs')
        (sym (rfind-append c xs ys a) ∙ ap (rfind c) e ∙ rfind-append c xs' ys' b) in
    sym (take-append xs (c ∷ ys))
    ∙ ap (λ k. take k (xs ++ (c ∷ ys))) n
    ∙ ap (take (length xs')) e
    ∙ take-append xs' (c ∷ ys')

ok_inj : (a b : ℕ) → ok a ≡ ok b → a ≡ b
ok_inj a b e = cc

-- Two segments, of 64-bit identifiers, that have one name are one segment.
pub seg_path_inj :
    (t s t' s' : ℕ)
    → t < 2 ^ 64
    → s < 2 ^ 64
    → t' < 2 ^ 64
    → s' < 2 ^ 64
    → seg_path t s ≡ seg_path t' s'
    → (t ≡ t') × (s ≡ s')
unfolding seg_path
seg_path_inj t s t' s' ht hs ht' hs' e =
    let same_seg : ok s ≡ ok s' =
      sym (path_to_id-path t s ht hs).1 ∙ ap path_to_seg_id e ∙ (path_to_id-path t' s' ht' hs').1 in
    let folder : to_string t ≡ to_string t' =
      split b'/' (to_string t) (file_name s) (to_string t') (file_name s') (no_slash s).1
        (no_slash s').1 e in
    let same_tbl : ok t ≡ ok t' =
      sym (stoull-alone t ht) ∙ ap stoull folder ∙ stoull-alone t' ht' in
    (ok_inj t t' same_tbl, ok_inj s s' same_seg)

has-rfind : (c : ℕ) (s : Bytes) → rfind c s ≡ none → has c s ≡ false
unfolding rfind has
has-rfind c [] e = refl
has-rfind c (x ∷ s) e = elim (Option-cases (rfind c s)) [
  | inl n ↦ ground (arith, e, n, has-rfind c s n)
  | inr (i, n) ↦ absurd (ground (arith, e, n))
]

-- A segment's file stands in its table's folder, and neither name has a slash.
pub path-Plain :
    (t s : ℕ)
    → (seg_path t s ≡ inside (tbl_path t) (file_name s))
      × (has b'/' (tbl_path t) ≡ false)
      × (has b'/' (file_name s) ≡ false)
unfolding seg_path tbl_path
path-Plain t s =
    (refl, has-rfind b'/' (to_string t) (no_slash t).0, has-rfind b'/' (file_name s) (no_slash s).1)
