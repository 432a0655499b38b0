-- ===== src/Storage/Offsets.antt =====
-- The pages of a segment fill its file without overlap.
use native.Mathlib.Nat.{mod-lt, mul-le-mul_right, div-add-mod}
use cpplite.Common.{
  ℕ, suc, ◌+◌, ◌*◌, ◌/◌, ◌%◌, ◌^◌, ◌≤◌, ◌<◌, ◌≡◌, ◌≢◌, ◌⊎◌, inl, inr, arith, ltb, ◌==◌, Bool-cases,
}
use cpplite.Storage.{pgno_to_segid, pgno_to_file_offset}

scaled : (a b size : ℕ) → a < b → a * size + size ≤ b * size
scaled a b size h =
    let e : suc a * size ≡ a * size + size = grind arith in
    omega (arith, e, mul-le-mul_right {m = suc a} {n = b} size (omega arith))

-- The two pages are in one segment and their places in its file do not overlap, or they are in two.
abbrev pub Apart : ℕ → ℕ → ℕ → ℕ → Type 0
Apart pages size p q =
    (pgno_to_segid p pages ≢ pgno_to_segid q pages)
    ⊎ ((pgno_to_file_offset p pages size + size ≤ pgno_to_file_offset q pages size)
        ⊎ (pgno_to_file_offset q pages size + size ≤ pgno_to_file_offset p pages size))

module _ (pages size : ℕ) (positive : 0 < pages) (small : pages * size < 2 ^ 64) where
  offset :
      (pgno : ℕ)
      → (pgno_to_file_offset pgno pages size ≡ (pgno % pages) * size)
        × ((pgno % pages) * size + size ≤ pages * size)
  unfolding pgno_to_file_offset
  offset pgno =
      let inside = scaled (pgno % pages) pages size (mod-lt pgno positive) in
      (ground (arith, inside), inside)

  same_page : (p q : ℕ) → p / pages ≡ q / pages → p % pages ≡ q % pages → p ≡ q
  same_page p q s r = ground (arith, div-add-mod p pages, div-add-mod q pages)

  -- In segments of at least one page whose size in bytes fits 64 bits, a page ends where its segment
  -- ends or before, and two pages that differ are in two segments, or in places of one segment's file
  -- that do not overlap.
  pub pgno_to_file_offset-Apart :
      (p q : ℕ)
      → p ≢ q
      → (pgno_to_file_offset p pages size + size ≤ pages * size) × Apart pages size p q
  unfolding pgno_to_segid
  pgno_to_file_offset-Apart p q d = (
    ground (arith, (offset p).0, (offset p).1),
    elim (Bool-cases (p / pages == q / pages)) [
      | inl s ↦ inr (elim (Bool-cases (ltb (p % pages) (q % pages))) [
        | inl l ↦ inl (
            ground (
              arith,
              (offset p).0,
              (offset q).0,
              scaled (p % pages) (q % pages) size (ground arith),
            ))
        | inr l ↦ inr (
            ground (
              arith,
              (offset p).0,
              (offset q).0,
              scaled (q % pages) (p % pages) size (ground (arith, same_page p q)),
            ))
      ])
      | inr s ↦ inl (ground arith)
    ],
  )
