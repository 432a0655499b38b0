-- ===== src/Encoding/RoundTrip.antt =====
-- What the readers return behind a prefix that something else has written.
use cpplite.Common.{
  ℕ, zero, suc, ◌+◌, ◌*◌, ◌/◌, ◌%◌, ◌^◌, ◌<◌, ◌≡◌, refl, sym, ap, ◌∙◌, Bool, [], ◌∷◌, ◌++◌, arith,
  length, length-append, get_or-append, take, drop, take-append, if◌then◌else◌,
}
use mathlib.Core.List.{append_assoc, append-nil}
use cpplite.Common.Outcome.{ok}
use cpplite.Encoding.{
  Bytes, append_be, append_uint8, append_uint16, append_uint32, append_uint64, append_bool,
  append_str, read_uint8, read_uint16, read_uint32, read_uint64, read_be, read_bool, read_str,
}

-- The bytes of a number, the most significant first.
unfoldable pub be : ℕ → ℕ → Bytes
be zero val = []
be (suc i) val = val / 2 ^ (i * 8) % 256 ∷ be i val

pub append_be-be : (n : ℕ) (buffer : Bytes) (val : ℕ) → append_be n buffer val ≡ buffer ++ be n val
unfolding append_be be
append_be-be zero buffer val = sym (append-nil buffer)
append_be-be (suc n) buffer val =
    append_be-be n (buffer ++ (val / 2 ^ (n * 8) % 256 ∷ [])) val ∙ append_assoc buffer _ _

pub length-be : (n val : ℕ) → length (be n val) ≡ n
unfolding be
length-be zero val = refl
length-be (suc n) val = ap suc (length-be n val)

read_be-append :
    (n : ℕ) (pre ys : Bytes) (k val : ℕ)
    → read_be n (pre ++ ys) (length pre + k) val ≡ read_be n ys k val
unfolding read_be
read_be-append zero pre ys k val = refl
read_be-append (suc n) pre ys k val =
    let e : length pre + k + 1 ≡ length pre + (k + 1) = omega arith in
    rw (e, get_or-append pre ys k 0) (read_be-append n pre ys (k + 1) _)

module _ (pre rest : Bytes) (v : ℕ) where
  pub read16 :
      v < 2 ^ 16 → read_uint16 (pre ++ (be 2 v ++ rest)) (length pre) ≡ ok (v, length pre + 2)
  unfolding read_uint16 be
  read16 h = ground (
    arith,
    get_or-append pre (be 2 v ++ rest) 0 0,
    get_or-append pre (be 2 v ++ rest) 1 0,
    length-append pre (be 2 v ++ rest),
  )

  pub read32 :
      v < 2 ^ 32 → read_uint32 (pre ++ (be 4 v ++ rest)) (length pre) ≡ ok (v, length pre + 4)
  unfolding read_uint32 be
  read32 h = ground (
    arith,
    get_or-append pre (be 4 v ++ rest) 0 0,
    get_or-append pre (be 4 v ++ rest) 1 0,
    get_or-append pre (be 4 v ++ rest) 2 0,
    get_or-append pre (be 4 v ++ rest) 3 0,
    length-append pre (be 4 v ++ rest),
  )

  read64_value : v < 2 ^ 64 → read_be 8 (be 8 v ++ rest) 0 0 ≡ v
  unfolding read_be be
  read64_value h = omega arith

  pub read64 :
      v < 2 ^ 64 → read_uint64 (pre ++ (be 8 v ++ rest)) (length pre) ≡ ok (v, length pre + 8)
  unfolding read_uint64
  read64 h = ground (
    arith,
    read64_value h,
    read_be-append 8 pre (be 8 v ++ rest) 0 0,
    length-append pre (be 8 v ++ rest),
    length-append (be 8 v) rest,
    length-be 8 v,
  )

pub append_uint-be :
    (buffer : Bytes) (v : ℕ)
    → (append_uint16 buffer v ≡ buffer ++ be 2 v)
      × (append_uint32 buffer v ≡ buffer ++ be 4 v)
      × (append_uint64 buffer v ≡ buffer ++ be 8 v)
unfolding append_uint16 append_uint32 append_uint64
append_uint-be buffer v =
    (append_be-be 2 buffer v, append_be-be 4 buffer v, append_be-be 8 buffer v)

-- A number that fits its width is read back behind whatever was written before it and before
-- whatever is written after it, and the offset moves on by its bytes: for 16, 32 and 64 bits.
pub read_uint-append_uint :
    (pre rest : Bytes) (a b c : ℕ)
    → a < 2 ^ 16
    → b < 2 ^ 32
    → c < 2 ^ 64
    → (read_uint16 (append_uint16 pre a ++ rest) (length pre) ≡ ok (a, length pre + 2))
      × (read_uint32 (append_uint32 pre b ++ rest) (length pre) ≡ ok (b, length pre + 4))
      × (read_uint64 (append_uint64 pre c ++ rest) (length pre) ≡ ok (c, length pre + 8))
read_uint-append_uint pre rest a b c ha hb hc = (
  rw ((append_uint-be pre a).0, append_assoc) (read16 pre rest a ha),
  rw ((append_uint-be pre b).1, append_assoc) (read32 pre rest b hb),
  rw ((append_uint-be pre c).2, append_assoc) (read64 pre rest c hc),
)

take-drop :
    (pre str rest : Bytes) → take (length str) (drop (length pre) (pre ++ (str ++ rest))) ≡ str
take-drop [] str rest = take-append str rest
take-drop (b ∷ pre) str rest = take-drop pre str rest

-- A byte, a Boolean and a text whose length is known are read back behind whatever was written
-- before them and before whatever is written after them, and the offset moves on by their bytes.
pub read-append_str :
    (pre rest str : Bytes) (byte : ℕ) (flag : Bool)
    → (read_uint8 (append_uint8 pre byte ++ rest) (length pre) ≡ ok (byte, length pre + 1))
      × (read_bool (append_bool pre flag ++ rest) (length pre) ≡ ok (flag, length pre + 1))
      × (read_str (append_str pre str ++ rest) (length str) (length pre)
          ≡ ok (str, length pre + length str))
unfolding append_uint8 read_uint8 append_bool read_bool append_str read_str
read-append_str pre rest str byte flag =
    let flag_byte : ℕ = if flag then 1 else 0 in
    (
      rw append_assoc
          (ground (arith, get_or-append pre (byte ∷ rest) 0 0, length-append pre (byte ∷ rest))),
      rw append_assoc (
          ground (
            arith,
            get_or-append pre (flag_byte ∷ rest) 0 0,
            length-append pre (flag_byte ∷ rest),
          )),
      rw append_assoc (
          ground (
            arith,
            take-drop pre str rest,
            length-append pre (str ++ rest),
            length-append str rest,
          )),
    )
