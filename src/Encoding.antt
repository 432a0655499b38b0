-- ===== src/Encoding.antt =====
-- lib/encoding.h and lib/encoding.cpp. A buffer is a list of bytes, each a number below 256. A
-- reader takes the buffer and an offset, and returns the value with the new offset. `a << 8 | b`
-- is `a * 256 + b`, which is the same number when `b` is a byte.
pub mod RoundTrip
use cpplite.Common.{
  ℕ, zero, suc, ◌+◌, ◌-◌, ◌*◌, ◌/◌, ◌%◌, ◌^◌, Bool, true, false, List, [], ◌∷◌, ◌++◌, ltb, ◌==◌,
  not, if◌then◌else◌, length, get_or, take, drop,
}
use cpplite.Common.Outcome.{Result, ok, err, out_of_range}

abbrev pub Bytes : Type 0
Bytes = List ℕ

unfoldable pub append_uint8 : Bytes → ℕ → Bytes
append_uint8 buffer val = buffer ++ (val ∷ [])

-- `for (i = n - 1; i >= 0; i--) buffer.push_back((val >> (i * 8)) & 0xFF)`
unfoldable pub append_be : ℕ → Bytes → ℕ → Bytes
append_be zero buffer val = buffer
append_be (suc i) buffer val = append_be i (buffer ++ (val / 2 ^ (i * 8) % 256 ∷ [])) val

unfoldable pub append_uint16 : Bytes → ℕ → Bytes
unfolding append_be
append_uint16 buffer val = append_be 2 buffer val

unfoldable pub append_uint32 : Bytes → ℕ → Bytes
unfolding append_be
append_uint32 buffer val = append_be 4 buffer val

unfoldable pub append_uint64 : Bytes → ℕ → Bytes
unfolding append_be
append_uint64 buffer val = append_be 8 buffer val

unfoldable pub append_bool : Bytes → Bool → Bytes
append_bool buffer val = buffer ++ ((if val then 1 else 0) ∷ [])

unfoldable pub append_str : Bytes → Bytes → Bytes
append_str buffer str = buffer ++ str

abbrev byte_at : Bytes → ℕ → ℕ
byte_at buffer i = get_or buffer i 0

unfoldable pub read_uint8 : Bytes → ℕ → Result (ℕ × ℕ)
read_uint8 buffer offset =
    if ltb (length buffer) (offset + 1)
    then err out_of_range
    else ok (byte_at buffer offset, offset + 1)

unfoldable pub read_uint16 : Bytes → ℕ → Result (ℕ × ℕ)
read_uint16 buffer offset =
    if ltb (length buffer) (offset + 2)
    then err out_of_range
    else ok (byte_at buffer offset * 256 + byte_at buffer (offset + 1), offset + 2)

unfoldable pub read_uint32 : Bytes → ℕ → Result (ℕ × ℕ)
read_uint32 buffer offset =
    if ltb (length buffer) (offset + 4)
    then err out_of_range
    else ok (
      byte_at buffer offset * 2 ^ 24
          + byte_at buffer (offset + 1) * 2 ^ 16
          + byte_at buffer (offset + 2) * 2 ^ 8
          + byte_at buffer (offset + 3),
      offset + 4,
    )

-- `for (i = 0; i < 8; ++i) val = (val << 8) | buffer[offset + i]`, by the rounds left
unfoldable pub read_be : ℕ → Bytes → ℕ → ℕ → ℕ
read_be zero buffer offset val = val
read_be (suc n) buffer offset val =
    read_be n buffer (offset + 1) ((val * 256 + byte_at buffer offset) % 2 ^ 64)

unfoldable pub read_uint64 : Bytes → ℕ → Result (ℕ × ℕ)
unfolding read_be
read_uint64 buffer offset =
    if ltb (length buffer) (offset + 8)
    then err out_of_range
    else ok (read_be 8 buffer offset 0, offset + 8)

unfoldable pub read_bool : Bytes → ℕ → Result (Bool × ℕ)
read_bool buffer offset =
    if ltb (length buffer) (offset + 1)
    then err out_of_range
    else ok (not (byte_at buffer offset == 0), offset + 1)

unfoldable pub read_str : Bytes → ℕ → ℕ → Result (Bytes × ℕ)
read_str buffer len offset =
    if ltb (length buffer) (offset + len)
    then err out_of_range
    else ok (take len (drop offset buffer), offset + len)
