-- ===== src/Storage/Paths.antt =====
-- The names of the files of a table: lib/storage/storage_utils.h, with what it uses of the standard
-- library's texts. A text is the list of its characters' codes.
pub mod RoundTrip
use cpplite.Common.{
  ℕ, zero, suc, ◌+◌, ◌-◌, ◌*◌, ◌/◌, ◌%◌, ◌^◌, Bool, true, false, ◌&&◌, ◌||◌, Option, none, some,
  List, [], ◌∷◌, ◌++◌, ltb, leb, ◌==◌, not, if◌then◌else◌, take, drop,
}
use cpplite.Common.Outcome.{Result, ok, err, out_of_range, invalid_argument, ◌>>=◌}
use cpplite.Encoding.{Bytes}

-- The decimal digits of a number before a text, one for a unit of fuel.
unfoldable pub emit : ℕ → ℕ → Bytes → Bytes
emit zero n out = out
emit (suc fuel) n out =
    let more = emit fuel (n / 10) ((b'0' + n % 10) ∷ out) in
    if ltb n 10 then (b'0' + n) ∷ out else more

-- `std::to_string` of 64 bits, which have at most 20 digits
unfoldable pub to_string : ℕ → Bytes
unfolding emit
to_string n = emit 20 n []

abbrev pub is_digit : ℕ → Bool
is_digit c = leb b'0' c && leb c b'9'

unfoldable pub scan_digits : Bytes → ℕ → ℕ
scan_digits [] n = n
scan_digits (c ∷ s) n = if is_digit c then scan_digits s (n * 10 + (c - b'0')) else n

unfoldable pub unsigned : Bytes → Result ℕ
unfolding scan_digits
unsigned [] = err invalid_argument
unsigned (c ∷ s) =
    let n = scan_digits (c ∷ s) 0 in
    if is_digit c then (if ltb n (2 ^ 64) then ok n else err out_of_range) else err invalid_argument

unfoldable pub skip_space : Bytes → Bytes
skip_space [] = []
skip_space (c ∷ s) = if (leb 9 c && leb c 13) || (c == b' ') then skip_space s else c ∷ s

unfoldable pub signed : Bytes → Result ℕ
unfolding unsigned
signed [] = unsigned []
signed (c ∷ s) =
    if c == b'-'
    then (unsigned s >>= λ n. ok ((2 ^ 64 - n) % 2 ^ 64))
    else if c == b'+'
    then unsigned s
    else unsigned (c ∷ s)

-- `std::stoull`: it reads the digits that the text begins with and leaves the rest.
unfoldable pub stoull : Bytes → Result ℕ
unfolding signed skip_space
stoull s = signed (skip_space s)

-- `s.rfind(c)`; `none` is `npos`
unfoldable pub rfind : ℕ → Bytes → Option ℕ
rfind c [] = none
rfind c (x ∷ s) = elim (rfind c s) [
  | some i ↦ some (suc i)
  | none ↦ if x == c then some 0 else none
]

-- ".db"
abbrev pub suffix : Bytes
suffix = b'.' ∷ b'd' ∷ b'b' ∷ []

unfoldable pub tbl_path : ℕ → Bytes
unfolding to_string
tbl_path tbl_id = to_string tbl_id

unfoldable pub seg_path : ℕ → ℕ → Bytes
unfolding to_string
seg_path tbl_id seg_id = to_string tbl_id ++ (b'/' ∷ (to_string seg_id ++ suffix))

-- The path behind its last slash.
unfoldable pub last_component : Bytes → Bytes
unfolding rfind
last_component path = elim (rfind b'/' path) [
  | none ↦ path
  | some last_slash ↦ drop (suc last_slash) path
]

unfoldable pub path_to_tbl_id : Bytes → Result ℕ
unfolding last_component stoull
path_to_tbl_id path = stoull (last_component path)

-- The name without what stands behind its last dot.
unfoldable pub stem : Bytes → Bytes
unfolding rfind
stem filename = elim (rfind b'.' filename) [ none ↦ filename | some dot ↦ take dot filename ]

unfoldable pub path_to_seg_id : Bytes → Result ℕ
unfolding last_component stem stoull
path_to_seg_id path = stoull (stem (last_component path))
