-- ===== src/DesktopHost/Hex.antt =====
-- Keys and transaction ids as hexadecimal text, and their comparison
-- (apps/desktop-host/src/lib.rs). A string is the list of its bytes.
pub mod Laws
use Prim.Native.Nat.{bit_or, bit_xor}
use deskkin.Prelude.{
  ℕ, ◌+◌, ◌-◌, ◌*◌, ◌/◌, ◌%◌, Bool, true, false, not, ◌&&◌, ◌||◌, List, [], ◌∷◌, length, ◌==◌, ltb,
  leb, if◌then◌else◌,
}
use deskkin.Prelude.Results.{Result, ok, err}
use deskkin.Prelude.Fallible.{◌>>=◌, ◌>>◌}
use deskkin.Prelude.Bytes.{Bytes}
use deskkin.DesktopHost.{StoreError, invalid}

-- `H[n]` for a number below 16
abbrev pub digit : ℕ → ℕ
digit n = if ltb n 10 then b'0' + n else b'a' + (n - 10)

-- `b >> 4` and `b & 15` are the quotient and the remainder
unfoldable pub hex : Bytes → Bytes
hex [] = []
hex (b ∷ bytes) = digit (b / 16) ∷ digit (b % 16) ∷ hex bytes

abbrev is_ascii_digit : ℕ → Bool
is_ascii_digit b = leb b'0' b && leb b b'9'

-- `b.is_ascii_hexdigit() && !b.is_ascii_uppercase()`
abbrev pub is_lower_hex : ℕ → Bool
is_lower_hex b = is_ascii_digit b || leb b'a' b && leb b b'f'

all_lower_hex : Bytes → Bool
all_lower_hex [] = true
all_lower_hex (b ∷ bytes) = is_lower_hex b && all_lower_hex bytes

unfoldable pub validate_hex : Bytes → ℕ → Result StoreError (Unit {0})
unfolding all_lower_hex
validate_hex value bytes =
    if not (length value == bytes * 2) || not (all_lower_hex value) then err invalid else ok tt

-- one digit of `u8::from_str_radix(_, 16)` on lower-case text
abbrev pub value_of : ℕ → Result StoreError ℕ
value_of b =
    if is_ascii_digit b
    then ok (b - b'0')
    else if leb b'a' b && leb b b'f'
    then ok (b - b'a' + 10)
    else err invalid

-- the loop of `decode_hex` over pairs of digits
decode_pairs : Bytes → Result StoreError Bytes
decode_pairs [] = ok []
decode_pairs (h ∷ []) = err invalid
decode_pairs (h ∷ l ∷ rest) = do
  high ← value_of h
  low ← value_of l
  bytes ← decode_pairs rest
  ok ((high * 16 + low) ∷ bytes)

unfoldable pub decode_hex : Bytes → Result StoreError Bytes
unfolding decode_pairs
decode_hex value = do validate_hex value (length value / 2); decode_pairs value

-- the fold of `constant_time_eq` over both slices
difference : ℕ → Bytes → Bytes → ℕ
difference acc [] right = acc
difference acc (a ∷ left) [] = acc
difference acc (a ∷ left) (b ∷ right) = difference (bit_or acc (bit_xor a b)) left right

unfoldable pub constant_time_eq : Bytes → Bytes → Bool
unfolding difference
constant_time_eq left right = length left == length right && difference 0 left right == 0
