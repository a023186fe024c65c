-- ===== src/DesktopHost/Hex/Laws.antt =====
-- Hexadecimal text is decoded to the bytes that it was made of, and the comparison is equality.
use Prim.Native.Nat.{bit_or, bit_xor}
use deskkin.Prelude.{
  ℕ, ◌+◌, ◌*◌, ◌/◌, ◌%◌, ◌<◌, ◌≡◌, ◌↔◌, refl, ap₂, true, [], ◌∷◌, length, arith, subst, ==_refl,
}
use deskkin.Prelude.Results.{ok}
use deskkin.Prelude.Bytes.{Bytes, AreBytes}
use deskkin.Prelude.Bits.{bit_or-lt, bit_or-eq_zero, bit_xor-lt, bit_xor_self, bit_xor-eq_zero}
use deskkin.DesktopHost.Hex.{
  digit, hex, all_lower_hex, is_lower_hex, validate_hex, value_of, decode_pairs, decode_hex,
  difference, constant_time_eq,
}

length-hex : (bytes : Bytes) → length (hex bytes) ≡ length bytes * 2
unfolding hex
length-hex [] = refl
length-hex (b ∷ bytes) = omega (arith, length-hex bytes)

digit-lower : (n : ℕ) → n < 16 → is_lower_hex (digit n) ≡ true
digit-lower n h = ground arith

digit-value : (n : ℕ) → n < 16 → value_of (digit n) ≡ ok n
digit-value n h = ground arith

hex-lower : (bytes : Bytes) → AreBytes bytes → all_lower_hex (hex bytes) ≡ true
unfolding hex all_lower_hex
hex-lower [] h = refl
hex-lower (b ∷ bytes) h =
    rw (digit-lower (b / 16) (omega (arith, h.0)), digit-lower (b % 16) (omega arith))
      (hex-lower bytes h.1)

decode_pairs-hex : (bytes : Bytes) → AreBytes bytes → decode_pairs (hex bytes) ≡ ok bytes
unfolding hex decode_pairs
decode_pairs-hex [] h = refl
decode_pairs-hex (b ∷ bytes) h =
    let whole : b / 16 * 16 + b % 16 ≡ b = omega arith in
    rw
      (
        digit-value (b / 16) (omega (arith, h.0)),
        digit-value (b % 16) (omega arith),
        decode_pairs-hex bytes h.1,
        whole,
      )
      refl

-- The text of bytes is valid for as many bytes, and decodes to them.
pub decode_hex-hex :
    (bytes : Bytes)
    → AreBytes bytes
    → (validate_hex (hex bytes) (length bytes) ≡ ok tt) × (decode_hex (hex bytes) ≡ ok bytes)
unfolding validate_hex decode_hex
decode_hex-hex bytes h =
    let whole : length (hex bytes) / 2 * 2 ≡ length (hex bytes) = omega (arith, length-hex bytes) in
    (
      rw (length-hex bytes, hex-lower bytes h) (ground arith),
      rw (whole, hex-lower bytes h, decode_pairs-hex bytes h) (ground arith),
    )

difference-eq_zero :
    (acc : ℕ) (left right : Bytes)
    → acc < 256
    → AreBytes left
    → AreBytes right
    → length left ≡ length right
    → difference acc left right ≡ 0
    → (acc ≡ 0) × (left ≡ right)
unfolding difference
difference-eq_zero acc [] [] fits hl hr len e = (e, refl)
difference-eq_zero acc [] (b ∷ right) fits hl hr len e = absurd (omega arith)
difference-eq_zero acc (a ∷ left) [] fits hl hr len e = absurd (omega arith)
difference-eq_zero acc (a ∷ left) (b ∷ right) fits hl hr len e =
    let x_fits = bit_xor-lt 8 a b (omega (arith, hl.0)) (omega (arith, hr.0)) in
    let (none_so_far, same) =
      difference-eq_zero (bit_or acc (bit_xor a b)) left right
        (omega (arith, bit_or-lt 8 acc (bit_xor a b) (omega arith) x_fits)) hl.1 hr.1 (omega arith)
        e in
    let (before, here) = bit_or-eq_zero 8 acc (bit_xor a b) (omega arith) x_fits none_so_far in
    (before, ap₂ ◌∷◌ (bit_xor-eq_zero 8 a b (omega (arith, hl.0)) (omega (arith, hr.0)) here) same)

difference_self : (bytes : Bytes) → AreBytes bytes → difference 0 bytes bytes ≡ 0
unfolding difference
difference_self [] h = refl
difference_self (b ∷ bytes) h =
    rw (bit_xor_self 8 b (omega (arith, h.0))) (difference_self bytes h.1)

-- Two byte strings compare equal exactly if they are equal, whatever their lengths.
pub constant_time_eq_iff :
    (left right : Bytes)
    → AreBytes left
    → AreBytes right
    → (constant_time_eq left right ≡ true) ↔ (left ≡ right)
unfolding constant_time_eq
constant_time_eq_iff left right hl hr = (
  λ e.
      let both : (length left ≡ length right) × (difference 0 left right ≡ 0) = ground arith in
      (difference-eq_zero 0 left right (omega arith) hl hr both.0 both.1).1,
  λ e. subst (λ (r : Bytes). constant_time_eq left r ≡ true) e (equal left hl),
)
  where
    equal : (bytes : Bytes) → AreBytes bytes → constant_time_eq bytes bytes ≡ true
    equal bytes h = rw (==_refl (length bytes), difference_self bytes h) refl
