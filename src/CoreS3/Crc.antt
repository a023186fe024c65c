-- ===== src/CoreS3/Crc.antt =====
-- `crc32` of crates/deskkin-core-s3/src/lib.rs: the reflected polynomial, a bit at a time.
pub mod Changes
use Prim.Native.Nat.{bit_and, bit_xor}
use deskkin.Prelude.{
  ℕ, zero, suc, ◌+◌, ◌-◌, ◌/◌, ◌%◌, ◌^◌, ◌<◌, ◌≤◌, ◌≡◌, refl, List, [], ◌∷◌, ◌++◌, arith,
}
use deskkin.Prelude.Bytes.{Bytes, AreBytes}
use deskkin.Prelude.Bits.{bit_xor-lt, bit_and-le}

abbrev pub u32_max : ℕ
u32_max = 2 ^ 32 - 1

-- `(crc >> 1) ^ (0xedb8_8320 & 0_u32.wrapping_sub(crc & 1))`
unfoldable pub crc_bit : ℕ → ℕ
crc_bit crc = bit_xor (crc / 2) (bit_and 0xedb8_8320 ((2 ^ 32 - bit_and crc 1) % 2 ^ 32))

-- `for _ in 0..n`
unfoldable pub crc_bits : ℕ → ℕ → ℕ
crc_bits zero crc = crc
crc_bits (suc n) crc = crc_bits n (crc_bit crc)

unfoldable pub crc32_update : ℕ → Bytes → ℕ
unfolding crc_bit crc_bits
crc32_update crc [] = crc
crc32_update crc (byte ∷ bytes) = crc32_update (crc_bits 8 (bit_xor crc byte)) bytes

-- `!x` on 32 bits
abbrev pub complement : ℕ → ℕ
complement x = u32_max - x

unfoldable pub crc32 : Bytes → ℕ
unfolding crc32_update
crc32 bytes = complement (crc32_update u32_max bytes)

-- the check value of CRC-32, as in IEEE 802.3: the text "123456789"
crc32_check :
    crc32 (0x31 ∷ 0x32 ∷ 0x33 ∷ 0x34 ∷ 0x35 ∷ 0x36 ∷ 0x37 ∷ 0x38 ∷ 0x39 ∷ []) ≡ 0xcbf4_3926
unfolding crc32
crc32_check = refl

pub crc_bit-lt : (crc : ℕ) → crc < 2 ^ 32 → crc_bit crc < 2 ^ 32
unfolding crc_bit
crc_bit-lt crc h =
    let mask = (2 ^ 32 - bit_and crc 1) % 2 ^ 32 in
    bit_xor-lt 32 (crc / 2) (bit_and 0xedb8_8320 mask) (omega arith)
      (omega (arith, bit_and-le 32 0xedb8_8320 mask (omega arith)))

pub crc_bits-lt : (n crc : ℕ) → crc < 2 ^ 32 → crc_bits n crc < 2 ^ 32
unfolding crc_bits
crc_bits-lt zero crc h = h
crc_bits-lt (suc n) crc h = crc_bits-lt n (crc_bit crc) (crc_bit-lt crc h)

pub crc32_update-lt :
    (crc : ℕ) (bytes : Bytes) → crc < 2 ^ 32 → AreBytes bytes → crc32_update crc bytes < 2 ^ 32
unfolding crc32_update
crc32_update-lt crc [] h hb = h
crc32_update-lt crc (byte ∷ bytes) h hb =
    crc32_update-lt (crc_bits 8 (bit_xor crc byte)) bytes
      (crc_bits-lt 8 (bit_xor crc byte) (bit_xor-lt 32 crc byte h (omega (arith, hb.0)))) hb.1

pub crc32-lt : (bytes : Bytes) → crc32 bytes < 2 ^ 32
unfolding crc32
crc32-lt bytes = omega arith

-- the update reads its bytes in order, so two parts may be given one after the other
pub crc32_update-append :
    (crc : ℕ) (xs ys : Bytes) → crc32_update crc (xs ++ ys) ≡ crc32_update (crc32_update crc xs) ys
unfolding crc32_update
crc32_update-append crc [] ys = refl
crc32_update-append crc (x ∷ xs) ys = crc32_update-append (crc_bits 8 (bit_xor crc x)) xs ys
