-- ===== src/CoreS3/Crc/Changes.antt =====
-- The checksum tells two texts apart that differ in one byte.
use deskkin.Prelude.{◌≢◌}
use deskkin.CoreS3.Crc.{crc32, u32_max}
use deskkin.Prelude.Bytes.{IsByte}
use deskkin.Prelude.{All-append}
use Prim.Native.Nat.{bit_xor}
use deskkin.Prelude.{
  ℕ, zero, suc, ◌/◌, ◌%◌, ◌^◌, ◌<◌, ◌≤◌, ◌≡◌, refl, sym, ap, ◌∙◌, ◌⊎◌, inl, inr, [], ◌∷◌, ◌++◌,
  arith,
}
use deskkin.Prelude.Bytes.{Bytes, AreBytes}
use deskkin.Prelude.Bits.{
  bit_xor-lt, bit_xor-cancel, bit_xor_comm, bit_xor-zero, bit_xor-top, bit_and-one,
}
use deskkin.CoreS3.Crc.{
  crc_bit, crc_bits, crc_bits-lt, crc_bit-lt, crc32_update, crc32_update-append, crc32_update-lt,
}

crc_bit_even : (x : ℕ) → x < 2 ^ 32 → x % 2 ≡ 0 → crc_bit x ≡ x / 2
unfolding crc_bit
crc_bit_even x h e = rw (bit_and-one 32 x h, e) (bit_xor-zero 32 (x / 2) (omega arith))

crc_bit_odd : (x : ℕ) → x < 2 ^ 32 → x % 2 ≡ 1 → crc_bit x ≡ bit_xor (x / 2) 0xedb8_8320
unfolding crc_bit
crc_bit_odd x h e = rw (bit_and-one 32 x h, e) refl

-- The top bit of the result tells whether the low bit was set.
crc_bit_odd-le : (x : ℕ) → x < 2 ^ 32 → x % 2 ≡ 1 → 2 ^ 31 ≤ crc_bit x
crc_bit_odd-le x h e = omega (
  arith,
  crc_bit_odd x h e,
  bit_xor-top 31 (x / 2) 0xedb8_8320 (omega arith) (omega arith) (omega arith),
)

parity : (x : ℕ) → (x % 2 ≡ 0) ⊎ (x % 2 ≡ 1)
parity x = omega arith

-- exclusive or with one number tells its arguments apart
pub bit_xor-injective :
    (k x y m : ℕ) → x < 2 ^ k → y < 2 ^ k → m < 2 ^ k → bit_xor x m ≡ bit_xor y m → x ≡ y
bit_xor-injective k x y m hx hy hm e =
    sym (bit_xor-cancel k x m hx hm) ∙ ap (λ (t : ℕ). bit_xor t m) e ∙ bit_xor-cancel k y m hy hm

crc_bit-injective : (x y : ℕ) → x < 2 ^ 32 → y < 2 ^ 32 → crc_bit x ≡ crc_bit y → x ≡ y
crc_bit-injective x y hx hy e = by_parity (parity x) (parity y)
  where
    by_parity : (x % 2 ≡ 0) ⊎ (x % 2 ≡ 1) → (y % 2 ≡ 0) ⊎ (y % 2 ≡ 1) → x ≡ y
    by_parity (inl p) (inl q) = omega (arith, crc_bit_even x hx p, crc_bit_even y hy q)
    by_parity (inl p) (inr q) = absurd (omega (arith, crc_bit_even x hx p, crc_bit_odd-le y hy q))
    by_parity (inr p) (inl q) = absurd (omega (arith, crc_bit_odd-le x hx p, crc_bit_even y hy q))
    by_parity (inr p) (inr q) =
        let halves : x / 2 ≡ y / 2 =
          bit_xor-injective 32 (x / 2) (y / 2) 0xedb8_8320 (omega arith) (omega arith) (omega arith)
            (sym (crc_bit_odd x hx p) ∙ e ∙ crc_bit_odd y hy q) in
        omega arith

crc_bits-injective : (n x y : ℕ) → x < 2 ^ 32 → y < 2 ^ 32 → crc_bits n x ≡ crc_bits n y → x ≡ y
unfolding crc_bits
crc_bits-injective zero x y hx hy e = e
crc_bits-injective (suc n) x y hx hy e =
    crc_bit-injective x y hx hy
      (crc_bits-injective n (crc_bit x) (crc_bit y) (crc_bit-lt x hx) (crc_bit-lt y hy) e)

crc32_update-injective :
    (bytes : Bytes) (x y : ℕ)
    → AreBytes bytes
    → x < 2 ^ 32
    → y < 2 ^ 32
    → crc32_update x bytes ≡ crc32_update y bytes
    → x ≡ y
unfolding crc32_update
crc32_update-injective [] x y hb hx hy e = e
crc32_update-injective (b ∷ bytes) x y hb hx hy e =
    let fx = bit_xor-lt 32 x b hx (omega (arith, hb.0)) in
    let fy = bit_xor-lt 32 y b hy (omega (arith, hb.0)) in
    bit_xor-injective 32 x y b hx hy (omega (arith, hb.0)) (
      crc_bits-injective 8 (bit_xor x b) (bit_xor y b) fx fy (
        crc32_update-injective bytes (crc_bits 8 (bit_xor x b)) (crc_bits 8 (bit_xor y b)) hb.1
          (crc_bits-lt 8 (bit_xor x b) fx) (crc_bits-lt 8 (bit_xor y b) fy) e))

-- one byte, at one state
update_one-injective :
    (crc x y : ℕ)
    → crc < 2 ^ 32
    → x < 256
    → y < 256
    → crc_bits 8 (bit_xor crc x) ≡ crc_bits 8 (bit_xor crc y)
    → x ≡ y
update_one-injective crc x y hc hx hy e =
    bit_xor-injective 32 x y crc (omega arith) (omega arith) hc (
      bit_xor_comm 32 x crc (omega arith) hc
      ∙ crc_bits-injective 8 (bit_xor crc x) (bit_xor crc y) (bit_xor-lt 32 crc x hc (omega arith))
          (bit_xor-lt 32 crc y hc (omega arith)) e
      ∙ sym (bit_xor_comm 32 y crc (omega arith) hc))

step_byte :
    (crc x : ℕ) (after : Bytes)
    → crc32_update crc (x ∷ after) ≡ crc32_update (crc_bits 8 (bit_xor crc x)) after
unfolding crc32_update
step_byte crc x after = refl

crc32-eq :
    (xs ys : Bytes)
    → AreBytes xs
    → AreBytes ys
    → crc32 xs ≡ crc32 ys
    → crc32_update u32_max xs ≡ crc32_update u32_max ys
unfolding crc32
crc32-eq xs ys hx hy e = omega (
  arith,
  crc32_update-lt u32_max xs (omega arith) hx,
  crc32_update-lt u32_max ys (omega arith) hy,
)

crc32_parts :
    (before after : Bytes) (x y : ℕ)
    → AreBytes before
    → AreBytes after
    → x < 256
    → y < 256
    → crc32 (before ++ x ∷ after) ≡ crc32 (before ++ y ∷ after)
    → let c = crc32_update u32_max before in
      crc32_update (crc_bits 8 (bit_xor c x)) after ≡ crc32_update (crc_bits 8 (bit_xor c y)) after
crc32_parts before after x y hb ha hx hy e =
    let c = crc32_update u32_max before in
    sym (step_byte c x after)
    ∙ sym (crc32_update-append u32_max before (x ∷ after))
    ∙ crc32-eq (before ++ x ∷ after) (before ++ y ∷ after)
        (All-append IsByte before (x ∷ after) hb (hx, ha))
        (All-append IsByte before (y ∷ after) hb (hy, ha)) e
    ∙ crc32_update-append u32_max before (y ∷ after)
    ∙ step_byte c y after

-- texts that differ in one byte at most and have the same checksum are the same
pub crc32-one_byte :
    (before after : Bytes) (x y : ℕ)
    → AreBytes before
    → AreBytes after
    → x < 256
    → y < 256
    → crc32 (before ++ x ∷ after) ≡ crc32 (before ++ y ∷ after)
    → x ≡ y
crc32-one_byte before after x y hb ha hx hy e =
    let c = crc32_update u32_max before in
    let hc : c < 2 ^ 32 = crc32_update-lt u32_max before (omega arith) hb in
    let fx = bit_xor-lt 32 c x hc (omega arith) in
    let fy = bit_xor-lt 32 c y hc (omega arith) in
    update_one-injective c x y hc hx hy (
      crc32_update-injective after (crc_bits 8 (bit_xor c x)) (crc_bits 8 (bit_xor c y)) ha
        (crc_bits-lt 8 (bit_xor c x) fx) (crc_bits-lt 8 (bit_xor c y) fy)
        (crc32_parts before after x y hb ha hx hy e))

-- Texts that differ in exactly one byte, wherever it is, have different checksums.
pub crc32-differs :
    (before after : Bytes) (x y : ℕ)
    → AreBytes before
    → AreBytes after
    → x < 256
    → y < 256
    → x ≢ y
    → crc32 (before ++ x ∷ after) ≢ crc32 (before ++ y ∷ after)
crc32-differs before after x y hb ha hx hy ne e = ne (crc32-one_byte before after x y hb ha hx hy e)
