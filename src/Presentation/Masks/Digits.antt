-- ===== src/Presentation/Masks/Digits.antt =====
-- One binary digit of a number, and what reading and setting it make of it.
use Prim.Native.Nat.{bit_and, bit_or}
use native.Mathlib.Nat.{pow-suc}
use deskkin.Prelude.{
  ℕ, zero, suc, ◌*◌, ◌/◌, ◌%◌, ◌^◌, ◌<◌, ◌==◌, ◌≡◌, refl, ap, ◌∙◌, true, not, ◌||◌, max, lt-cases,
  inl, inr, arith, if◌then◌else◌,
}
use deskkin.Prelude.Bits.{bit_and_step, bit_and-one, bit_or_step}

abbrev digit : ℕ → ℕ → ℕ
digit zero n = n % 2
digit (suc i) n = digit i (n / 2)

digit-lt : (i n : ℕ) → digit i n < 2
digit-lt zero n = omega arith
digit-lt (suc i) n = digit-lt i (n / 2)

fits_itself : (n : ℕ) → n < 2 ^ n
fits_itself zero = omega arith
fits_itself (suc n) = omega (arith, pow-suc 2 n, fits_itself n)

bit_and-pow : (i n : ℕ) → bit_and n (2 ^ i) ≡ 2 ^ i * digit i n
bit_and-pow zero n = omega (arith, bit_and-one n n (fits_itself n))
bit_and-pow (suc i) n =
    let half : 2 ^ suc i / 2 ≡ 2 ^ i = omega (arith, pow-suc 2 i) in
    let even : 2 ^ suc i % 2 ≡ 0 = omega (arith, pow-suc 2 i) in
    let step = bit_and_step n (2 ^ suc i) in
    let rest = ap (bit_and (n / 2)) half ∙ bit_and-pow i (n / 2) in
    let wide = ap (λ p. p * digit i (n / 2)) (pow-suc 2 i) in omega (arith, step, even, rest, wide)

digit-bit_or : (i a b : ℕ) → digit i (bit_or a b) ≡ max (digit i a) (digit i b)
digit-bit_or zero a b = omega (arith, bit_or_step a b)
digit-bit_or (suc i) a b =
    let half : bit_or a b / 2 ≡ bit_or (a / 2) (b / 2) = omega (arith, bit_or_step a b) in
    ap (digit i) half ∙ digit-bit_or i (a / 2) (b / 2)

digit-none : (i : ℕ) → digit i 0 ≡ 0
digit-none zero = refl
digit-none (suc i) = digit-none i

digit-pow : (i j : ℕ) → digit i (2 ^ j) ≡ (if i == j then 1 else 0)
digit-pow zero zero = refl
digit-pow zero (suc j) = ground (arith, pow-suc 2 j)
digit-pow (suc i) zero = ground (arith, digit-none i)
digit-pow (suc i) (suc j) =
    let half : 2 ^ suc j / 2 ≡ 2 ^ j = omega (arith, pow-suc 2 j) in
    ground (arith, ap (digit i) half, digit-pow i j)

-- what has_bit and set_bit do within a byte
pub bit_and-pow-zero : (i n : ℕ) → (bit_and n (2 ^ i) == 0) ≡ (digit i n == 0)
bit_and-pow-zero i n =
    let positive : 0 < 2 ^ i = omega (arith, fits_itself i) in
    elim (lt-cases (digit i n) 1) [
      | inl absent ↦
          let gone : digit i n ≡ 0 = omega arith in
          let zero_product = ap (λ d. 2 ^ i * d) gone in
          ground (arith, bit_and-pow i n, zero_product, gone)
      | inr one ↦
          let there : digit i n ≡ 1 = omega (arith, digit-lt i n) in
          let product = ap (λ d. 2 ^ i * d) there in
          ground (arith, bit_and-pow i n, product, there, positive)
    ]

pub reads_or :
    (i j n : ℕ)
    → not (bit_and (bit_or n (2 ^ j)) (2 ^ i) == 0) ≡ ((i == j) || not (bit_and n (2 ^ i) == 0))
reads_or i j n = ground (
  arith,
  bit_and-pow-zero i (bit_or n (2 ^ j)),
  bit_and-pow-zero i n,
  digit-bit_or i n (2 ^ j),
  digit-pow i j,
  digit-lt i n,
)

pub none_set : (i : ℕ) → (bit_and 0 (2 ^ i) == 0) ≡ true
none_set i = ground (arith, bit_and-pow-zero i 0, digit-none i)
