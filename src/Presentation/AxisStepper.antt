-- ===== src/Presentation/AxisStepper.antt =====
-- `AxisStepper` of crates/deskkin-presentation/src/lib.rs: the source coordinates of a scaled line,
-- by repeated addition.
pub mod Exact
use native.Mathlib.Nat.{div-le_self}
use native.Mathlib.Nat.{
  div-add-mod, mod-lt, add-mul-div_right, div-eq_of_lt, le-div_iff_mul-le, div-lt_iff_lt-mul,
}
use deskkin.Prelude.{
  ℕ, zero, suc, ◌+◌, ◌-◌, ◌*◌, ◌/◌, ◌%◌, ◌^◌, ◌<◌, ◌≤◌, ◌≡◌, refl, sym, ap, ap₂, ◌∙◌, ◌⊎◌, inl, inr,
  true, false, List, [], ◌∷◌, arith, leb, if◌then◌else◌,
}

pub record AxisStepper : Type 0 where
  pub coordinate : ℕ
  pub step : ℕ
  pub remainder : ℕ
  pub remainder_step : ℕ
  pub denominator : ℕ

-- `as u32`, and what a u32 or u64 holds after an addition or a multiplication that wraps
abbrev pub as_u32 : ℕ → ℕ
as_u32 x = x % 2 ^ 32

abbrev pub as_u64 : ℕ → ℕ
as_u64 x = x % 2 ^ 64

-- The source size is a u16, the destination a positive i32 and the offset not negative.
unfoldable pub new : ℕ → ℕ → ℕ → AxisStepper
new source destination offset =
    let numerator = source * 2 ^ 16 in
    let start = as_u64 (offset * numerator) in
    record {
      coordinate = as_u32 (start / destination);
      step = as_u32 (numerator / destination);
      remainder = as_u32 (start % destination);
      remainder_step = as_u32 (numerator % destination);
      denominator = as_u32 destination;
    }

-- the carry of `take`
abbrev carry : AxisStepper → AxisStepper
carry stepper =
    if leb stepper.denominator stepper.remainder
    then record stepper {
      remainder = stepper.remainder - stepper.denominator;
      coordinate = as_u32 (stepper.coordinate + 1);
    }
    else stepper

-- the coordinate before the step, and the next state
unfoldable pub take : AxisStepper → ℕ × AxisStepper
take stepper = (
  stepper.coordinate,
  carry (record stepper {
    coordinate = as_u32 (stepper.coordinate + stepper.step);
    remainder = as_u32 (stepper.remainder + stepper.remainder_step);
  }),
)

unfoldable pub takes : ℕ → AxisStepper → List ℕ
takes zero stepper = []
takes (suc n) stepper = (take stepper).0 ∷ takes n (take stepper).1
