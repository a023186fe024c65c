-- ===== src/Presentation/AxisStepper/Exact.antt =====
-- The steps give the exact coordinates.
use native.Mathlib.Nat.{div-le_self}
use native.Mathlib.Nat.{
  div-add-mod, mod-lt, add-mul-div_right, div-eq_of_lt, le-div_iff_mul-le, div-lt_iff_lt-mul,
}
use deskkin.Prelude.{
  ℕ, zero, suc, ◌+◌, ◌*◌, ◌/◌, ◌%◌, ◌^◌, ◌<◌, ◌≤◌, ◌≡◌, refl, sym, ap, ap₂, ◌∙◌, ◌⊎◌, inl, inr,
  true, false, List, [], ◌∷◌, arith, leb,
}
use deskkin.Presentation.AxisStepper.{AxisStepper, as_u32, as_u64, new, take, takes}

-- the coordinates by division, from an offset
unfoldable pub floors : ℕ → ℕ → ℕ → ℕ → List ℕ
floors zero source destination offset = []
floors (suc n) source destination offset =
    (offset * (source * 2 ^ 16) / destination) ∷ floors n source destination (suc offset)

cases : (a b : ℕ) → (a < b) ⊎ (b ≤ a)
cases a b = ground arith

-- the invariant: coordinate and remainder are the quotient and the remainder
record IsAt (numerator destination offset : ℕ) (s : AxisStepper) : Type 0 where
  divides : s.coordinate * destination + s.remainder ≡ offset * numerator
  remains : s.remainder < destination
  step_divides : s.step * destination + s.remainder_step ≡ numerator
  step_remains : s.remainder_step < destination
  bounds : s.denominator ≡ destination

quotient : (q r d m : ℕ) → r < d → q * d + r ≡ m → q ≡ m / d
quotient q r d m below e = sym (
    ap (λ (t : ℕ). t / d) {x = m} {y = r + q * d} (omega arith)
    ∙ add-mul-div_right r q (omega arith)
    ∙ ap (λ (t : ℕ). t + q) (div-eq_of_lt below)
    ∙ omega arith)

module _ (numerator destination : ℕ) (some_width : 0 < destination)
    (narrow : destination < 2 ^ 31) where
  fits : (q m : ℕ) → q * destination ≤ m → m < 2 ^ 32 * destination → q < 2 ^ 32
  fits q m below room =
      let at_most = (le-div_iff_mul-le {k = destination} {x = q} {y = m} some_width).1 below in
      let less = (div-lt_iff_lt-mul {k = destination} {x = m} {y = 2 ^ 32} some_width).1 room in
      omega (arith, at_most, less)

  module _ (offset : ℕ) (s : AxisStepper) (h : IsAt numerator destination offset s)
      (room : suc offset * numerator < 2 ^ 32 * destination) where
    no_wrap : as_u32 (s.remainder + s.remainder_step) ≡ s.remainder + s.remainder_step
    no_wrap = omega (arith, h.remains, h.step_remains)

    adds :
        (s.coordinate + s.step) * destination + (s.remainder + s.remainder_step)
        ≡ suc offset * numerator
    adds = omega (arith, h.divides, h.step_divides)

    coordinate_fits : s.coordinate + s.step < 2 ^ 32
    coordinate_fits =
        fits (s.coordinate + s.step) (suc offset * numerator) (omega (arith, adds)) room

    take-carries :
        destination ≤ s.remainder + s.remainder_step
        → IsAt numerator destination (suc offset) (take s).1
    unfolding take
    take-carries over =
        let next_fits : s.coordinate + s.step + 1 < 2 ^ 32 =
          fits (s.coordinate + s.step + 1) (suc offset * numerator) (omega (arith, adds)) room in
        let coordinate : as_u32 (s.coordinate + s.step) ≡ s.coordinate + s.step =
          omega (arith, coordinate_fits) in
        let next : as_u32 (s.coordinate + s.step + 1) ≡ s.coordinate + s.step + 1 =
          omega (arith, next_fits) in
        let carries : leb s.denominator (s.remainder + s.remainder_step) ≡ true =
          ground (arith, h.bounds) in
        rw (coordinate, no_wrap, carries, next)
          (record {
            divides = omega (arith, adds, h.bounds);
            remains = omega (arith, h.bounds, h.remains, h.step_remains);
            step_divides = h.step_divides;
            step_remains = h.step_remains;
            bounds = h.bounds;
          })

    take-stays :
        s.remainder + s.remainder_step < destination
        → IsAt numerator destination (suc offset) (take s).1
    unfolding take
    take-stays under =
        let coordinate : as_u32 (s.coordinate + s.step) ≡ s.coordinate + s.step =
          omega (arith, coordinate_fits) in
        let stays : leb s.denominator (s.remainder + s.remainder_step) ≡ false =
          ground (arith, h.bounds) in
        rw (coordinate, no_wrap, stays)
          (record {
            divides = adds;
            remains = under;
            step_divides = h.step_divides;
            step_remains = h.step_remains;
            bounds = h.bounds;
          })

    take-IsAt : IsAt numerator destination (suc offset) (take s).1
    take-IsAt = elim (cases (s.remainder + s.remainder_step) destination) [
      | inl under ↦ take-stays under
      | inr over ↦ take-carries over
    ]

new-IsAt :
    (source destination offset : ℕ)
    → source < 2 ^ 16
    → 0 < destination
    → destination < 2 ^ 31
    → offset * (source * 2 ^ 16) < 2 ^ 32 * destination
    → IsAt (source * 2 ^ 16) destination offset (new source destination offset)
unfolding new
new-IsAt source destination offset small some_width narrow room =
    let numerator = source * 2 ^ 16 in
    let start = offset * numerator in
    let whole : as_u64 start ≡ start = omega (arith, room) in
    let left = mod-lt start some_width in
    let step_left = mod-lt numerator some_width in
    let coordinate : as_u32 (start / destination) ≡ start / destination = omega (
      arith,
      fits (source * 2 ^ 16) destination some_width narrow (start / destination) start
          (omega (arith, div-add-mod start destination)) room,
    ) in
    let step : as_u32 (numerator / destination) ≡ numerator / destination =
      omega (arith, div-le_self numerator destination) in
    let remainder : as_u32 (start % destination) ≡ start % destination = omega (arith, left) in
    let remainder_step : as_u32 (numerator % destination) ≡ numerator % destination =
      omega (arith, step_left) in
    rw (whole, coordinate, step, remainder, remainder_step)
      (record {
        divides = omega (arith, div-add-mod start destination);
        remains = left;
        step_divides = omega (arith, div-add-mod numerator destination);
        step_remains = step_left;
        bounds = omega arith;
      })

takes-from :
    (n source destination offset : ℕ) (s : AxisStepper)
    → 0 < destination
    → destination < 2 ^ 31
    → (offset + n) * (source * 2 ^ 16) < 2 ^ 32 * destination
    → IsAt (source * 2 ^ 16) destination offset s
    → takes n s ≡ floors n source destination offset
unfolding takes floors
takes-from zero source destination offset s some_width narrow room h = refl
takes-from (suc n) source destination offset s some_width narrow room h =
    let numerator = source * 2 ^ 16 in
    ap₂ ◌∷◌
      (unfold take in
        quotient s.coordinate s.remainder destination (offset * numerator) h.remains h.divides)
      (takes-from n source destination (suc offset) (take s).1 some_width narrow
        (omega (arith, room))
        (take-IsAt numerator destination some_width narrow offset s h (omega (arith, room))))

-- n steps from any offset give the exact coordinates, each the offset times the source size in 16.16
-- fixed point, divided by the destination size and rounded down: adding up the remainders loses
-- nothing, as long as the last coordinate fits 32 bits.
pub takes-floors :
    (n source destination offset : ℕ)
    → source < 2 ^ 16
    → 0 < destination
    → destination < 2 ^ 31
    → (offset + n) * (source * 2 ^ 16) < 2 ^ 32 * destination
    → takes n (new source destination offset) ≡ floors n source destination offset
takes-floors n source destination offset small some_width narrow room =
    takes-from n source destination offset (new source destination offset) some_width narrow room
      (new-IsAt source destination offset small some_width narrow (omega (arith, room)))
