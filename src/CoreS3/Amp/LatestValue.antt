-- ===== src/CoreS3/Amp/LatestValue.antt =====
-- `AmpLatestValue` of crates/deskkin-core-s3/src/lib.rs: a slot whose last value is published with a
-- generation.
use deskkin.Prelude.{
  ℕ, ◌+◌, ◌%◌, ◌^◌, ◌<◌, ◌≡◌, ◌||◌, Option, none, some, max, ◌==◌, if◌then◌else◌, arith,
}

-- `self.generation.wrapping_add(1).max(1)` on 32 bits: zero is skipped
abbrev pub next_generation : ℕ → ℕ
next_generation generation = max ((generation + 1) % 2 ^ 32) 1

pub record AmpLatestValue (T : Type 0) : Type 0 where
  pub generation : ℕ
  pub value : Option T

abbrev pub with_generation : {T : Type 0} → ℕ → Option T → Option (ℕ × T)
with_generation generation none = none
with_generation generation (some value) = some (generation, value)

unfoldable pub new : {T : Type 0} → AmpLatestValue T
new = record { generation = 0; value = none }

unfoldable pub publish : {T : Type 0} → T → AmpLatestValue T → ℕ × AmpLatestValue T
publish value slot =
    let generation = next_generation slot.generation in
    (generation, record { generation = generation; value = some value })

unfoldable pub latest_after : {T : Type 0} → ℕ → AmpLatestValue T → Option (ℕ × T)
latest_after observed_generation slot =
    if slot.generation == 0 || slot.generation == observed_generation
    then none
    else with_generation slot.generation slot.value

module _ {T : Type 0} where
  -- Publishing gives a generation that is not zero and fits 32 bits; a reader that knows the
  -- generation before sees the new value under the new generation, and one that knows the new
  -- generation sees nothing: also when generations wrap around.
  pub latest-published :
      (value : T) (slot : AmpLatestValue T)
      → slot.generation < 2 ^ 32
      → let (generation, after) = publish value slot in
        (0 < generation)
        × (generation < 2 ^ 32)
        × (latest_after slot.generation after ≡ some (generation, value))
        × (latest_after generation after ≡ none)
  unfolding publish latest_after
  latest-published value slot fits = ground arith
