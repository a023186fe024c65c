-- ===== src/CoreS3/Amp/TouchRing.antt =====
-- `AmpTouchRing` of crates/deskkin-core-s3/src/lib.rs: the last N touches, numbered from 1. The const
-- parameter N is the first argument of every method. Coordinates are the 16-bit patterns of i16
-- values, which the ring copies only.
pub mod Delivery
use deskkin.Prelude.{
  ℕ, zero, suc, ◌+◌, ◌-◌, ◌%◌, ◌^◌, Bool, true, false, ◌||◌, Option, none, some, List, get_or, set,
  replicate, min, max, ◌==◌, if◌then◌else◌,
}
use deskkin.CoreS3.Amp.LatestValue.{next_generation}

pub record AmpTouchSample : Type 0 where
  pub generation : ℕ
  pub x : ℕ
  pub y : ℕ
  pub pressed : Bool

pub record AmpTouchRing : Type 0 where
  pub samples : List AmpTouchSample
  pub generation : ℕ

abbrev pub no_sample : AmpTouchSample
no_sample = record { generation = 0; x = 0; y = 0; pressed = false }

abbrev pub u32_max : ℕ
u32_max = 2 ^ 32 - 1

unfoldable pub new : ℕ → AmpTouchRing
new n = record { samples = replicate n no_sample; generation = 0 }

unfoldable pub push : ℕ → ℕ → ℕ → Bool → AmpTouchRing → AmpTouchRing
push n x y pressed ring =
    let generation = next_generation ring.generation in
    if n == 0 then ring else record {
      samples =
          set ring.samples ((generation - 1) % n)
            (record { generation = generation; x = x; y = y; pressed = pressed });
      generation = generation;
    }

-- `self.generation.saturating_sub(capacity).saturating_add(1)`, with the capacity cut to 32 bits
abbrev pub oldest : ℕ → ℕ → ℕ
oldest n generation = min (generation - min n u32_max + 1) u32_max

abbrev pub wanted : ℕ → ℕ → ℕ → ℕ
wanted n generation after = max ((after + 1) % 2 ^ 32) (oldest n generation)

unfoldable pub next_after : ℕ → ℕ → AmpTouchRing → Option AmpTouchSample
next_after n after ring =
    let number = wanted n ring.generation after in
    let sample = get_or ring.samples ((number - 1) % n) no_sample in
    if n == 0 || ring.generation == 0 || after == ring.generation
    then none
    else if sample.generation == number
    then some sample
    else none

-- `wrapping_sub` on 32 bits
abbrev pub wrapping_sub : ℕ → ℕ → ℕ
wrapping_sub a b = (a + 2 ^ 32 - b) % 2 ^ 32

abbrev count_drops : Option AmpTouchSample → ℕ → ℕ → Option AmpTouchSample × ℕ
count_drops none after cumulative_drops = (none, cumulative_drops)
count_drops (some sample) after cumulative_drops = (
  some sample,
  min (cumulative_drops + wrapping_sub sample.generation (max ((after + 1) % 2 ^ 32) 1)) u32_max,
)

unfoldable pub read_after : ℕ → ℕ → ℕ → AmpTouchRing → Option AmpTouchSample × ℕ
unfolding next_after
read_after n after cumulative_drops ring =
    count_drops (next_after n after ring) after cumulative_drops
