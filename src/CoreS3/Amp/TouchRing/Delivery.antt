-- ===== src/CoreS3/Amp/TouchRing/Delivery.antt =====
-- Which touch a reader of the ring gets, and how many it is told to have missed.
use native.Mathlib.Nat.{div-add-mod, mod-lt}
use deskkin.CoreS3.Amp.LatestValue.{next_generation}
use deskkin.Prelude.{ne→==-false}
use deskkin.Prelude.{
  ℕ, zero, suc, ◌+◌, ◌-◌, ◌*◌, ◌/◌, ◌%◌, ◌^◌, ◌<◌, ◌≤◌, ◌≡◌, ◌≢◌, ◌⊎◌, inl, inr, refl, sym, ◌∙◌,
  Bool, Option, none, some, length, get_or, set, min, max, arith, length-set, length-replicate,
  get_or-set_self, get_or-set_ne, ℕ_discrete,
}
use deskkin.CoreS3.Amp.TouchRing.{
  AmpTouchSample, AmpTouchRing, no_sample, new, push, next_after, read_after, u32_max, wanted,
}

pub record Touch : Type 0 where
  pub x : ℕ
  pub y : ℕ
  pub pressed : Bool

-- the ring after the first k of these touches
unfoldable pub ring_after : ℕ → (ℕ → Touch) → ℕ → AmpTouchRing
ring_after n touches zero = new n
ring_after n touches (suc k) =
    let touch = touches (suc k) in push n touch.x touch.y touch.pressed (ring_after n touches k)

abbrev pub sample : (ℕ → Touch) → ℕ → AmpTouchSample
sample touches k = record {
  generation = k;
  x = (touches k).x;
  y = (touches k).y;
  pressed = (touches k).pressed;
}

-- numbers less than n apart have different places
mod_apart : (n a b : ℕ) → a < b → b < a + n → a % n ≢ b % n
mod_apart n a b below near same =
    omega (arith, div-add-mod a n, div-add-mod b n, gap (a / n) (b / n), same)
  where
    gap : (p q : ℕ) → (n * q ≤ n * p) ⊎ (n * p + n ≤ n * q)
    gap p zero = inl (omega arith)
    gap zero (suc q) = inr (omega arith)
    gap (suc p) (suc q) = elim (gap p q) [ inl h ↦ inl (omega arith) | inr h ↦ inr (omega arith) ]

-- The ring has its last n touches, each in the place of its number.
record Holds (n : ℕ) (touches : ℕ → Touch) (k : ℕ) (ring : AmpTouchRing) : Type 0 where
  sized : length ring.samples ≡ n
  counted : ring.generation ≡ k
  stored :
      (j : ℕ)
      → suc j ≤ k
      → k < suc j + n
      → get_or ring.samples (j % n) no_sample ≡ sample touches (suc j)

-- the ring after touch number suc k, while the numbers fit
pushed : ℕ → ℕ → Touch → AmpTouchRing → AmpTouchRing
pushed n k touch ring = record {
  samples =
      set ring.samples (k % n)
        (record { generation = suc k; x = touch.x; y = touch.y; pressed = touch.pressed });
  generation = suc k;
}

module _ (n k : ℕ) (ring : AmpTouchRing) (some_room : 0 < n) where
  push-pushed :
      (touch : Touch)
      → ring.generation ≡ k
      → k + 1 < 2 ^ 32
      → push n touch.x touch.y touch.pressed ring ≡ pushed n k touch ring
  unfolding push pushed
  push-pushed touch count fits =
      let next : next_generation ring.generation ≡ suc k = omega (arith, count) in
      let back : suc k - 1 ≡ k = omega arith in
      rw (next, back, ne→==-false n 0 (λ e. omega arith)) refl

  pushed-Holds :
      (touches : ℕ → Touch)
      → Holds n touches k ring
      → Holds n touches (suc k) (pushed n k (touches (suc k)) ring)
  unfolding pushed
  pushed-Holds touches h = record {
    sized = length-set ring.samples _ _ ∙ h.sized;
    counted = refl;
    stored = λ j. λ below. λ near. elim (ℕ_discrete j k) [
      | yes e ↦ rw e (
          get_or-set_self ring.samples (k % n) _ no_sample
            (omega (arith, h.sized, mod-lt k some_room)))
      | no ne ↦
          get_or-set_ne ring.samples (k % n) (j % n) _ no_sample
            (λ e. mod_apart n j k (omega arith) (omega arith) (sym e))
          ∙ h.stored j (omega arith) (omega arith)
    ];
  }

  push-Holds :
      (touches : ℕ → Touch)
      → k + 1 < 2 ^ 32
      → Holds n touches k ring
      → let touch = touches (suc k) in
        Holds n touches (suc k) (push n touch.x touch.y touch.pressed ring)
  push-Holds touches fits h =
      rw (push-pushed (touches (suc k)) h.counted fits) (pushed-Holds touches h)

new-Holds : (n : ℕ) (touches : ℕ → Touch) → Holds n touches 0 (new n)
unfolding new
new-Holds n touches = record {
  sized = length-replicate n no_sample;
  counted = refl;
  stored = λ j. λ below. λ near. absurd (omega arith);
}

ring_after-Holds :
    (n k : ℕ) (touches : ℕ → Touch)
    → 0 < n
    → k < 2 ^ 32
    → Holds n touches k (ring_after n touches k)
unfolding ring_after
ring_after-Holds n zero touches some_room fits = new-Holds n touches
ring_after-Holds n (suc k) touches some_room fits =
    push-Holds n k (ring_after n touches k) some_room touches (omega arith)
      (ring_after-Holds n k touches some_room (omega arith))

-- the number of the touch that a reader who has seen a of k touches gets
abbrev pub delivered : ℕ → ℕ → ℕ → ℕ
delivered n k a = suc (max a (k - n))

-- what a reader gets
abbrev pub Reading : ℕ → ℕ → ℕ → ℕ → (ℕ → Touch) → Option AmpTouchSample × ℕ → Type 0
Reading n k a drops touches (none, after_drops) = (a ≡ k) × (after_drops ≡ drops)
Reading n k a drops touches (some s, after_drops) =
    (a < k)
    × (s ≡ sample touches (delivered n k a))
    × (after_drops ≡ min (drops + (delivered n k a - (a + 1))) u32_max)

next_after-delivered :
    (n k a : ℕ) (touches : ℕ → Touch) (ring : AmpTouchRing)
    → 0 < n
    → k < 2 ^ 32
    → a < k
    → Holds n touches k ring
    → next_after n a ring ≡ some (sample touches (delivered n k a))
unfolding next_after
next_after-delivered n k a touches ring some_room fits behind h =
    let place = max a (k - n) in
    let number : wanted n ring.generation a ≡ suc place = omega (arith, h.counted) in
    let last : suc place - 1 ≡ place = omega arith in
    rw (number, last, h.stored place (omega arith) (omega arith), h.counted) (ground arith)

next_after-current :
    (n k : ℕ) (ring : AmpTouchRing) → ring.generation ≡ k → next_after n k ring ≡ none
unfolding next_after
next_after-current n k ring count = ground arith

module _ (n k a drops : ℕ) (touches : ℕ → Touch) where
  -- A reader that has seen a of the first k touches gets none of them if a is k, and otherwise the
  -- first that it has not seen and that is among the last n; the touches in between are added to its
  -- count of drops, which stops at the largest 32-bit number.
  pub read_after-Reading :
      0 < n
      → k < 2 ^ 32
      → a ≤ k
      → Reading n k a drops touches (read_after n a drops (ring_after n touches k))
  unfolding read_after
  read_after-Reading some_room fits behind =
      let h = ring_after-Holds n k touches some_room fits in
      elim (ℕ_discrete a k) [
        | yes e ↦ rw (next_after-current n a (ring_after n touches k) (h.counted ∙ sym e)) (e, refl)
        | no ne ↦
            rw
              (next_after-delivered n k a touches (ring_after n touches k) some_room fits
                (omega arith) h)
              (omega arith, refl, omega arith)
      ]
