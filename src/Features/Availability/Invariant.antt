-- ===== src/Features/Availability/Invariant.antt =====
-- What holds of the availability feature between two calls.
use deskkin.Prelude.{ℕ, ◌+◌, ◌<◌, ◌^◌, ◌≡◌, none, some, arith, ◌↔◌, true, Option}
use deskkin.Prelude.Results.{Result, ok, err, is_ok}
use deskkin.ApplicationCore.{Lifecycle, LocalEffectId}
use deskkin.Features.Availability.{
  AvailabilityFeature, Effect, Availability, ReadError, surface, read_surface, read_completed,
  timer_arm_completed, refresh_due, State, stopped, reading, arming_refresh, waiting, Surface,
  Input, Transition, TransitionError, lifecycle, transition,
}

-- The outstanding effect of a state, as a condition on the last identity given out.
abbrev pub Outstanding : State → Surface → ℕ → Type 0
Outstanding stopped shown last = shown ≡ Surface.unknown
Outstanding (reading id) shown last = (id ≡ last) × (0 < id)
Outstanding (arming_refresh id) shown last = (id ≡ last) × (0 < id)
Outstanding (waiting id) shown last = (id ≡ last) × (0 < id)

pub record IsValid (feature : AvailabilityFeature) : Type 0 where
  pub fits : feature.next_effect_id < 2 ^ 64
  pub outstanding : Outstanding feature.state feature.surface feature.next_effect_id

pub transition-IsValid :
    (feature : AvailabilityFeature) (input : Input)
    → IsValid feature
    → IsValid (transition input feature).1
unfolding transition
transition-IsValid feature input h = ground arith

pub lifecycle-IsValid :
    (feature : AvailabilityFeature) (event : Lifecycle)
    → IsValid feature
    → IsValid (lifecycle event feature).1
unfolding lifecycle
lifecycle-IsValid feature event h = ground arith

pub transition_error_unchanged :
    (feature : AvailabilityFeature) (input : Input) (e : TransitionError)
    → (transition input feature).0 ≡ err e
    → (transition input feature).1 ≡ feature
unfolding transition
transition_error_unchanged feature input e h = ground arith

pub lifecycle_error_unchanged :
    (feature : AvailabilityFeature) (event : Lifecycle) (e : TransitionError)
    → (lifecycle event feature).0 ≡ err e
    → (lifecycle event feature).1 ≡ feature
unfolding lifecycle
lifecycle_error_unchanged feature event e h = ground arith

abbrev IssuesOne : Option Effect → ℕ → ℕ → Type 0
IssuesOne none before after = after ≡ before
IssuesOne (some effect) before after = (effect.id ≡ before + 1) × (after ≡ before + 1)

-- An effect has the next identity and uses it up; nothing else uses an identity up.
abbrev pub Issues : Result TransitionError Transition → ℕ → ℕ → Type 0
Issues (ok t) before after = IssuesOne t.effect before after
Issues (err _) before after = after ≡ before

pub transition-Issues :
    (feature : AvailabilityFeature) (input : Input)
    → Issues
        (transition input feature).0
        feature.next_effect_id
        (transition input feature).1.next_effect_id
unfolding transition
transition-Issues feature input = ground arith

pub lifecycle-Issues :
    (feature : AvailabilityFeature) (event : Lifecycle)
    → Issues
        (lifecycle event feature).0
        feature.next_effect_id
        (lifecycle event feature).1.next_effect_id
unfolding lifecycle
lifecycle-Issues feature event = ground arith

-- The message that a state waits for.
abbrev pub Awaits : State → Input → Type 0
Awaits (reading id) (read_completed id' _) = id ≡ id'
Awaits (arming_refresh id) (timer_arm_completed id' _) = id ≡ id'
Awaits (waiting id) (refresh_due id') = id ≡ id'
Awaits _ _ = ⊥

-- With an identity to spare, exactly the awaited message is accepted.
pub transition_ok-iff-Awaits :
    (feature : AvailabilityFeature) (input : Input)
    → feature.next_effect_id + 1 < 2 ^ 64
    → (is_ok (transition input feature).0 ≡ true) ↔ Awaits feature.state input
unfolding transition
transition_ok-iff-Awaits feature input room = ground arith

-- One round of the cycle, whatever the read returned: the timer is armed, then it fires.
pub refresh_cycle :
    (feature : AvailabilityFeature) (id : LocalEffectId) (result : Result ReadError Availability)
    → feature.state ≡ reading id
    → feature.next_effect_id + 2 < 2 ^ 64
    → let timer = feature.next_effect_id + 1 in
      let shown = (transition (read_completed id result) feature).1 in
      let armed = (transition (timer_arm_completed timer (ok tt)) shown).1 in
      let again = (transition (refresh_due timer) armed).1 in
      (shown.state ≡ arming_refresh timer)
      × (armed.state ≡ waiting timer)
      × (again.state ≡ reading (timer + 1))
      × (surface again ≡ some (read_surface result))
unfolding transition
refresh_cycle feature id result at_read room = ground arith
