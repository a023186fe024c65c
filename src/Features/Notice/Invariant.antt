-- ===== src/Features/Notice/Invariant.antt =====
-- What holds of the notice feature between two calls, and which calls it accepts.
use deskkin.Features.Notice.{idle, show, surface, command, NoticeKind}
use deskkin.Features.Notice.{timer_arm_completed, expiry_due, TimerArmError}
use deskkin.Prelude.{◌≢◌, false}
use deskkin.Prelude.{ℕ, ◌+◌, ◌<◌, ◌^◌, ◌≡◌, Option, none, some, arith, ◌↔◌, true}
use deskkin.Prelude.Results.{Result, ok, err, is_ok}
use deskkin.ApplicationCore.{Lifecycle}
use deskkin.Features.Notice.{
  SyntheticNoticeFeature, State, stopped, arming, visible, Input, command, timer_arm_completed,
  expiry_due, Effect, Transition, TransitionError, lifecycle, transition,
}

-- The outstanding effect of a state, as a condition on the last identity given out.
abbrev pub Outstanding : State → ℕ → Type 0
Outstanding (arming id _) last = (id ≡ last) × (0 < id)
Outstanding (visible id _) last = (id ≡ last) × (0 < id)
Outstanding _ last = Unit {0}

pub record IsValid (feature : SyntheticNoticeFeature) : Type 0 where
  pub fits : feature.next_effect_id < 2 ^ 64
  pub outstanding : Outstanding feature.state feature.next_effect_id

pub transition-IsValid :
    (feature : SyntheticNoticeFeature) (input : Input)
    → IsValid feature
    → IsValid (transition input feature).1
unfolding transition
transition-IsValid feature input h = ground arith

pub lifecycle-IsValid :
    (feature : SyntheticNoticeFeature) (event : Lifecycle)
    → IsValid feature
    → IsValid (lifecycle event feature).1
unfolding lifecycle
lifecycle-IsValid feature event h = ground arith

pub transition_error_unchanged :
    (feature : SyntheticNoticeFeature) (input : Input) (e : TransitionError)
    → (transition input feature).0 ≡ err e
    → (transition input feature).1 ≡ feature
unfolding transition
transition_error_unchanged feature input e h = ground arith

pub lifecycle_error_unchanged :
    (feature : SyntheticNoticeFeature) (event : Lifecycle) (e : TransitionError)
    → (lifecycle event feature).0 ≡ err e
    → (lifecycle event feature).1 ≡ feature
unfolding lifecycle
lifecycle_error_unchanged feature event e h = ground arith

abbrev IssuesOne : Option Effect → ℕ → ℕ → Type 0
IssuesOne none before after = after ≡ before
IssuesOne (some effect) before after = (effect.id ≡ before + 1) × (after ≡ before + 1)

-- An effect has the next identity and uses it up; nothing else uses an identity up.
abbrev pub Issues : Result TransitionError Transition → ℕ → ℕ → Type 0
Issues (ok t) before after = IssuesOne t.effect before after
Issues (err _) before after = after ≡ before

pub transition-Issues :
    (feature : SyntheticNoticeFeature) (input : Input)
    → Issues
        (transition input feature).0
        feature.next_effect_id
        (transition input feature).1.next_effect_id
unfolding transition
transition-Issues feature input = ground arith

pub lifecycle-Issues :
    (feature : SyntheticNoticeFeature) (event : Lifecycle)
    → Issues
        (lifecycle event feature).0
        feature.next_effect_id
        (lifecycle event feature).1.next_effect_id
unfolding lifecycle
lifecycle-Issues feature event = ground arith

-- The timer message that a state waits for.
abbrev pub Awaits : State → Input → Type 0
Awaits stopped input = ⊥
Awaits state (command c) = Unit {0}
Awaits (arming id _) (timer_arm_completed id' _) = id ≡ id'
Awaits (visible id _) (expiry_due id') = id ≡ id'
Awaits _ _ = ⊥

-- With an identity to spare, exactly the commands and the awaited message are accepted.
pub transition_ok-iff-Awaits :
    (feature : SyntheticNoticeFeature) (input : Input)
    → feature.next_effect_id + 1 < 2 ^ 64
    → (is_ok (transition input feature).0 ≡ true) ↔ Awaits feature.state input
unfolding transition
transition_ok-iff-Awaits feature input room = ground arith

-- A feature that runs shows the notice of the last command: one that is shown on top of another has
-- a timer of its own, whose completions withdraw it, while both messages of the first timer are
-- refused from then on.
pub second_notice_replaces :
    (feature : SyntheticNoticeFeature) (kind kind' : NoticeKind)
    (r : Result TimerArmError (Unit {0}))
    → feature.state ≢ stopped
    → feature.next_effect_id + 2 < 2 ^ 64
    → let first = feature.next_effect_id + 1 in
      let shown = (transition (command (show kind)) feature).1 in
      let again = (transition (command (show kind')) shown).1 in
      let armed = (transition (timer_arm_completed (first + 1) (ok tt)) again).1 in
      let expired = (transition (expiry_due (first + 1)) armed).1 in
      (surface again ≡ some (record { kind = kind' }))
      × (surface armed ≡ some (record { kind = kind' }))
      × (is_ok (transition (timer_arm_completed first r) again).0 ≡ false)
      × (is_ok (transition (expiry_due first) again).0 ≡ false)
      × (is_ok (transition (expiry_due first) armed).0 ≡ false)
      × (expired.state ≡ idle)
unfolding transition
second_notice_replaces feature kind kind' r runs room = ground arith
