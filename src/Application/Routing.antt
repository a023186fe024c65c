-- ===== src/Application/Routing.antt =====
-- Which inputs the application accepts, and what they leave alone.
use deskkin.Prelude.{◌+◌, ◌<◌, ◌^◌, ◌≡◌, ◌≢◌, ◌↔◌, true, arith}
use deskkin.Prelude.Results.{ok, err, is_ok}
use deskkin.ApplicationCore.{Lifecycle, start, stop, session_invalidated}
use deskkin.Features.Availability
use deskkin.Features.Availability.Invariant as AvailabilityInvariant
use deskkin.Features.Notice
use deskkin.Features.Notice.Invariant as NoticeInvariant
use deskkin.Application.{
  Application, ApplicationState, stopped, running, ApplicationInput, lifecycle, availability_effect,
  synthetic_notice_command, synthetic_notice_effect, availability_input_id,
  synthetic_notice_input_id, transition,
}
use deskkin.Application.Invariant.{IsValid}
use deskkin.Application.Batch.{FeatureId, effect_batch_exhausted}

-- A lifecycle event that fits the application's state and that of its availability feature.
abbrev pub Fits : Lifecycle → ApplicationState → Availability.State → Type 0
Fits start state feature = state ≡ stopped
Fits stop state feature = (state ≡ running) × (feature ≢ Availability.stopped)
Fits session_invalidated state feature = Unit {0}

-- The inputs that an application waits for.
abbrev pub Expects : Application → ApplicationInput → Type 0
Expects application (lifecycle event) = Fits event application.state application.availability.state
Expects application (availability_effect id input) =
    (application.state ≡ running)
    × (id.feature ≡ FeatureId.availability)
    × (id.local ≡ availability_input_id input)
    × AvailabilityInvariant.Awaits application.availability.state input
Expects application (synthetic_notice_command command) = application.state ≡ running
Expects application (synthetic_notice_effect id input) =
    (application.state ≡ running)
    × (id.feature ≡ FeatureId.synthetic_notice)
    × (synthetic_notice_input_id input ≡ ok id.local)
    × NoticeInvariant.Awaits application.synthetic_notice.state input

module _ (application : Application) (valid : IsValid application)
    (a_room : application.availability.next_effect_id + 1 < 2 ^ 64)
    (n_room : application.synthetic_notice.next_effect_id + 1 < 2 ^ 64) where
  -- In a valid application with identities to spare, an input is accepted exactly if the application
  -- expects it: a completion has to name the feature, carry one identity in both places, and be the
  -- message that the feature waits for, with that identity.
  pub transition_ok-iff-Expects :
      (input : ApplicationInput)
      → (is_ok (transition input application).0 ≡ true) ↔ Expects application input
  unfolding transition Availability.lifecycle Notice.lifecycle Availability.transition
      Notice.transition
  transition_ok-iff-Expects (lifecycle start) = ground arith
  transition_ok-iff-Expects (lifecycle stop) = ground arith
  transition_ok-iff-Expects (lifecycle session_invalidated) = ground arith
  transition_ok-iff-Expects (availability_effect id input) = ground arith
  transition_ok-iff-Expects (synthetic_notice_command command) = ground arith
  transition_ok-iff-Expects (synthetic_notice_effect id input) = ground arith

-- A completion for one feature, and a notice command, leave the other feature as it was.
abbrev pub Untouched : ApplicationInput → Application → Application → Type 0
Untouched (lifecycle event) before after = Unit {0}
Untouched (availability_effect _ _) before after =
    (after.synthetic_notice ≡ before.synthetic_notice) × (after.state ≡ before.state)
Untouched _ before after = (after.availability ≡ before.availability) × (after.state ≡ before.state)

pub transition-Untouched :
    (application : Application) (input : ApplicationInput)
    → Untouched input application (transition input application).1
unfolding transition
transition-Untouched application (lifecycle event) = tt
transition-Untouched application _ = ground arith

-- The batch has room for every effect of one input, in any state of the application.
pub transition-ne-exhausted :
    (application : Application) (input : ApplicationInput)
    → (transition input application).0 ≢ err effect_batch_exhausted
unfolding transition
transition-ne-exhausted application input h = ground arith
