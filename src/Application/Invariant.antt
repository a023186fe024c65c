-- ===== src/Application/Invariant.antt =====
-- What holds of the application after any inputs, and that a rejected input leaves no trace.
use deskkin.Prelude.{◌≡◌, ◌≢◌, arith}
use deskkin.Prelude.Results.{err}
use deskkin.Features.Availability
use deskkin.Features.Availability.Invariant as AvailabilityInvariant
use deskkin.Features.Notice
use deskkin.Features.Notice.Invariant as NoticeInvariant
use deskkin.Application.{
  Application, ApplicationState, stopped, running, ApplicationInput, lifecycle, new, transition,
  current_views,
}
use deskkin.Application.Batch.{TransitionError}

-- A stopped application has stopped features; a running one has a notice feature that runs.
abbrev pub InStep : ApplicationState → Availability.State → Notice.State → Type 0
InStep stopped a n = (a ≡ Availability.stopped) × (n ≡ Notice.stopped)
InStep running a n = n ≢ Notice.stopped

pub record IsValid (application : Application) : Type 0 where
  pub availability : AvailabilityInvariant.IsValid application.availability
  pub notice : NoticeInvariant.IsValid application.synthetic_notice
  pub in_step :
      InStep application.state application.availability.state application.synthetic_notice.state
  pub published : application.view ≡ current_views application

pub new-IsValid : IsValid new
unfolding new current_views
new-IsValid = ground arith

pub transition_error_unchanged :
    (application : Application) (input : ApplicationInput) (e : TransitionError)
    → (transition input application).0 ≡ err e
    → (transition input application).1 ≡ application
unfolding transition
transition_error_unchanged application input e h = ground arith

transition-published :
    (application : Application) (input : ApplicationInput)
    → application.view ≡ current_views application
    → (transition input application).1.view ≡ current_views (transition input application).1
unfolding transition
transition-published application input h = ground arith

transition-InStep :
    (application : Application) (input : ApplicationInput)
    → InStep application.state application.availability.state application.synthetic_notice.state
    → let after = (transition input application).1 in
      InStep after.state after.availability.state after.synthetic_notice.state
unfolding transition Availability.lifecycle Notice.lifecycle Notice.transition
transition-InStep application (lifecycle event) h = ground arith
transition-InStep application _ h = ground arith

transition-availability :
    (application : Application) (input : ApplicationInput)
    → AvailabilityInvariant.IsValid application.availability
    → AvailabilityInvariant.IsValid (transition input application).1.availability
unfolding transition
transition-availability application input h =
    grind (arith, AvailabilityInvariant.transition-IsValid, AvailabilityInvariant.lifecycle-IsValid)

transition-notice :
    (application : Application) (input : ApplicationInput)
    → NoticeInvariant.IsValid application.synthetic_notice
    → NoticeInvariant.IsValid (transition input application).1.synthetic_notice
unfolding transition
transition-notice application input h =
    grind (arith, NoticeInvariant.transition-IsValid, NoticeInvariant.lifecycle-IsValid)

pub transition-IsValid :
    (application : Application) (input : ApplicationInput)
    → IsValid application
    → IsValid (transition input application).1
transition-IsValid application input h = record {
  availability = transition-availability application input h.availability;
  notice = transition-notice application input h.notice;
  in_step = transition-InStep application input h.in_step;
  published = transition-published application input h.published;
}
