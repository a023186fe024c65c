-- ===== src/Application/Stall.antt =====
-- An application whose availability feature has stopped by itself, as it does when no timer can be
-- armed, cannot be stopped or started again.
use deskkin.Prelude.{◌≡◌, List, [], ◌∷◌, arith}
use deskkin.Prelude.Results.{err}
use deskkin.ApplicationCore.{start, stop}
use deskkin.Features.Availability
use deskkin.Application.{
  Application, running, ApplicationInput, lifecycle, availability_effect, transition,
}
use deskkin.Application.Batch.{already_started, availability_rejected}
use deskkin.Application.Runs.{after}

pub record IsStalled (application : Application) : Type 0 where
  pub runs : application.state ≡ running
  pub availability_stopped : application.availability.state ≡ Availability.stopped

transition-IsStalled :
    (application : Application) (input : ApplicationInput)
    → IsStalled application
    → IsStalled (transition input application).1
unfolding transition Availability.lifecycle Availability.transition
transition-IsStalled application (lifecycle event) h = ground arith
transition-IsStalled application (availability_effect id input) h = ground arith
transition-IsStalled application _ h = ground arith

after-IsStalled :
    (application : Application) (inputs : List ApplicationInput)
    → IsStalled application
    → IsStalled (after application inputs)
unfolding after
after-IsStalled application [] h = h
after-IsStalled application (input ∷ inputs) h =
    after-IsStalled (transition input application).1 inputs
      (transition-IsStalled application input h)

stalled_rejects :
    (application : Application)
    → IsStalled application
    → ((transition (lifecycle stop) application).0
        ≡ err (availability_rejected Availability.not_started))
      × ((transition (lifecycle start) application).0 ≡ err already_started)
unfolding transition Availability.lifecycle
stalled_rejects application h = ground arith

-- Once the availability feature has stopped in a running application, it stays stopped whatever the
-- inputs, and after any of them both Stop and Start are refused.
pub stall_is_permanent :
    (application : Application) (inputs : List ApplicationInput)
    → IsStalled application
    → let later = after application inputs in
      (later.availability.state ≡ Availability.stopped)
      × ((transition (lifecycle stop) later).0
          ≡ err (availability_rejected Availability.not_started))
      × ((transition (lifecycle start) later).0 ≡ err already_started)
stall_is_permanent application inputs h =
    let later = after application inputs in
    let stalled = after-IsStalled application inputs h in
    let refused = stalled_rejects later stalled in
    (stalled.availability_stopped, refused.0, refused.1)
