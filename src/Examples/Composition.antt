-- ===== src/Examples/Composition.antt =====
-- The application and its features on the inputs of a few short runs.
use deskkin.Prelude.{◌≡◌, ◌↔◌, refl, true, List, [], ◌∷◌, arith}
use deskkin.Prelude.Results.{ok, err, is_ok}
use deskkin.ApplicationCore.{start, stop}
use deskkin.Features.Availability
use deskkin.Features.Notice
use deskkin.Application.{
  ApplicationInput, lifecycle, availability_effect, synthetic_notice_command, new, transition,
}
use deskkin.Application.Batch.{
  FeatureId, ApplicationEffectId, not_started, already_started, availability_rejected,
}
use deskkin.Application.Invariant.{IsValid, transition_error_unchanged}
use deskkin.Application.Routing.{Expects, transition_ok-iff-Expects}
use deskkin.Application.Runs.{after, effects, Numbered, run-IsValid, run-Numbered}
use deskkin.Application.Stall.{IsStalled, stall_is_permanent}

abbrev first_read : ApplicationEffectId
first_read = record { feature = FeatureId.availability; local = 1 }

abbrev first_timer : ApplicationEffectId
first_timer = record { feature = FeatureId.availability; local = 2 }

abbrev read_ok : ApplicationInput
read_ok = availability_effect first_read (Availability.read_completed 1 (ok Availability.available))

abbrev show_notice : ApplicationInput
show_notice = synthetic_notice_command (Notice.show Notice.composition_check)

-- start, the first answer, and a notice on top of it
abbrev covered_board : List ApplicationInput
covered_board = lifecycle start ∷ read_ok ∷ show_notice ∷ []

abbrev no_timer : List ApplicationInput
no_timer =
    lifecycle start
    ∷ read_ok
    ∷ availability_effect first_timer
        (Availability.timer_arm_completed 2 (err Availability.unavailable))
    ∷ []

run-IsValid_example : IsValid (after new covered_board)
run-IsValid_example = run-IsValid covered_board

run-Numbered_example : Numbered 0 0 (effects new covered_board)
run-Numbered_example = run-Numbered covered_board

stop_refused : (transition (lifecycle stop) new).0 ≡ err not_started
unfolding transition new
stop_refused = refl

transition_error_unchanged_example : (transition (lifecycle stop) new).1 ≡ new
transition_error_unchanged_example =
    transition_error_unchanged new (lifecycle stop) not_started stop_refused

few_given :
    let now = after new covered_board in
    (now.availability.next_effect_id ≡ 2) × (now.synthetic_notice.next_effect_id ≡ 1)
unfolding after transition new Availability.lifecycle Notice.lifecycle Availability.transition
    Notice.transition
few_given = (refl, refl)

transition_ok-iff-Expects_example :
    (is_ok (transition (lifecycle stop) (after new covered_board)).0 ≡ true)
    ↔ Expects (after new covered_board) (lifecycle stop)
transition_ok-iff-Expects_example =
    transition_ok-iff-Expects (after new covered_board) (run-IsValid covered_board)
      (omega (arith, few_given.0)) (omega (arith, few_given.1)) (lifecycle stop)

no_timer-IsStalled : IsStalled (after new no_timer)
unfolding after transition new Availability.lifecycle Notice.lifecycle Availability.transition
no_timer-IsStalled = record { runs = refl; availability_stopped = refl }

stall_is_permanent_example :
    let later = after (after new no_timer) (lifecycle stop ∷ show_notice ∷ []) in
    (later.availability.state ≡ Availability.stopped)
    × ((transition (lifecycle stop) later).0 ≡ err (availability_rejected Availability.not_started))
    × ((transition (lifecycle start) later).0 ≡ err already_started)
stall_is_permanent_example =
    stall_is_permanent (after new no_timer) (lifecycle stop ∷ show_notice ∷ []) no_timer-IsStalled
