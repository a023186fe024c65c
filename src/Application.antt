-- ===== src/Application.antt =====
-- crates/deskkin-application/src/lib.rs: the composition root. Inputs are routed to the feature that
-- they name, lifecycle events go to both in registry order.
pub mod Batch
pub mod Invariant
pub mod Routing
pub mod Runs
pub mod Stall
use mathlib.Core.Option
use deskkin.Prelude.{ℕ, ◌&&◌, Bool, true, false, Option, none, some, ◌==◌, if◌then◌else◌}
use deskkin.Prelude.Results.{
  Result, ok, err, Method, pure, fail, lift, view, modify, ◌>>=◌, ◌>>◌, settle, map_err,
}
use deskkin.ApplicationCore.{Lifecycle, start, stop, session_invalidated, LocalEffectId}
use deskkin.Features.Availability
use deskkin.Features.Notice
use Batch.{
  FeatureId, availability, synthetic_notice, ApplicationEffectId, TransitionError, already_started,
  not_started, availability_rejected, synthetic_notice_rejected, effect_feature_mismatch,
  effect_identity_mismatch, unexpected_effect_input, EffectBatch, push_some, wrap_availability,
  wrap_notice, same_feature,
}

pub record Board (T : Type 0) : Type 0 where
  pub content : T
  pub focused : Bool

abbrev pub focused : {T : Type 0} → T → Board T
focused content = record { content = content; focused = true }

abbrev pub unfocused : {T : Type 0} → T → Board T
unfocused content = record { content = content; focused = false }

pub record ApplicationViews : Type 0 where
  pub availability : Option (Board Availability.Surface)
  pub synthetic_notice : Option (Board Notice.NoticeKind)

abbrev pub empty : ApplicationViews
empty = record { availability = none; synthetic_notice = none }

pub data ApplicationInput : Type 0 where
  lifecycle : Lifecycle → ApplicationInput
  availability_effect : ApplicationEffectId → Availability.Input → ApplicationInput
  synthetic_notice_command : Notice.Command → ApplicationInput
  synthetic_notice_effect : ApplicationEffectId → Notice.Input → ApplicationInput

pub record Transition : Type 0 where
  pub view : ApplicationViews
  pub effects : EffectBatch

pub data ApplicationState : Type 0 where
  stopped running : ApplicationState

pub record Application : Type 0 where
  pub state : ApplicationState
  pub availability : Availability.AvailabilityFeature
  pub synthetic_notice : Notice.SyntheticNoticeFeature
  pub view : ApplicationViews

-- methods of the application
abbrev pub App : Type 0 → Type 0
App A = Method TransitionError Application A

unfoldable pub new : Application
new = record {
  state = stopped;
  availability = Availability.new;
  synthetic_notice = Notice.new;
  view = empty;
}

-- `self.availability.m(…).map_err(AvailabilityRejected)?`
abbrev on_availability : {A : Type 0} → Availability.Feature A → App A
on_availability method application =
    let (result, feature) = method application.availability in
    (map_err availability_rejected result, record application { availability = feature })

-- `self.synthetic_notice.m(…).map_err(SyntheticNoticeRejected)?`
abbrev on_notice : {A : Type 0} → Notice.Feature A → App A
on_notice method application =
    let (result, feature) = method application.synthetic_notice in
    (map_err synthetic_notice_rejected result, record application { synthetic_notice = feature })

abbrev validate_effect_input :
    ApplicationEffectId → FeatureId → LocalEffectId → Result TransitionError (Unit {0})
validate_effect_input id expected_feature input_id =
    if same_feature id.feature expected_feature
    then (if id.local == input_id then ok tt else err (effect_identity_mismatch id.local input_id))
    else err (effect_feature_mismatch expected_feature id.feature)

abbrev pub availability_input_id : Availability.Input → LocalEffectId
availability_input_id (Availability.read_completed effect_id _) = effect_id
availability_input_id (Availability.timer_arm_completed effect_id _) = effect_id
availability_input_id (Availability.refresh_due effect_id) = effect_id

abbrev pub synthetic_notice_input_id : Notice.Input → Result TransitionError LocalEffectId
synthetic_notice_input_id (Notice.timer_arm_completed effect_id _) = ok effect_id
synthetic_notice_input_id (Notice.expiry_due effect_id) = ok effect_id
synthetic_notice_input_id (Notice.command _) = err unexpected_effect_input

abbrev single_availability_effect : Option Availability.Effect → Result TransitionError EffectBatch
single_availability_effect effect = push_some Batch.new wrap_availability effect

abbrev single_notice_effect : Option Notice.Effect → Result TransitionError EffectBatch
single_notice_effect effect = push_some Batch.new wrap_notice effect

abbrev state_after : Lifecycle → ApplicationState → ApplicationState
state_after start _ = running
state_after session_invalidated state = state
state_after stop _ = stopped

broadcast : Lifecycle → App EffectBatch
broadcast event = do
  first ← on_availability (Availability.lifecycle event)
  effects ← lift (push_some Batch.new wrap_availability first.effect)
  second ← on_notice (Notice.lifecycle event)
  effects ← lift (push_some effects wrap_notice second.effect)
  modify (λ now. record now { state = state_after event now.state })
  pure effects

apply_lifecycle_at : ApplicationState → Lifecycle → App EffectBatch
unfolding broadcast
apply_lifecycle_at running start = fail already_started
apply_lifecycle_at stopped stop = fail not_started
apply_lifecycle_at _ event = broadcast event

-- what the three routed inputs check first
require_running : ApplicationState → App (Unit {0})
require_running stopped = fail not_started
require_running running = pure tt

apply : ApplicationInput → App EffectBatch
unfolding apply_lifecycle_at require_running
apply (lifecycle event) application = apply_lifecycle_at application.state event application
apply (availability_effect id input) application =
    (do
      require_running application.state
      lift (validate_effect_input id FeatureId.availability (availability_input_id input))
      done ← on_availability (Availability.transition input)
      lift (single_availability_effect done.effect))
      application
apply (synthetic_notice_command command) application =
    (do
      require_running application.state
      done ← on_notice (Notice.transition (Notice.command command))
      lift (single_notice_effect done.effect))
      application
apply (synthetic_notice_effect id input) application =
    (do
      require_running application.state
      input_id ← lift (synthetic_notice_input_id input)
      lift (validate_effect_input id FeatureId.synthetic_notice input_id)
      done ← on_notice (Notice.transition input)
      lift (single_notice_effect done.effect))
      application

-- the availability board gives up its focus to a notice
abbrev availability_board :
    Option Notice.NoticeKind → Option Availability.Surface → Option (Board Availability.Surface)
availability_board notice none = none
availability_board none (some surface) = some (focused surface)
availability_board (some _) (some surface) = some (unfocused surface)

unfoldable pub current_views : Application → ApplicationViews
current_views application =
    let notice =
      Option.map (λ (surface : Notice.Surface). surface.kind)
        (Notice.surface application.synthetic_notice) in
    record {
      availability = availability_board notice (Availability.surface application.availability);
      synthetic_notice = Option.map focused notice;
    }

-- `transition` runs `apply` on a copy, and replaces the application by the copy only on success.
unfoldable pub transition : ApplicationInput → App Transition
unfolding apply current_views
transition input application = settle application (
    (do
      effects ← apply input
      modify (λ candidate. record candidate { view = current_views candidate })
      view (λ candidate. record { view = candidate.view; effects = effects }))
      application)
