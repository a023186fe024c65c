-- ===== src/Features/Notice.antt =====
-- crates/application-features/src/synthetic_notice.rs: one notice, and the timer that expires it.
pub mod Invariant
use deskkin.Prelude.{ℕ, Option, none, some, ◌==◌, if◌then◌else◌}
use deskkin.Prelude.Results.{
  Result, ok, err, Method, pure, fail, lift, view, modify, ◌>>=◌, ◌>>◌, settle, ok_or, checked_add,
}
use deskkin.ApplicationCore
use deskkin.ApplicationCore.{Lifecycle, start, stop, session_invalidated, LocalEffectId}

abbrev pub notice_lifetime_ms : ℕ
notice_lifetime_ms = 2_000

pub data NoticeKind : Type 0 where
  composition_check : NoticeKind

pub record Surface : Type 0 where
  pub kind : NoticeKind

pub data Command : Type 0 where
  show : NoticeKind → Command
  clear : Command

pub data EffectRequest : Type 0 where
  arm_expiry_timer : ℕ → EffectRequest

pub record Effect : Type 0 where
  pub id : LocalEffectId
  pub request : EffectRequest

pub data TimerArmError : Type 0 where
  unavailable : TimerArmError

pub data Input : Type 0 where
  command : Command → Input
  timer_arm_completed : LocalEffectId → Result TimerArmError (Unit {0}) → Input
  expiry_due : LocalEffectId → Input

pub data State : Type 0 where
  stopped idle : State
  arming visible : LocalEffectId → NoticeKind → State

pub data TransitionError : Type 0 where
  already_started not_started unexpected_input : TransitionError
  effect_identity_mismatch : LocalEffectId → LocalEffectId → TransitionError
  effect_identity_exhausted : TransitionError

pub record Transition : Type 0 where
  pub state : State
  pub surface : Option Surface
  pub effect : Option Effect

pub record SyntheticNoticeFeature : Type 0 where
  pub state : State
  pub next_effect_id : ℕ

-- methods of the feature
abbrev pub Feature : Type 0 → Type 0
Feature A = Method TransitionError SyntheticNoticeFeature A

abbrev pub new : SyntheticNoticeFeature
new = record { state = stopped; next_effect_id = 0 }

abbrev pub surface_at : State → Option Surface
surface_at (arming _ kind) = some (record { kind = kind })
surface_at (visible _ kind) = some (record { kind = kind })
surface_at _ = none

abbrev pub surface : SyntheticNoticeFeature → Option Surface
surface feature = surface_at feature.state

abbrev set_state : State → Feature (Unit {0})
set_state next = modify (λ feature. record feature { state = next })

ensure_id : LocalEffectId → LocalEffectId → Result TransitionError (Unit {0})
ensure_id expected actual =
    if expected == actual then ok tt else err (effect_identity_mismatch expected actual)

allocate : EffectRequest → Feature Effect
allocate request = do
  current ← view (λ feature. feature.next_effect_id)
  next ← lift (ok_or (checked_add 64 current 1) effect_identity_exhausted)
  id ← lift (ok_or (ApplicationCore.new next) effect_identity_exhausted)
  modify (λ feature. record feature { next_effect_id = next })
  pure (record { id = id; request = request })

apply_at : State → Input → Feature (Option Effect)
unfolding ensure_id allocate
apply_at stopped _ = fail not_started
apply_at _ (command (show kind)) = do
  effect ← allocate (arm_expiry_timer notice_lifetime_ms)
  set_state (arming effect.id kind)
  pure (some effect)
apply_at idle (command clear) = pure none
apply_at _ (command clear) = do set_state idle; pure none
apply_at (arming effect_id kind) (timer_arm_completed id (ok _)) = do
  lift (ensure_id effect_id id)
  set_state (visible effect_id kind)
  pure none
apply_at (arming effect_id kind) (timer_arm_completed id (err unavailable)) = do
  lift (ensure_id effect_id id)
  set_state idle
  pure none
apply_at (visible effect_id _) (expiry_due id) = do
  lift (ensure_id effect_id id)
  set_state idle
  pure none
apply_at _ _ = fail unexpected_input

apply : Input → Feature (Option Effect)
unfolding apply_at
apply input feature = apply_at feature.state input feature

apply_lifecycle_at : State → Lifecycle → Feature (Option Effect)
apply_lifecycle_at stopped start = do set_state idle; pure none
apply_lifecycle_at _ start = fail already_started
apply_lifecycle_at stopped stop = fail not_started
apply_lifecycle_at _ stop = do set_state stopped; pure none
apply_lifecycle_at stopped session_invalidated = pure none
apply_lifecycle_at _ session_invalidated = do set_state idle; pure none

apply_lifecycle : Lifecycle → Feature (Option Effect)
unfolding apply_lifecycle_at
apply_lifecycle event feature = apply_lifecycle_at feature.state event feature

-- `publish` runs a method on a copy, and replaces the feature by the copy only on success.
publish : Feature (Option Effect) → Feature Transition
publish method feature = settle feature (
    (do
      effect ← method
      view (λ now. record { state = now.state; surface = surface now; effect = effect }))
      feature)

unfoldable pub lifecycle : Lifecycle → Feature Transition
unfolding publish apply_lifecycle
lifecycle event = publish (apply_lifecycle event)

unfoldable pub transition : Input → Feature Transition
unfolding publish apply
transition input = publish (apply input)
