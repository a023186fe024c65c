-- ===== src/Features/Availability.antt =====
-- crates/application-features/src/availability.rs: reading, and refreshing by a timer.
pub mod Invariant
use deskkin.Prelude.{ℕ, ◌^◌, Bool, true, false, Option, none, some, ◌==◌, if◌then◌else◌}
use deskkin.Prelude.Results.{
  Result, ok, err, Method, pure, fail, lift, view, modify, ◌>>=◌, ◌>>◌, settle, ok_or, checked_add,
}
use deskkin.ApplicationCore
use deskkin.ApplicationCore.{Lifecycle, start, stop, session_invalidated, LocalEffectId}

abbrev pub refresh_delay_ms : ℕ
refresh_delay_ms = 5_000

pub data Availability : Type 0 where
  available unavailable : Availability

pub data Surface : Type 0 where
  unknown available unavailable : Surface

pub data EffectRequest : Type 0 where
  read_availability : EffectRequest
  arm_refresh_timer : ℕ → EffectRequest

pub record Effect : Type 0 where
  pub id : LocalEffectId
  pub request : EffectRequest

pub data ReadError : Type 0 where
  unavailable : ReadError

pub data TimerArmError : Type 0 where
  unavailable : TimerArmError

pub data Input : Type 0 where
  read_completed : LocalEffectId → Result ReadError Availability → Input
  timer_arm_completed : LocalEffectId → Result TimerArmError (Unit {0}) → Input
  refresh_due : LocalEffectId → Input

pub data State : Type 0 where
  stopped : State
  reading : LocalEffectId → State
  arming_refresh : LocalEffectId → State
  waiting : LocalEffectId → State

pub data TransitionError : Type 0 where
  already_started not_started unexpected_input : TransitionError
  effect_identity_mismatch : LocalEffectId → LocalEffectId → TransitionError
  effect_identity_exhausted : TransitionError

pub record Transition : Type 0 where
  pub state : State
  pub surface : Option Surface
  pub effect : Option Effect

pub record AvailabilityFeature : Type 0 where
  pub state : State
  pub surface : Surface
  pub next_effect_id : ℕ

-- methods of the feature
abbrev pub Feature : Type 0 → Type 0
Feature A = Method TransitionError AvailabilityFeature A

abbrev pub new : AvailabilityFeature
new = record { state = stopped; surface = Surface.unknown; next_effect_id = 0 }

abbrev pub surface_at : State → Surface → Option Surface
surface_at stopped shown = none
surface_at _ shown = some shown

abbrev pub surface : AvailabilityFeature → Option Surface
surface feature = surface_at feature.state feature.surface

abbrev set_state : State → Feature (Unit {0})
set_state next = modify (λ feature. record feature { state = next })

abbrev show : Surface → Feature (Unit {0})
show shown = modify (λ feature. record feature { surface = shown })

ensure_id : LocalEffectId → LocalEffectId → Result TransitionError (Unit {0})
ensure_id expected actual =
    if expected == actual then ok tt else err (effect_identity_mismatch expected actual)

allocate : EffectRequest → Feature Effect
allocate request = do
  current ← view (λ feature. feature.next_effect_id)
  next ← lift (ok_or (checked_add 64 current 1) effect_identity_exhausted)
  id ← lift (ok_or (ApplicationCore.new next) effect_identity_exhausted)
  modify (λ feature. record feature { next_effect_id = next })
  pure (record { id = id; request = request })

abbrev pub read_surface : Result ReadError Availability → Surface
read_surface (ok available) = Surface.available
read_surface (ok unavailable) = Surface.unavailable
read_surface (err unavailable) = Surface.unknown

apply_at : State → Input → Feature (Option Effect)
unfolding ensure_id allocate
apply_at (reading effect_id) (read_completed id result) = do
  lift (ensure_id effect_id id)
  show (read_surface result)
  effect ← allocate (arm_refresh_timer refresh_delay_ms)
  set_state (arming_refresh effect.id)
  pure (some effect)
apply_at (arming_refresh effect_id) (timer_arm_completed id (ok _)) = do
  lift (ensure_id effect_id id)
  set_state (waiting effect_id)
  pure none
apply_at (arming_refresh effect_id) (timer_arm_completed id (err unavailable)) = do
  lift (ensure_id effect_id id)
  set_state stopped
  show Surface.unknown
  pure none
apply_at (waiting effect_id) (refresh_due id) = do
  lift (ensure_id effect_id id)
  effect ← allocate read_availability
  set_state (reading effect.id)
  pure (some effect)
apply_at _ _ = fail unexpected_input

apply : Input → Feature (Option Effect)
unfolding apply_at
apply input feature = apply_at feature.state input feature

invalidate_at : State → Feature (Option Effect)
unfolding apply
invalidate_at stopped = pure none
invalidate_at (reading effect_id) = apply (read_completed effect_id (err ReadError.unavailable))
invalidate_at _ = do show Surface.unknown; pure none

apply_lifecycle_at : State → Lifecycle → Feature (Option Effect)
unfolding allocate invalidate_at
apply_lifecycle_at stopped start = do
  show Surface.unknown
  effect ← allocate read_availability
  set_state (reading effect.id)
  pure (some effect)
apply_lifecycle_at _ start = fail already_started
apply_lifecycle_at stopped stop = fail not_started
apply_lifecycle_at _ stop = do set_state stopped; show Surface.unknown; pure none
apply_lifecycle_at stopped session_invalidated = pure none
apply_lifecycle_at state session_invalidated = invalidate_at state

apply_lifecycle : Lifecycle → Feature (Option Effect)
unfolding apply_lifecycle_at
apply_lifecycle event feature = apply_lifecycle_at feature.state event feature

-- `publish` runs a method on a copy, and replaces the feature by the copy only on success.
publish : Feature (Option Effect) → Feature Transition
publish method feature = settle feature (
    (do
      effect ← method
      view (λ now. record { state = now.state; surface = surface now; effect = effect }))
      feature)

unfoldable pub lifecycle : Lifecycle → Feature Transition
unfolding publish apply_lifecycle
lifecycle event = publish (apply_lifecycle event)

unfoldable pub transition : Input → Feature Transition
unfolding publish apply
transition input = publish (apply input)
