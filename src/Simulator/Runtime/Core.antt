-- ===== src/Simulator/Runtime/Core.antt =====
-- What the core answers to the inputs of the runtime.
use deskkin.Prelude.{ℕ, ◌+◌, ◌<◌, ◌^◌, ◌≡◌, ◌≢◌, refl, none, some, arith}
use deskkin.Prelude.Results.{Result, ok, err}
use deskkin.ApplicationCore.{session_invalidated, LocalEffectId}
use deskkin.Features.Availability as Availability
use deskkin.Features.Availability.{reading, arming_refresh, waiting, stopped}
use deskkin.Features.Notice as Notice
use deskkin.Application.{running, availability_effect, lifecycle, transition}
use deskkin.Application.Batch.{ApplicationEffectId, FeatureId, Effect, EffectRequest}
use deskkin.Simulator.Runtime.{ProtocolRuntime, RuntimeError, core_transition}

-- the identity of an effect of the availability feature
abbrev pub at : LocalEffectId → ApplicationEffectId
at id = record { feature = FeatureId.availability; local = id }

abbrev pub timer_effect : LocalEffectId → Effect
timer_effect id = record {
  id = at id;
  request =
      EffectRequest.availability (Availability.arm_refresh_timer Availability.refresh_delay_ms);
}

abbrev pub read_effect : LocalEffectId → Effect
read_effect id = record {
  id = at id;
  request = EffectRequest.availability Availability.read_availability;
}

-- the runtime after the core has moved to an availability state, using so many identities up
pub record Moves (r after : ProtocolRuntime) (state : Availability.State) (used : ℕ) : Type 0 where
  pub rest : after ≡ record r { core = after.core }
  pub runs : after.core.state ≡ running
  pub moved : after.core.availability.state ≡ state
  pub counted : after.core.availability.next_effect_id ≡ used

module _ (error : RuntimeError) (r : ProtocolRuntime) (runs : r.core.state ≡ running) where
  abbrev next_id : ℕ
  next_id = r.core.availability.next_effect_id + 1

  pub read_completed_lem :
      (id : LocalEffectId) (result : Result Availability.ReadError Availability.Availability)
      → r.core.availability.state ≡ reading id
      → next_id < 2 ^ 64
      → let done =
          core_transition error
            (availability_effect (at id) (Availability.read_completed id result))
            r in
        (done.0 ≡ ok (some (timer_effect next_id)))
        × Moves r done.1 (arming_refresh next_id) next_id
  unfolding core_transition transition Availability.transition
  read_completed_lem id result e room = ground arith

  pub timer_armed_lem :
      (id : LocalEffectId)
      → r.core.availability.state ≡ arming_refresh id
      → let done =
          core_transition error
            (availability_effect (at id) (Availability.timer_arm_completed id (ok tt)))
            r in
        (done.0 ≡ ok none) × Moves r done.1 (waiting id) r.core.availability.next_effect_id
  unfolding core_transition transition Availability.transition
  timer_armed_lem id e = ground arith

  pub timer_refused_lem :
      (id : LocalEffectId)
      → r.core.availability.state ≡ arming_refresh id
      → let done =
          core_transition error
            (availability_effect
              (at id)
              (Availability.timer_arm_completed id (err Availability.TimerArmError.unavailable)))
            r in
        (done.0 ≡ ok none) × Moves r done.1 stopped r.core.availability.next_effect_id
  unfolding core_transition transition Availability.transition
  timer_refused_lem id e = ground arith

  pub refresh_due_lem :
      (id : LocalEffectId)
      → r.core.availability.state ≡ waiting id
      → next_id < 2 ^ 64
      → let done =
          core_transition error (availability_effect (at id) (Availability.refresh_due id)) r in
        (done.0 ≡ ok (some (read_effect next_id))) × Moves r done.1 (reading next_id) next_id
  unfolding core_transition transition Availability.transition
  refresh_due_lem id e room = ground arith

  pub invalidated_read_lem :
      (id : LocalEffectId)
      → r.core.availability.state ≡ reading id
      → next_id < 2 ^ 64
      → let done = core_transition error (lifecycle session_invalidated) r in
        (done.0 ≡ ok (some (timer_effect next_id)))
        × Moves r done.1 (arming_refresh next_id) next_id
  unfolding core_transition transition Availability.lifecycle Notice.lifecycle
  invalidated_read_lem id e room = ground arith

  pub invalidated_idle_lem :
      (state : Availability.State)
      → r.core.availability.state ≡ state
      → ((id : LocalEffectId) → state ≢ reading id)
      → let done = core_transition error (lifecycle session_invalidated) r in
        (done.0 ≡ ok none) × Moves r done.1 state r.core.availability.next_effect_id
  unfolding core_transition transition Availability.lifecycle Notice.lifecycle
  invalidated_idle_lem (reading id) e other = absurd (other id refl)
  invalidated_idle_lem state e other = ground arith

  -- a timer that fires while nothing waits for it is refused
  pub refresh_refused_lem :
      (id : ApplicationEffectId) (due : LocalEffectId) (state : Availability.State)
      → r.core.availability.state ≡ state
      → ((id : LocalEffectId) → state ≢ waiting id)
      → core_transition error (availability_effect id (Availability.refresh_due due)) r
        ≡ (err error, r)
  unfolding core_transition transition Availability.transition
  refresh_refused_lem id due (waiting x) e other = absurd (other x refl)
  refresh_refused_lem id due state e other = ground arith
