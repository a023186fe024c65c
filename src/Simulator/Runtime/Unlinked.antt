-- ===== src/Simulator/Runtime/Unlinked.antt =====
-- Without a connection, a handler sends no control to the worker but those of the event itself.
use deskkin.Prelude.{
  ℕ, zero, suc, ◌≡◌, refl, ap, Bool, true, false, Option, none, some, List, [], ◌∷◌, ◌++◌, arith,
}
use deskkin.Prelude.Results.{err, >>=-keeps, ◌>>◌}
use deskkin.ApplicationCore.{session_invalidated}
use deskkin.Features.Availability as Availability
use deskkin.Application.{ApplicationInput, lifecycle, availability_effect}
use deskkin.Application.Batch.{Effect, EffectRequest}
use deskkin.ProtocolClient as Client
use deskkin.Simulator.{NetworkControl, revoke}
use deskkin.Simulator.Runtime.{
  ProtocolRuntime, System, RuntimeError, disconnected_read, invalidation, Run, identity_revoked,
  handle, handle_identity_revoked, core_transition, schedule_protocol_reconnect,
  arm_protocol_refresh, complete_read_while_disconnected, perform_protocol_read,
  dispatch_protocol_effect, dispatch, dispatch_request, for_some, when, taken,
}

-- no connection, and these controls were sent
abbrev pub Unlinked : List NetworkControl → ProtocolRuntime → Type 0
Unlinked controls r = (r.connected ≡ false) × (r.controls ≡ controls)

module _ (system : System) (controls : List NetworkControl) where
  core-Unlinked :
      (error : RuntimeError) (input : ApplicationInput) (r : ProtocolRuntime)
      → Unlinked controls r
      → Unlinked controls (core_transition error input r).1
  unfolding core_transition
  core-Unlinked error input r h = h

  schedule-Unlinked :
      (r : ProtocolRuntime)
      → Unlinked controls r
      → Unlinked controls (schedule_protocol_reconnect system r).1
  unfolding schedule_protocol_reconnect
  schedule-Unlinked r h = ground arith

  arm-Unlinked :
      (effect : Effect) (r : ProtocolRuntime)
      → Unlinked controls r
      → Unlinked controls (arm_protocol_refresh system effect r).1
  unfolding arm_protocol_refresh core_transition
  arm-Unlinked effect r h = ground arith

  module _ (dispatch : Effect → Run (Unit {0}))
      (keeps : (e : Effect) (r : ProtocolRuntime)
        → Unlinked controls r
        → Unlinked controls (dispatch e r).1) where
    for_some-Unlinked :
        (next : Option Effect) (r : ProtocolRuntime)
        → Unlinked controls r
        → Unlinked controls (for_some dispatch next r).1
    for_some-Unlinked none r h = h
    for_some-Unlinked (some e) r h = keeps e r h

    resume-Unlinked :
        (idle : Bool) (next : Option Effect) (r : ProtocolRuntime)
        → Unlinked controls r
        → Unlinked controls
            ((when idle (schedule_protocol_reconnect system) >> for_some dispatch next) r).1
    resume-Unlinked true next r h =
        >>=-keeps (Unlinked controls) (schedule_protocol_reconnect system) _ r
          (schedule-Unlinked r h) (λ u. λ e. for_some-Unlinked next _ (schedule-Unlinked r h))
    resume-Unlinked false next r h = for_some-Unlinked next r h

    read-Unlinked :
        (effect : Effect) (r : ProtocolRuntime)
        → Unlinked controls r
        → Unlinked controls (complete_read_while_disconnected system dispatch effect r).1
    unfolding complete_read_while_disconnected
    read-Unlinked effect r h =
        let input =
          availability_effect effect.id (
            Availability.read_completed effect.id.local (err Availability.ReadError.unavailable)) in
        let told = core-Unlinked disconnected_read input r h in
        >>=-keeps (Unlinked controls) (core_transition disconnected_read input) _ r told
          (λ next. λ e. resume-Unlinked _ next _ told)

    request-Unlinked :
        (request : EffectRequest) (effect : Effect) (r : ProtocolRuntime)
        → Unlinked controls r
        → Unlinked controls (dispatch_request system dispatch request effect r).1
    unfolding perform_protocol_read
    request-Unlinked (EffectRequest.availability Availability.read_availability) effect r h =
        grind (arith, h, read-Unlinked effect r h)
    request-Unlinked (EffectRequest.availability (Availability.arm_refresh_timer _)) effect r h =
        arm-Unlinked effect r h
    request-Unlinked (EffectRequest.synthetic_notice _) effect r h = h

  dispatch-Unlinked :
      (depth : ℕ) (effect : Effect) (r : ProtocolRuntime)
      → Unlinked controls r
      → Unlinked controls (dispatch_protocol_effect system depth effect r).1
  unfolding dispatch_protocol_effect
  dispatch-Unlinked zero effect r h = h
  dispatch-Unlinked (suc depth) effect r h =
      request-Unlinked (dispatch_protocol_effect system depth) (dispatch-Unlinked depth)
        effect.request effect r h

-- a revocation that the owner reports is sent to the worker
pub revoked-Unlinked :
    (system : System) (r : ProtocolRuntime)
    → Unlinked (r.controls ++ revoke ∷ []) (handle system identity_revoked r)
unfolding handle handle_identity_revoked
revoked-Unlinked system r =
    let cut : ProtocolRuntime = record r {
      connected = false;
      connecting = false;
      reconnect_timer = false;
      adapter = Client.stop r.adapter;
    } in
    let (next, after) = core_transition invalidation (lifecycle session_invalidated) cut in
    let told =
      core-Unlinked system r.controls invalidation (lifecycle session_invalidated) cut
        (refl, refl) in
    for_some-Unlinked system (r.controls ++ revoke ∷ []) (dispatch system)
      (dispatch-Unlinked system _ 2) (taken next)
      (record after { controls = after.controls ++ revoke ∷ [] })
      (told.0, ap (λ cs. cs ++ revoke ∷ []) told.1)
