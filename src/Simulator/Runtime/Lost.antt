-- ===== src/Simulator/Runtime/Lost.antt =====
-- A refresh that falls due after a revocation is lost, and no refresh follows it.
use deskkin.Prelude.{◌+◌, ◌<◌, ◌^◌, ◌≡◌, true, false, none, some, List, [], ◌∷◌, ◌++◌, arith}
use deskkin.Prelude.Results.{err}
use deskkin.ApplicationCore.{LocalEffectId, session_invalidated}
use deskkin.Simulator.{revoke}
use deskkin.Features.Availability as Availability
use deskkin.Features.Availability.{reading, arming_refresh, waiting, stopped}
use deskkin.Application.{running, availability_effect, lifecycle}
use deskkin.ProtocolClient as Client
use deskkin.ProtocolClient.{is_some, is_authenticated, is_stopped}
use deskkin.Simulator.Runtime.{
  ProtocolRuntime, System, Event, refresh_due, identity_revoked, handle, handle_identity_revoked,
  protocol_refresh_due, core_transition, schedule_protocol_reconnect, perform_protocol_read,
  dispatch_protocol_effect, complete_read_while_disconnected, arm_completion, disconnected_read,
  invalidation, backoff, dispatch,
}
use deskkin.Simulator.Runtime.Stuck.{IsStuck, after, after-IsStuck}
use deskkin.Simulator.Runtime.Core.{
  at, timer_effect, read_effect, refresh_due_lem, read_completed_lem, invalidated_idle_lem,
}

-- nothing connects, and nothing is about to
record IsHalted (r : ProtocolRuntime) : Type 0 where
  runs : r.core.state ≡ running
  apart : r.connected ≡ false
  settled : r.connecting ≡ false
  idle : r.reconnect_timer ≡ false
  halted : is_stopped r.adapter.state ≡ true
  reason : r.adapter.terminal_reason ≡ none

module _ (system : System) where
  schedule_halted :
      (r : ProtocolRuntime)
      → is_stopped r.adapter.state ≡ true
      → schedule_protocol_reconnect system r ≡ (err backoff, r)
  unfolding schedule_protocol_reconnect Client.connection_failed
  schedule_halted r halted = ground arith

  -- a read without a connection, which cannot be scheduled again
  halted_read :
      (r : ProtocolRuntime) (id : LocalEffectId)
      → IsHalted r
      → r.core.availability.state ≡ reading id
      → r.core.availability.next_effect_id + 1 < 2 ^ 64
      → let after = (dispatch system (read_effect id) r).1 in
        (after.core.state ≡ running)
        × (after.core.availability.state ≡ arming_refresh (r.core.availability.next_effect_id + 1))
        × (after.refresh_timer ≡ r.refresh_timer)
        × (after.adapter.active ≡ r.adapter.active)
  unfolding dispatch_protocol_effect perform_protocol_read complete_read_while_disconnected
  halted_read r id h e room =
      let (k, moves) =
        read_completed_lem disconnected_read r h.runs id (err Availability.ReadError.unavailable) e
          room in
      let shown =
        (core_transition disconnected_read
          (availability_effect (at id)
            (Availability.read_completed id (err Availability.ReadError.unavailable)))
          r).1 in
      let failed = schedule_halted shown (ground (arith, h)) in ground (arith, h)

  halted_due :
      (r : ProtocolRuntime) (id : LocalEffectId)
      → IsHalted r
      → r.core.availability.state ≡ waiting id
      → r.refresh_timer ≡ some (timer_effect id)
      → r.core.availability.next_effect_id + 2 < 2 ^ 64
      → r.adapter.active ≡ none
      → IsStuck (r.core.availability.next_effect_id + 2) (protocol_refresh_due system r)
  unfolding protocol_refresh_due
  halted_due r id h e timer room none_active =
      let fired : ProtocolRuntime = record r { refresh_timer = none } in
      let (k, moves) = refresh_due_lem arm_completion fired h.runs id e (omega arith) in
      let now =
        (core_transition arm_completion (availability_effect (at id) (Availability.refresh_due id))
          fired).1 in
      let read =
        halted_read now (r.core.availability.next_effect_id + 1)
          (ground (arith, h, moves.rest, moves.runs)) moves.moved (omega (arith, moves.counted)) in
      ground (arith, moves.counted, moves.rest)

-- A runtime whose application waits for a running timer, while the adapter has no reason to have
-- stopped: when the identity is revoked and then the timer fires, the application waits for the start
-- of another timer, and it stays so whatever events follow, with no refresh timer and no read in
-- flight: pairing and connecting again do not start another refresh.
pub revoked_refresh_is_lost :
    (system : System) (events : List (System × Event)) (r : ProtocolRuntime) (id : LocalEffectId)
    → r.core.state ≡ running
    → r.core.availability.state ≡ waiting id
    → r.refresh_timer ≡ some (timer_effect id)
    → r.adapter.terminal_reason ≡ none
    → r.core.availability.next_effect_id + 2 < 2 ^ 64
    → IsStuck
        (r.core.availability.next_effect_id + 2)
        (after events (handle system refresh_due (handle system identity_revoked r)))
unfolding handle handle_identity_revoked Client.stop
revoked_refresh_is_lost system events r id runs e timer reason room =
    let cut : ProtocolRuntime = record r {
      connected = false;
      connecting = false;
      reconnect_timer = false;
      adapter = Client.stop r.adapter;
    } in
    let (k, moves) =
      invalidated_idle_lem invalidation cut runs (waiting id) e (λ x. λ y. ground arith) in
    let now = (core_transition invalidation (lifecycle session_invalidated) cut).1 in
    let told : ProtocolRuntime = record now { controls = now.controls ++ revoke ∷ [] } in
    let lost =
      halted_due system told id (ground (arith, moves.rest, moves.runs)) moves.moved
        (ground (arith, moves.rest)) (omega (arith, moves.counted)) (ground (arith, moves.rest)) in
    after-IsStuck (r.core.availability.next_effect_id + 2) events _ (ground (arith, moves.counted))
