-- ===== src/Simulator/Runtime/Stuck.antt =====
-- A runtime that waits for the start of a timer which nobody starts never reads again.
use deskkin.Prelude.{ℕ, ◌≡◌, Bool, true, false, Bool-cases, inl, inr, none, List, [], ◌∷◌, arith}
use deskkin.Prelude.Results.{Result, ok, err}
use deskkin.ApplicationCore.{LocalEffectId, session_invalidated}
use deskkin.Features.Availability.{arming_refresh}
use deskkin.Application.{running, lifecycle}
use deskkin.Protocol.{
  ContextId, HelloRejectReason, AvailabilityResult, no_common_version, permission_denied,
}
use deskkin.ProtocolClient as Client
use deskkin.ProtocolClient.{is_some, is_stopped, in_session}
use deskkin.DesktopHost.{SessionError, incompatible, authorization_denied}
use deskkin.Simulator.{paired, connected, read_completed, closed, worker_stopped}
use deskkin.Simulator.Runtime.{
  ProtocolRuntime, System, Event, network, identity_revoked, refresh_due, reconnect_due, handle,
  handle_network_event, handle_identity_revoked, handle_paired, handle_connect_result,
  handle_read_result, connect_result, apply_pairing_outcome, protocol_refresh_due,
  protocol_disconnected, protocol_terminal, attempt_protocol_connect, core_transition,
  schedule_protocol_reconnect, invalidation, terminal, dispatch,
}
use deskkin.Simulator.Runtime.Core.{invalidated_idle_lem}
use deskkin.Simulator.Runtime.Served.{dropped}
use deskkin.Simulator.Runtime.Connects.{restarted_idle}
use deskkin.Simulator.Runtime.Events.{result-Ends}

-- the timer is not started, and no read is in flight
pub record IsStuck (id : LocalEffectId) (r : ProtocolRuntime) : Type 0 where
  pub runs : r.core.state ≡ running
  pub arming : r.core.availability.state ≡ arming_refresh id
  pub timerless : r.refresh_timer ≡ none
  pub idle : r.adapter.active ≡ none

module _ (id : LocalEffectId) (r : ProtocolRuntime) (s : IsStuck id r) where
  schedule-IsStuck : (system : System) → IsStuck id (schedule_protocol_reconnect system r).1
  unfolding schedule_protocol_reconnect Client.connection_failed
  schedule-IsStuck system = ground (arith, s)

  revoked-IsStuck : (system : System) → IsStuck id (handle_identity_revoked system r)
  unfolding handle_identity_revoked Client.stop
  revoked-IsStuck system =
      let cut : ProtocolRuntime = record r {
        connected = false;
        connecting = false;
        reconnect_timer = false;
        adapter = Client.stop r.adapter;
      } in
      let (e, moves) =
        invalidated_idle_lem invalidation cut s.runs (arming_refresh id) s.arming
          (λ x. λ k. ground arith) in
      ground (arith, s, moves.rest, moves.runs, moves.moved)

  terminal-IsStuck :
      (reason : HelloRejectReason)
      → (Client.hello_rejected reason r.adapter).active ≡ none
      → IsStuck id (protocol_terminal reason r).1
  unfolding protocol_terminal
  terminal-IsStuck reason idle =
      let now : ProtocolRuntime = record r {
        connected = false;
        connecting = false;
        pending_session = none;
        reconnect_timer = false;
        adapter = Client.hello_rejected reason r.adapter;
      } in
      let (e, moves) =
        invalidated_idle_lem terminal now s.runs (arming_refresh id) s.arming
          (λ x. λ k. ground arith) in
      ground (arith, s, moves.rest, moves.runs, moves.moved)

  reconnect-IsStuck :
      (system : System)
      → IsStuck id (attempt_protocol_connect system (record r { reconnect_timer = false })).1
  unfolding attempt_protocol_connect Client.connect
  reconnect-IsStuck system = ground (arith, s)

  due-IsStuck : (system : System) → IsStuck id (protocol_refresh_due system r)
  unfolding protocol_refresh_due
  due-IsStuck system = ground (arith, s)

module _ (id : LocalEffectId) where
  connect_result-IsStuck :
      (system : System) (session : ContextId) (result : Result SessionError (Unit {0}))
      (r : ProtocolRuntime)
      → IsStuck id r
      → IsStuck id (connect_result system session result r)
  unfolding Client.authenticate Client.hello_rejected
  connect_result-IsStuck system session (ok tt) r s = ground (arith, s)
  connect_result-IsStuck system session (err incompatible) r s =
      terminal-IsStuck id r s no_common_version s.idle
  connect_result-IsStuck system session (err authorization_denied) r s =
      terminal-IsStuck id r s permission_denied s.idle
  connect_result-IsStuck system session (err _) r s = schedule-IsStuck id r s system

  connected-IsStuck :
      (system : System) (session : ContextId) (result : Result SessionError (Unit {0}))
      (r : ProtocolRuntime)
      → IsStuck id r
      → IsStuck id (handle_connect_result system session result r)
  unfolding handle_connect_result
  connected-IsStuck system session result r s =
      let now : ProtocolRuntime = record r { connecting = false; pending_session = none } in
      let stuck : IsStuck id now = ground (arith, s) in
      ground (arith, s, connect_result-IsStuck system session result now stuck)

  paired-IsStuck :
      (system : System) (trusted : Bool) (result : Result SessionError (Unit {0}))
      (r : ProtocolRuntime)
      → IsStuck id r
      → IsStuck id (handle_paired system trusted result r)
  unfolding handle_paired
  paired-IsStuck system false result r s = s
  paired-IsStuck system true result r s =
      let now : ProtocolRuntime = record r {
        connected = false;
        connecting = false;
        adapter = apply_pairing_outcome result r.adapter;
      } in
      let stuck : IsStuck id now = ground (arith, s, restarted_idle result r.adapter) in
      ground (arith, stuck, schedule-IsStuck id now stuck system)

  disconnected-IsStuck :
      (system : System) (r : ProtocolRuntime)
      → IsStuck id r
      → IsStuck id (protocol_disconnected system (dispatch system) r).1
  unfolding protocol_disconnected Client.disconnect
  disconnected-IsStuck system r s = elim (Bool-cases (is_stopped r.adapter.state)) [
    | inl halted ↦
        let now : ProtocolRuntime = record r {
          connected = false;
          connecting = false;
          pending_session = none;
        } in
        let stuck : IsStuck id now = ground (arith, s) in
        ground (arith, stuck, schedule-IsStuck id now stuck system)
    | inr live ↦
        let now = dropped r in
        let (e, moves) =
          invalidated_idle_lem invalidation now s.runs (arming_refresh id) s.arming
            (λ x. λ k. ground arith) in
        let after = (core_transition invalidation (lifecycle session_invalidated) now).1 in
        let stuck : IsStuck id after = ground (arith, s, moves.rest, moves.runs, moves.moved) in
        ground (arith, stuck, schedule-IsStuck id after stuck system)
  ]

  -- an answer finds no read in flight
  result_refused :
      (session : ContextId) (request : ℕ) (operation : ContextId) (answer : AvailabilityResult)
      (a : Client.ProtocolAdapter)
      → a.active ≡ none
      → (e : Client.ProtocolAdapterError) × (Client.result session request operation answer a
          ≡ (err e, a))
  result_refused session request operation answer a idle =
      elim (result-Ends session request operation answer a) [
        | inl refused ↦ refused
        | inr (x, value, active, _) ↦ absurd (ground arith)
      ]

  read_completed-IsStuck :
      (system : System) (session : ContextId) (generation request : ℕ) (operation : ContextId)
      (result : Result SessionError AvailabilityResult) (r : ProtocolRuntime)
      → IsStuck id r
      → IsStuck id (handle_read_result system session generation request operation result r)
  unfolding handle_read_result
  read_completed-IsStuck system session generation request operation (err _) r s =
      disconnected-IsStuck system r s
  read_completed-IsStuck system session generation request operation (ok answer) r s =
      let lost = disconnected-IsStuck system r s in
      let (e, refused) = result_refused session request operation answer r.adapter s.idle in
      ground (arith, lost, s)

  handle-IsStuck :
      (system : System) (event : Event) (r : ProtocolRuntime)
      → IsStuck id r
      → IsStuck id (handle system event r)
  unfolding handle handle_network_event
  handle-IsStuck system identity_revoked r s = revoked-IsStuck id r s system
  handle-IsStuck system refresh_due r s = due-IsStuck id r s system
  handle-IsStuck system reconnect_due r s = reconnect-IsStuck id r s system
  handle-IsStuck system (network closed) r s = s
  handle-IsStuck system (network worker_stopped) r s = s
  handle-IsStuck system (network (read_completed session generation request operation result)) r s =
      read_completed-IsStuck system session generation request operation result r s
  handle-IsStuck system (network (connected session result)) r s =
      connected-IsStuck system session result r s
  handle-IsStuck system (network (paired trusted result)) r s =
      paired-IsStuck system trusted result r s

-- the runtime after events, each handled with what the system answered to it
unfoldable pub after : List (System × Event) → ProtocolRuntime → ProtocolRuntime
after [] r = r
after ((system, event) ∷ events) r = after events (handle system event r)

pub after-IsStuck :
    (id : LocalEffectId) (events : List (System × Event)) (r : ProtocolRuntime)
    → IsStuck id r
    → IsStuck id (after events r)
unfolding after
after-IsStuck id [] r s = s
after-IsStuck id ((system, event) ∷ events) r s =
    after-IsStuck id events (handle system event r) (handle-IsStuck id system event r s)
