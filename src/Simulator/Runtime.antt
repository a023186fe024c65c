-- ===== src/Simulator/Runtime.antt =====
-- The event handlers of `ProtocolRuntime`, one call for one event. The user interface and the
-- diagnostics are left out. An error that a handler ignores leaves what was done before it.
pub mod Core
pub mod Served
pub mod Keeps
pub mod Linked
pub mod Revoked
pub mod Connects
pub mod Events
pub mod Stuck
pub mod Lost
pub mod Unlinked
use deskkin.Prelude.{
  ℕ, zero, suc, Bool, true, false, not, ◌&&◌, ◌||◌, Option, none, some, List, [], ◌∷◌, ◌++◌,
  if◌then◌else◌,
}
use deskkin.Prelude.Results.{
  Result, ok, err, Method, pure, fail, lift, view, modify, map_err, ok_or, ◌>>=◌, ◌>>◌,
}
use deskkin.ApplicationCore.{session_invalidated}
use deskkin.Features.Availability as Availability
use deskkin.Application as Application
use deskkin.Application.{Application, ApplicationInput, lifecycle, availability_effect}
use deskkin.Application.Batch as Batch
use deskkin.Application.Batch.{Effect, EffectRequest, FeatureId}
use deskkin.Protocol.{
  ContextId, AvailabilityResult, HelloRejectReason, no_common_version, permission_denied,
}
use deskkin.ProtocolClient as Client
use deskkin.ProtocolClient.{
  ProtocolAdapter, ProtocolEvent, availability_completed, AvailabilityValue, is_some, in_session,
}
use deskkin.DesktopHost.{SessionError, incompatible, authorization_denied}
use deskkin.DesktopHost.Identity.{Identity}
use deskkin.DesktopHost.Session.Reads.{still_paired}
use deskkin.Simulator.{
  NetworkCommand, connect, read, NetworkControl, close, revoke, NetworkEvent, paired, connected,
  read_completed, closed, worker_stopped,
}

-- `refresh_timer` is the timer effect that the running timer will report; `reconnect_timer` says
-- whether it runs. `commands` and `controls` are what was sent to the worker.
pub record ProtocolRuntime : Type 0 where
  pub core : Application
  pub adapter : ProtocolAdapter
  pub connected : Bool
  pub connecting : Bool
  pub pending_session : Option ContextId
  pub refresh_timer : Option Effect
  pub reconnect_timer : Bool
  pub commands : List NetworkCommand
  pub controls : List NetworkControl

pub data Sending : Type 0 where
  sent full disconnected : Sending

-- what the system answers during a call: a new random context, whether a timer that was started
-- runs, what becomes of a command, and the stored identity
pub record System : Type 0 where
  pub context : Option ContextId
  pub timer_runs : Bool
  pub sending : Sending
  pub stored : Identity

pub data RuntimeError : Type 0 where
  context_failed disconnected_read begin_read session_missing invalidation backoff : RuntimeError
  timer_failed queue_unavailable arm_completion zero_effect_identity terminal too_deep :
      RuntimeError

abbrev pub Run : Type 0 → Type 0
Run A = Method RuntimeError ProtocolRuntime A

-- `let _ = …`
abbrev pub ignore : {A : Type 0} → Run A → ProtocolRuntime → ProtocolRuntime
ignore call runtime = (call runtime).1

abbrev first_effect :
    Result Batch.TransitionError Application.Transition
    → Result Batch.TransitionError (Option Effect)
first_effect (ok t) = ok (Batch.get t.effects 0)
first_effect (err e) = err e

-- a transition of the core, and the first of its effects
unfoldable pub core_transition : RuntimeError → ApplicationInput → Run (Option Effect)
core_transition error input runtime =
    let (result, core) = Application.transition input runtime.core in
    (map_err (λ _. error) (first_effect result), record runtime { core = core })

abbrev on_adapter : {A : Type 0} → RuntimeError → Client.Adapter A → Run A
on_adapter error call runtime =
    let (result, adapter) = call runtime.adapter in
    (map_err (λ _. error) result, record runtime { adapter = adapter })

unfoldable pub schedule_protocol_reconnect : System → Run (Unit {0})
schedule_protocol_reconnect system = do
  delay ← on_adapter backoff Client.connection_failed
  modify (λ now. record now { reconnect_timer = system.timer_runs })
  if system.timer_runs then pure tt else fail timer_failed

abbrev arm_result : Bool → Result Availability.TimerArmError (Unit {0})
arm_result true = ok tt
arm_result false = err Availability.TimerArmError.unavailable

abbrev armed : Bool → Effect → Option Effect
armed true effect = some effect
armed false effect = none

unfoldable pub arm_protocol_refresh : System → Effect → Run (Unit {0})
unfolding core_transition
arm_protocol_refresh system effect = do
  modify (λ now. record now { refresh_timer = armed system.timer_runs effect })
  core_transition arm_completion (
      availability_effect effect.id
        (Availability.timer_arm_completed effect.id.local (arm_result system.timer_runs)))
  pure tt

-- `attempt_protocol_connect` when there is no connection and none is being made
abbrev connect_as : Sending → ContextId → Run (Unit {0})
connect_as sent session = modify (λ now. record now {
  adapter = Client.connect now.adapter;
  connecting = true;
  pending_session = some session;
  commands = now.commands ++ connect session ∷ [];
})
connect_as _ session = do
  modify (λ now. record now {
    adapter = Client.connect now.adapter;
    connecting = false;
    pending_session = none;
  })
  fail queue_unavailable

unfoldable pub attempt_protocol_connect : System → Run (Unit {0})
attempt_protocol_connect system runtime =
    if runtime.connected || runtime.connecting
    then (ok tt, runtime)
    else (lift (ok_or system.context context_failed) >>= connect_as system.sending) runtime

-- `if let Some(effect) = next { dispatch_protocol_effect(…)?; }`
abbrev for_some : (Effect → Run (Unit {0})) → Option Effect → Run (Unit {0})
for_some dispatch none = pure tt
for_some dispatch (some effect) = dispatch effect

abbrev when : Bool → Run (Unit {0}) → Run (Unit {0})
when true call = call
when false call = pure tt

-- `dispatch` is `dispatch_protocol_effect`
module _ (system : System) (dispatch : Effect → Run (Unit {0})) where
  unfoldable pub complete_read_while_disconnected : Effect → Run (Unit {0})
  unfolding core_transition schedule_protocol_reconnect
  complete_read_while_disconnected effect = do
    next ← core_transition disconnected_read (
        availability_effect effect.id
          (Availability.read_completed effect.id.local (err Availability.ReadError.unavailable)))
    idle ← view (λ now.
        not now.connecting && not (is_some now.adapter.terminal_reason) && not now.reconnect_timer)
    when idle (schedule_protocol_reconnect system)
    for_some dispatch next

  abbrev invalidate : Option ProtocolEvent → Run (Option Effect)
  invalidate none = pure none
  invalidate (some _) = core_transition invalidation (lifecycle session_invalidated)

  unfoldable pub protocol_disconnected : Run (Unit {0})
  unfolding core_transition schedule_protocol_reconnect
  protocol_disconnected runtime =
      let (event, adapter) = Client.disconnect runtime.adapter in
      (do
        next ← invalidate event
        running ← view (λ now. now.reconnect_timer)
        when (not running) (schedule_protocol_reconnect system)
        for_some dispatch next)
        (record runtime {
          adapter = adapter;
          connected = false;
          connecting = false;
          pending_session = none;
        })

  abbrev send_read : Sending → ContextId → ℕ → ContextId → Run (Unit {0})
  send_read sent session request_id operation =
      modify
        (λ now. record now { commands = now.commands ++ read session request_id operation ∷ [] })
  send_read full session request_id operation = do
    modify (λ now. record now { controls = now.controls ++ close ∷ [] })
    protocol_disconnected
  send_read disconnected session request_id operation = protocol_disconnected

  unfoldable pub perform_protocol_read : Effect → Run (Unit {0})
  unfolding complete_read_while_disconnected protocol_disconnected
  perform_protocol_read effect runtime =
      if not runtime.connected
      then complete_read_while_disconnected effect runtime
      else (do
        operation ← lift (ok_or system.context context_failed)
        request_id ← on_adapter begin_read (Client.begin_read effect.id.local operation)
        session ← view (λ now. now.adapter.session)
        session ← lift (ok_or session session_missing)
        send_read system.sending session request_id operation)
          runtime

abbrev dispatch_request :
    System → (Effect → Run (Unit {0})) → EffectRequest → Effect → Run (Unit {0})
dispatch_request system dispatch (EffectRequest.availability Availability.read_availability)
      effect =
    perform_protocol_read system dispatch effect
dispatch_request system dispatch (EffectRequest.availability (Availability.arm_refresh_timer _))
      effect =
    arm_protocol_refresh system effect
dispatch_request system dispatch (EffectRequest.synthetic_notice _) effect = pure tt

-- The handlers call one another, so the depth of the calls is bounded: a read calls for a timer, and
-- a timer calls for nothing.
unfoldable pub dispatch_protocol_effect : System → ℕ → Effect → Run (Unit {0})
unfolding perform_protocol_read arm_protocol_refresh
dispatch_protocol_effect system zero effect = fail too_deep
dispatch_protocol_effect system (suc depth) effect =
    dispatch_request system (dispatch_protocol_effect system depth) effect.request effect

abbrev pub depth : ℕ
depth = 2

abbrev dispatch : System → Effect → Run (Unit {0})
dispatch system = dispatch_protocol_effect system depth

abbrev protocol_value : AvailabilityValue → Result Availability.ReadError Availability.Availability
protocol_value AvailabilityValue.available = ok Availability.Availability.available
protocol_value AvailabilityValue.unavailable = ok Availability.Availability.unavailable
protocol_value AvailabilityValue.read_failed = err Availability.ReadError.unavailable

unfoldable pub protocol_event_input : ProtocolEvent → Result RuntimeError ApplicationInput
protocol_event_input Client.session_invalidated = ok (lifecycle session_invalidated)
protocol_event_input (availability_completed zero value) = err zero_effect_identity
protocol_event_input (availability_completed (suc n) value) = ok (
    availability_effect (record { feature = FeatureId.availability; local = suc n })
      (Availability.read_completed (suc n) (protocol_value value)))

-- the closure of `handle_read_result`: an error stands for its `None`
abbrev take_result : ContextId → ℕ → ContextId → AvailabilityResult → Run (Option Effect)
take_result session request_id operation answer = do
  event ← on_adapter begin_read (Client.result session request_id operation answer)
  input ← lift (protocol_event_input event)
  core_transition disconnected_read input

abbrev taken : Result RuntimeError (Option Effect) → Option Effect
taken (ok next) = next
taken (err _) = none

abbrev taking :
    System → ContextId → ℕ → ContextId → AvailabilityResult → ProtocolRuntime → ProtocolRuntime
taking system session request_id operation answer runtime =
    let (next, after) = take_result session request_id operation answer runtime in
    ignore (for_some (dispatch system) (taken next)) after

abbrev accept_result :
    System → ContextId → ℕ → ContextId → AvailabilityResult → ProtocolRuntime → ProtocolRuntime
accept_result system session request_id operation answer runtime =
    if not runtime.connected || not (in_session runtime.adapter.session session)
    then runtime
    else taking system session request_id operation answer runtime

unfoldable pub handle_read_result :
    System
    → ContextId
    → ℕ
    → ℕ
    → ContextId
    → Result SessionError AvailabilityResult
    → ProtocolRuntime
    → ProtocolRuntime
unfolding protocol_disconnected protocol_event_input core_transition dispatch_protocol_effect
handle_read_result system session generation request_id operation (err _) runtime =
    ignore (protocol_disconnected system (dispatch system)) runtime
handle_read_result system session generation request_id operation (ok answer) runtime =
    if still_paired system.stored generation
    then accept_result system session request_id operation answer runtime
    else ignore (protocol_disconnected system (dispatch system)) runtime

-- what `protocol_terminal` does with the timer that an invalidated read asks for
abbrev refuse_timer : Option Effect → Run (Unit {0})
refuse_timer none = pure tt
refuse_timer (some timer) = do
  core_transition terminal (
      availability_effect timer.id (
        Availability.timer_arm_completed timer.id.local
          (err Availability.TimerArmError.unavailable)))
  pure tt

unfoldable pub protocol_terminal : HelloRejectReason → Run (Unit {0})
unfolding core_transition
protocol_terminal reason = do
  modify (λ now. record now {
    connected = false;
    connecting = false;
    pending_session = none;
    reconnect_timer = false;
    adapter = Client.hello_rejected reason now.adapter;
  })
  next ← core_transition terminal (lifecycle session_invalidated)
  refuse_timer next

abbrev connect_result :
    System → ContextId → Result SessionError (Unit {0}) → ProtocolRuntime → ProtocolRuntime
connect_result system session (ok _) runtime = record runtime {
  reconnect_timer = false;
  adapter = Client.authenticate session runtime.adapter;
  connected = true;
}
connect_result system session (err incompatible) runtime =
    ignore (protocol_terminal no_common_version) runtime
connect_result system session (err authorization_denied) runtime =
    ignore (protocol_terminal permission_denied) runtime
connect_result system session (err _) runtime = ignore (schedule_protocol_reconnect system) runtime

unfoldable pub handle_connect_result :
    System → ContextId → Result SessionError (Unit {0}) → ProtocolRuntime → ProtocolRuntime
unfolding protocol_terminal schedule_protocol_reconnect
handle_connect_result system session result runtime =
    if not (in_session runtime.pending_session session)
    then runtime
    else connect_result system session result
        (record runtime { connecting = false; pending_session = none })

abbrev pairing_rejected : Result SessionError (Unit {0}) → ProtocolAdapter → ProtocolAdapter
pairing_rejected (err incompatible) adapter = Client.hello_rejected no_common_version adapter
pairing_rejected (err authorization_denied) adapter =
    Client.hello_rejected permission_denied adapter
pairing_rejected _ adapter = adapter

-- the adapter after `apply_pairing_outcome`, which returns whether it has no terminal reason
unfoldable pub apply_pairing_outcome :
    Result SessionError (Unit {0}) → ProtocolAdapter → ProtocolAdapter
apply_pairing_outcome result adapter =
    pairing_rejected result (Client.restart_after_pairing adapter)

unfoldable pub handle_paired :
    System → Bool → Result SessionError (Unit {0}) → ProtocolRuntime → ProtocolRuntime
unfolding apply_pairing_outcome schedule_protocol_reconnect
handle_paired system false result runtime = runtime
handle_paired system true result runtime =
    let adapter = apply_pairing_outcome result runtime.adapter in
    let after = record runtime { connected = false; connecting = false; adapter = adapter } in
    if is_some adapter.terminal_reason
    then after
    else ignore (schedule_protocol_reconnect system) after

unfoldable pub handle_network_event : System → NetworkEvent → ProtocolRuntime → ProtocolRuntime
unfolding handle_paired handle_connect_result handle_read_result
handle_network_event system (paired trusted result) runtime =
    handle_paired system trusted result runtime
handle_network_event system (connected session result) runtime =
    handle_connect_result system session result runtime
handle_network_event system (read_completed session generation request_id operation result)
      runtime =
    handle_read_result system session generation request_id operation result runtime
handle_network_event system closed runtime = runtime
handle_network_event system worker_stopped runtime = runtime

-- `OwnerEvent::IdentityRevoked`
unfoldable pub handle_identity_revoked : System → ProtocolRuntime → ProtocolRuntime
unfolding core_transition dispatch_protocol_effect
handle_identity_revoked system runtime =
    let (next, after) =
      core_transition invalidation (lifecycle session_invalidated) (record runtime {
        connected = false;
        connecting = false;
        reconnect_timer = false;
        adapter = Client.stop runtime.adapter;
      }) in
    ignore (for_some (dispatch system) (taken next))
      (record after { controls = after.controls ++ revoke ∷ [] })

abbrev due : Option Effect → Run (Option Effect)
due none = pure none
due (some timer) =
    core_transition arm_completion
      (availability_effect timer.id (Availability.refresh_due timer.id.local))

-- the refresh timer, which runs once, has fired
unfoldable pub protocol_refresh_due : System → ProtocolRuntime → ProtocolRuntime
unfolding core_transition dispatch_protocol_effect
protocol_refresh_due system runtime =
    let (next, after) = due runtime.refresh_timer (record runtime { refresh_timer = none }) in
    ignore (for_some (dispatch system) (taken next)) after

pub data Event : Type 0 where
  network : NetworkEvent → Event
  identity_revoked refresh_due reconnect_due : Event

unfoldable pub handle : System → Event → ProtocolRuntime → ProtocolRuntime
unfolding handle_network_event handle_identity_revoked protocol_refresh_due attempt_protocol_connect
handle system (network event) runtime = handle_network_event system event runtime
handle system identity_revoked runtime = handle_identity_revoked system runtime
handle system refresh_due runtime = protocol_refresh_due system runtime
handle system reconnect_due runtime =
    ignore (attempt_protocol_connect system) (record runtime { reconnect_timer = false })
