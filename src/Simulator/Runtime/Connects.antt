-- ===== src/Simulator/Runtime/Connects.antt =====
-- What the results of connecting and pairing do to the runtime.
use deskkin.Prelude.{◌≡◌, ◌≢◌, refl, sym, ap, subst, Bool, true, false, Option, none, some, arith}
use deskkin.Prelude.Results.{Result, ok, err}
use deskkin.ApplicationCore.{LocalEffectId}
use deskkin.Features.Availability as Availability
use deskkin.Features.Availability.{reading, arming_refresh, waiting, stopped}
use deskkin.Protocol.{ContextId, HelloRejectReason, no_common_version, permission_denied}
use deskkin.ProtocolClient as Client
use deskkin.ProtocolClient.{is_some, is_authenticated, is_stopped, in_session}
use deskkin.DesktopHost.{SessionError, incompatible, authorization_denied}
use deskkin.Simulator.Runtime.{
  ProtocolRuntime, System, terminal, protocol_terminal, handle_connect_result, connect_result,
  handle_paired, apply_pairing_outcome, attempt_protocol_connect, Sending,
}
use deskkin.Simulator.Runtime.Core.{invalidated_idle_lem}
use deskkin.Simulator.Runtime.Served.{Served, IsLinked, Works, idle-Served, schedule-IsLinked}

-- without a connection, no read is waited for
apart_not_reading :
    (r : ProtocolRuntime)
    → IsLinked r
    → r.connected ≡ false
    → (id : LocalEffectId) → r.core.availability.state ≢ reading id
apart_not_reading r l apart id e = ground (arith, l.served)

apart_idle : (r : ProtocolRuntime) → IsLinked r → r.connected ≡ false → r.adapter.active ≡ none
apart_idle r l apart = ground (arith, l.served)

pub restarted_idle :
    (result : Result SessionError (Unit {0})) (a : Client.ProtocolAdapter)
    → (apply_pairing_outcome result a).active ≡ none
unfolding apply_pairing_outcome Client.restart_after_pairing Client.hello_rejected
restarted_idle result a = ground arith

module _ (system : System) (works : Works system) (r : ProtocolRuntime) (l : IsLinked r) where
  module _ (apart : r.connected ≡ false) where
    terminal-IsLinked :
        (reason : HelloRejectReason)
        → (Client.hello_rejected reason r.adapter).active ≡ none
        → IsLinked (protocol_terminal reason r).1
    unfolding protocol_terminal
    terminal-IsLinked reason idle =
        let now : ProtocolRuntime = record r {
          connected = false;
          connecting = false;
          pending_session = none;
          reconnect_timer = false;
          adapter = Client.hello_rejected reason r.adapter;
        } in
        let state = r.core.availability.state in
        let (e, moves) =
          invalidated_idle_lem terminal now l.has_session.runs state refl
            (apart_not_reading r l apart) in
        let served =
          idle-Served state r.connected r.adapter.active r.refresh_timer
            (apart_not_reading r l apart) l.served in
        ground (arith, served)

    connect_result-IsLinked :
        (session : ContextId) (result : Result SessionError (Unit {0}))
        → (result ≡ ok tt → is_stopped r.adapter.state ≡ false)
        → r.pending_session ≡ none
        → IsLinked (connect_result system session result r)
    unfolding Client.authenticate Client.hello_rejected
    connect_result-IsLinked session (ok tt) live settled =
        let free = live refl in
        let state = r.core.availability.state in
        let served = by_state state refl l.served in
        record { has_session = ground (arith, l.has_session); served = ground arith }
      where
        by_state :
            (s : Availability.State)
            → r.core.availability.state ≡ s
            → Served s r.connected r.adapter.active r.refresh_timer
            → Served s true r.adapter.active r.refresh_timer
        by_state stopped e h = h
        by_state (waiting _) e h = h
        by_state (arming_refresh _) e h = h
        by_state (reading id) e h = absurd (apart_not_reading r l apart id e)
    connect_result-IsLinked session (err incompatible) live settled =
        terminal-IsLinked no_common_version (apart_idle r l apart)
    connect_result-IsLinked session (err authorization_denied) live settled =
        terminal-IsLinked permission_denied (apart_idle r l apart)
    connect_result-IsLinked session (err _) live settled = schedule-IsLinked system works r l apart

module _ (system : System) (works : Works system) (r : ProtocolRuntime) (l : IsLinked r) where
  pub connected-IsLinked :
      (session : ContextId) (result : Result SessionError (Unit {0}))
      → (result ≡ ok tt → is_stopped r.adapter.state ≡ false)
      → IsLinked (handle_connect_result system session result r)
  unfolding handle_connect_result
  connected-IsLinked session result live = by_session r.pending_session refl
    where
      by_session :
          (pending : Option ContextId)
          → r.pending_session ≡ pending
          → IsLinked (handle_connect_result system session result r)
      by_session none e = ground (arith, l.has_session, l.served)
      by_session (some expected) e =
          let apart : r.connected ≡ false = l.has_session.pending (ap is_some e) in
          let now : ProtocolRuntime = record r { connecting = false; pending_session = none } in
          let still : IsLinked now = record {
            has_session = ground (arith, l.has_session);
            served = l.served;
          } in
          let done =
            connect_result-IsLinked system works now still apart session result live refl in
          ground (arith, l.has_session, l.served, done)

  -- the adapter starts anew
  pub paired-IsLinked :
      (trusted : Bool) (result : Result SessionError (Unit {0}))
      → (trusted ≡ true → r.connected ≡ false)
      → IsLinked (handle_paired system trusted result r)
  unfolding handle_paired apply_pairing_outcome Client.restart_after_pairing Client.hello_rejected
  paired-IsLinked false result cold = l
  paired-IsLinked true result cold =
      let apart = cold refl in
      let adapter = apply_pairing_outcome result r.adapter in
      let now : ProtocolRuntime = record r {
        connected = false;
        connecting = false;
        adapter = adapter;
      } in
      let state = r.core.availability.state in
      let fresh : adapter.active ≡ none = restarted_idle result r.adapter in
      let served : Served state false adapter.active r.refresh_timer =
        subst (λ a. Served state false a r.refresh_timer) (sym fresh)
          (idle-Served state r.connected r.adapter.active r.refresh_timer
            (apart_not_reading r l apart) l.served) in
      let still : IsLinked now = record {
        has_session = ground (arith, l.has_session);
        served = served;
      } in
      let scheduled = schedule-IsLinked system works now still refl in
      grind (arith, still, scheduled)

  pub reconnect_due-IsLinked :
      IsLinked (attempt_protocol_connect system (record r { reconnect_timer = false })).1
  unfolding attempt_protocol_connect Client.connect
  reconnect_due-IsLinked =
      by_tests r.connected r.connecting system.context system.sending refl refl refl refl
    where
      by_tests :
          (connected connecting : Bool) (context : Option ContextId) (sending : Sending)
          → r.connected ≡ connected
          → r.connecting ≡ connecting
          → system.context ≡ context
          → system.sending ≡ sending
          → IsLinked (attempt_protocol_connect system (record r { reconnect_timer = false })).1
      by_tests connected connecting context sending e f c s =
          ground (arith, l.has_session, l.served)
