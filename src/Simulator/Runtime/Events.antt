-- ===== src/Simulator/Runtime/Events.antt =====
-- Every event keeps the runtime's invariant.
use deskkin.Prelude.{
  ℕ, ◌+◌, ◌≡◌, ◌≢◌, ◌⊎◌, refl, sym, subst, Bool, true, false, Bool-cases, not, ◌||◌, ◌==◌,
  if◌then◌else◌, inl, inr, Option, none, some, arith,
}
use deskkin.Prelude.Results.{Result, ok, err}
use deskkin.Prelude.Bytes.{same_bytes}
use deskkin.Features.Availability as Availability
use deskkin.Features.Availability.{reading, arming_refresh, waiting, stopped}
use deskkin.Application.{availability_effect}
use deskkin.Protocol.{ContextId, AvailabilityResult}
use deskkin.ProtocolClient as Client
use deskkin.ProtocolClient.{
  ActiveRead, ProtocolAdapter, ProtocolAdapterError, AvailabilityValue, availability_completed,
  is_some, is_authenticated, is_stopped, in_session,
}
use deskkin.DesktopHost.{SessionError}
use deskkin.Simulator.{paired, connected, read_completed, closed, worker_stopped}
use deskkin.Simulator.Runtime.{
  ProtocolRuntime, System, Event, network, identity_revoked, refresh_due, reconnect_due,
  core_transition, disconnected_read, taking, protocol_event_input, protocol_value,
  handle_read_result, handle_network_event, handle,
}
use deskkin.Simulator.Runtime.Core.{at, read_completed_lem}
use deskkin.Simulator.Runtime.Served.{
  Served, IsLinked, Works, IsFree, dispatch_timer-IsLinked, disconnected-IsLinked,
}
use deskkin.Simulator.Runtime.Keeps.{HasRoom}
use deskkin.Simulator.Runtime.Linked.{refresh_due-IsLinked}
use deskkin.Simulator.Runtime.Revoked.{identity_revoked-IsLinked}
use deskkin.Simulator.Runtime.Connects.{connected-IsLinked, paired-IsLinked, reconnect_due-IsLinked}

if_true : {A : Type 0} (b : Bool) (x y : A) → b ≡ true → (if b then x else y) ≡ x
if_true b x y e = ground arith

if_false : {A : Type 0} (b : Bool) (x y : A) → b ≡ false → (if b then x else y) ≡ y
if_false b x y e = ground arith

-- an answer is refused and changes nothing, or it ends the read in flight
abbrev pub Ends :
    ProtocolAdapter → Result ProtocolAdapterError Client.ProtocolEvent × ProtocolAdapter → Type 0
Ends a done =
    ((e : ProtocolAdapterError) × (done ≡ (err e, a)))
    ⊎ ((x : ActiveRead) × (value : AvailabilityValue) × (a.active ≡ some x)
        × (done ≡ (
          ok (availability_completed x.effect_id value),
          record a { active = none; backoff_index = 0 },
        )))

finish_read-Ends :
    (active : Option ActiveRead) (request : ℕ) (operation : ContextId) (answer : AvailabilityResult)
    (a : ProtocolAdapter)
    → a.active ≡ active
    → Ends a (Client.finish_read active request operation answer a)
unfolding Client.finish_read
finish_read-Ends none request operation answer a e = inl (ProtocolAdapterError.no_active_read, refl)
finish_read-Ends (some x) request operation answer a e =
    elim (Bool-cases (not (x.request_id == request) || not (same_bytes x.operation operation))) [
      | inl other ↦ inl (ProtocolAdapterError.request_mismatch, rw other)
      | inr same ↦ inr (x, Client.value_of answer, e, rw same)
    ]

pub result-Ends :
    (session : ContextId) (request : ℕ) (operation : ContextId) (answer : AvailabilityResult)
    (a : ProtocolAdapter)
    → Ends a (Client.result session request operation answer a)
unfolding Client.result
result-Ends session request operation answer a =
    elim (Bool-cases (not (is_authenticated a.state) || not (in_session a.session session))) [
      | inl other ↦ inl (ProtocolAdapterError.session_mismatch, if_true _ _ _ other)
      | inr same ↦
          subst {A = Result ProtocolAdapterError Client.ProtocolEvent × ProtocolAdapter} (Ends a)
            (sym (if_false _ _ _ same)) (finish_read-Ends a.active request operation answer a refl)
    ]

module _ (system : System) (works : Works system) (r : ProtocolRuntime) (l : IsLinked r) where
  module _ (room : HasRoom r) where
    abbrev ended : ProtocolRuntime → ProtocolRuntime
    ended now = record now { adapter = record now.adapter { active = none; backoff_index = 0 } }

    -- the read that is answered is the one that the application waits for
    answered_lem :
        (x : ActiveRead)
        → r.adapter.active ≡ some x
        → (r.core.availability.state ≡ reading x.effect_id) × (x.effect_id ≢ 0)
    answered_lem x e = by_state r.core.availability.state refl l.served
      where
        by_state :
            (s : Availability.State)
            → r.core.availability.state ≡ s
            → Served s r.connected r.adapter.active r.refresh_timer
            → (r.core.availability.state ≡ reading x.effect_id) × (x.effect_id ≢ 0)
        by_state (reading id) k h = ground arith
        by_state stopped k h = absurd (ground arith)
        by_state (waiting _) k h = absurd (ground arith)
        by_state (arming_refresh _) k h = absurd h

    -- an answer, when there is a connection in its session
    take_result-IsLinked :
        (session : ContextId) (request : ℕ) (operation : ContextId) (answer : AvailabilityResult)
        → IsLinked (taking system session request operation answer r)
    unfolding protocol_event_input
    take_result-IsLinked session request operation answer =
        elim (result-Ends session request operation answer r.adapter) [
          | inl (e, refused) ↦ ground (arith, l.has_session, l.served)
          | inr (x, value, active, taken) ↦ taken_lem x value active taken
        ]
      where
        taken_lem :
            (x : ActiveRead) (value : AvailabilityValue)
            → r.adapter.active ≡ some x
            → Client.result session request operation answer r.adapter ≡ (
              ok (availability_completed x.effect_id value),
              record r.adapter { active = none; backoff_index = 0 },
            )
            → IsLinked (taking system session request operation answer r)
        taken_lem x value active done =
            let (at_read, named) = answered_lem x active in
            let (e, moves) =
              read_completed_lem disconnected_read (ended r) l.has_session.runs x.effect_id
                (protocol_value value) at_read (omega (arith, room.effects)) in
            let shown =
              (core_transition disconnected_read
                (availability_effect (at x.effect_id)
                  (Availability.read_completed x.effect_id (protocol_value value)))
                (ended r)).1 in
            let last =
              dispatch_timer-IsLinked system works 1 shown (r.core.availability.next_effect_id + 1)
                (ground (arith, l.has_session, moves.rest, moves.runs)) moves.moved
                (ground (arith, moves.rest)) in
            ground (arith)

    pub read_completed-IsLinked :
        (session : ContextId) (generation request : ℕ) (operation : ContextId)
        (result : Result SessionError AvailabilityResult)
        → IsLinked (handle_read_result system session generation request operation result r)
    unfolding handle_read_result
    read_completed-IsLinked session generation request operation (err e) =
        disconnected-IsLinked system works 1 r l (omega (arith, room.effects))
    read_completed-IsLinked session generation request operation (ok answer) =
        let lost = disconnected-IsLinked system works 1 r l (omega (arith, room.effects)) in
        let kept = take_result-IsLinked session request operation answer in
        ground (arith, lost, kept, l)

-- what has to hold when an event arrives: a revocation has not stopped the adapter under a refresh or
-- a connection that was being made, and a pairing ends without a connection
abbrev pub IsTimely : Event → ProtocolRuntime → Type 0
IsTimely refresh_due r = r.connected ≡ false → IsFree r.adapter
IsTimely (network (connected _ (ok _))) r = is_stopped r.adapter.state ≡ false
IsTimely (network (paired true _)) r = r.connected ≡ false
IsTimely _ r = Unit {0}

-- Every event that arrives in time keeps the runtime linked, while random contexts and timers are to be
-- had and the counters have room: a read that the application waits for is in flight on an
-- authenticated connection, a timer that it waits for runs, no other read is in flight, and the
-- application never waits for a timer that was not started.
pub handle-IsLinked :
    (system : System) (event : Event) (r : ProtocolRuntime)
    → Works system
    → IsLinked r
    → HasRoom r
    → IsTimely event r
    → IsLinked (handle system event r)
unfolding handle handle_network_event
handle-IsLinked system identity_revoked r works l room timely =
    identity_revoked-IsLinked system works r l (omega (arith, room.effects))
handle-IsLinked system refresh_due r works l room timely =
    refresh_due-IsLinked system works r l room timely
handle-IsLinked system reconnect_due r works l room timely = reconnect_due-IsLinked system works r l
handle-IsLinked system (network closed) r works l room timely = l
handle-IsLinked system (network worker_stopped) r works l room timely = l
handle-IsLinked system (network (read_completed session generation request operation result)) r
      works l room timely =
    read_completed-IsLinked system works r l room session generation request operation result
handle-IsLinked system (network (connected session (ok u))) r works l room timely =
    connected-IsLinked system works r l session (ok u) (λ e. timely)
handle-IsLinked system (network (connected session (err x))) r works l room timely =
    connected-IsLinked system works r l session (err x) (λ e. cc)
handle-IsLinked system (network (paired true result)) r works l room timely =
    paired-IsLinked system works r l true result (λ e. timely)
handle-IsLinked system (network (paired false result)) r works l room timely =
    paired-IsLinked system works r l false result (λ e. cc)
