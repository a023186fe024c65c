-- ===== src/Simulator/Runtime/Served.antt =====
-- The runtime's invariant: what the application waits for is on its way.
use deskkin.Prelude.{
  ℕ, suc, ◌+◌, ◌<◌, ◌^◌, ◌≡◌, ◌≢◌, refl, ap, ◌∙◌, Bool, true, false, Bool-cases, inl, inr, Option,
  none, some, arith,
}
use deskkin.Prelude.Results.{ok, err}
use deskkin.ApplicationCore.{LocalEffectId, session_invalidated}
use deskkin.Features.Availability as Availability
use deskkin.Features.Availability.{reading, arming_refresh, waiting, stopped}
use deskkin.Application.{running, availability_effect, lifecycle}
use deskkin.Application.Batch.{Effect}
use deskkin.ProtocolClient as Client
use deskkin.ProtocolClient.{ActiveRead, is_some, is_authenticated, is_stopped}
use deskkin.Simulator.Runtime.{
  ProtocolRuntime, System, core_transition, arm_protocol_refresh, schedule_protocol_reconnect,
  dispatch_protocol_effect, complete_read_while_disconnected, protocol_disconnected, arm_completion,
  disconnected_read, invalidation,
}
use deskkin.Simulator.Runtime.Core.{
  at, timer_effect, read_effect, timer_armed_lem, read_completed_lem, invalidated_read_lem,
  invalidated_idle_lem,
}

abbrev Reads : LocalEffectId → Option ActiveRead → Type 0
Reads id none = ⊥
Reads id (some read) = read.effect_id ≡ id

abbrev Arms : LocalEffectId → Option Effect → Type 0
Arms id none = ⊥
Arms id (some effect) = effect ≡ timer_effect id

-- a read that the application waits for is in flight on a connection, a timer that it waits for runs,
-- and no other read is in flight
abbrev pub Served : Availability.State → Bool → Option ActiveRead → Option Effect → Type 0
Served stopped connected active timer = active ≡ none
Served (reading id) connected active timer = (connected ≡ true) × Reads id active × (id ≢ 0)
Served (arming_refresh _) connected active timer = ⊥
Served (waiting id) connected active timer = (active ≡ none) × Arms id timer

-- what is waited for without a read does not depend on the connection
pub idle-Served :
    (state : Availability.State) (connected : Bool) (active : Option ActiveRead)
    (timer : Option Effect)
    → ((id : LocalEffectId) → state ≢ reading id)
    → Served state connected active timer
    → Served state false none timer
idle-Served stopped connected active timer other h = refl
idle-Served (waiting id) connected active timer other h = (refl, h.1)
idle-Served (arming_refresh id) connected active timer other h = h
idle-Served (reading id) connected active timer other h = absurd (other id refl)

pub record HasSession (r : ProtocolRuntime) : Type 0 where
  pub runs : r.core.state ≡ running
  pub authenticated : r.connected ≡ true → is_authenticated r.adapter.state ≡ true
  pub session : r.connected ≡ true → is_some r.adapter.session ≡ true
  pub pending : is_some r.pending_session ≡ true → r.connected ≡ false

pub record IsLinked (r : ProtocolRuntime) : Type 0 where
  pub has_session : HasSession r
  pub served : Served r.core.availability.state r.connected r.adapter.active r.refresh_timer

-- an adapter that can be connected again, or says why not
abbrev pub IsFree : Client.ProtocolAdapter → Type 0
IsFree a = is_some a.terminal_reason ≡ false → is_stopped a.state ≡ false

-- random contexts and timers are to be had
pub record Works (system : System) : Type 0 where
  pub context : is_some system.context ≡ true
  pub timers : system.timer_runs ≡ true

-- the runtime of `protocol_disconnected` before anything is invalidated
abbrev pub dropped : ProtocolRuntime → ProtocolRuntime
dropped r = record r {
  adapter = (Client.disconnect r.adapter).1;
  connected = false;
  connecting = false;
  pending_session = none;
}

module _ (system : System) (works : Works system) where
  pub arm-IsLinked :
      (r : ProtocolRuntime) (id : LocalEffectId)
      → HasSession r
      → r.core.availability.state ≡ arming_refresh id
      → r.adapter.active ≡ none
      → IsLinked (arm_protocol_refresh system (timer_effect id) r).1
  unfolding arm_protocol_refresh
  arm-IsLinked r id h arming idle =
      let started : ProtocolRuntime = record r { refresh_timer = some (timer_effect id) } in
      let (e, moves) = timer_armed_lem arm_completion started h.runs id arming in
      ground (arith, works.timers)

  -- a dispatched timer
  pub dispatch_timer-IsLinked :
      (depth : ℕ) (r : ProtocolRuntime) (id : LocalEffectId)
      → HasSession r
      → r.core.availability.state ≡ arming_refresh id
      → r.adapter.active ≡ none
      → IsLinked (dispatch_protocol_effect system (suc depth) (timer_effect id) r).1
  unfolding dispatch_protocol_effect
  dispatch_timer-IsLinked depth r id h arming idle = arm-IsLinked r id h arming idle

  -- scheduling succeeds unless the adapter was stopped
  schedule_lem :
      (r : ProtocolRuntime)
      → is_stopped r.adapter.state ≡ false
      → HasSession r
      → r.connected ≡ false
      → let done = schedule_protocol_reconnect system r in
        (done.0 ≡ ok tt)
        × HasSession done.1
        × (done.1.core ≡ r.core)
        × (done.1.adapter.active ≡ r.adapter.active)
        × (done.1.refresh_timer ≡ r.refresh_timer)
        × (done.1.connected ≡ false)
  unfolding schedule_protocol_reconnect Client.connection_failed
  schedule_lem r free h apart = ground (arith, works.timers)

  -- the state before a timer is dispatched
  pub record IsArming (id : LocalEffectId) (r : ProtocolRuntime) : Type 0 where
    pub has_session : HasSession r
    pub arming : r.core.availability.state ≡ arming_refresh id
    pub idle : r.adapter.active ≡ none

  schedule-IsArming :
      (r : ProtocolRuntime) (id : LocalEffectId)
      → is_stopped r.adapter.state ≡ false
      → r.connected ≡ false
      → IsArming id r
      → ((schedule_protocol_reconnect system r).0 ≡ ok tt)
        × IsArming id (schedule_protocol_reconnect system r).1
  schedule-IsArming r id free apart a =
      let (done, h, core, active, _, _) = schedule_lem r free a.has_session apart in
      (
        done,
        record {
          has_session = h;
          arming = ap (λ c. c.availability.state) core ∙ a.arming;
          idle = active ∙ a.idle;
        },
      )

  pub complete-IsLinked :
      (depth : ℕ) (r : ProtocolRuntime) (id : LocalEffectId)
      → HasSession r
      → r.core.availability.state ≡ reading id
      → r.core.availability.next_effect_id + 1 < 2 ^ 64
      → r.adapter.active ≡ none
      → r.connected ≡ false
      → IsFree r.adapter
      → IsLinked
          (complete_read_while_disconnected system
            (dispatch_protocol_effect system (suc depth))
            (read_effect id)
            r).1
  unfolding complete_read_while_disconnected
  complete-IsLinked depth r id h at_read room idle apart free =
      let timer = r.core.availability.next_effect_id + 1 in
      let (e, moves) =
        read_completed_lem disconnected_read r h.runs id (err Availability.ReadError.unavailable)
          at_read room in
      let shown =
        (core_transition disconnected_read
          (availability_effect (at id)
            (Availability.read_completed id (err Availability.ReadError.unavailable)))
          r).1 in
      let arming : IsArming timer shown = record {
        has_session = ground arith;
        arming = moves.moved;
        idle = ground arith;
      } in
      let last : (r' : ProtocolRuntime)
          → IsArming timer r'
          → IsLinked (dispatch_protocol_effect system (suc depth) (timer_effect timer) r').1 =
        λ r'. λ a. dispatch_timer-IsLinked depth r' timer a.has_session a.arming a.idle in
      let scheduled : is_stopped shown.adapter.state ≡ false
          → ((schedule_protocol_reconnect system shown).0 ≡ ok tt)
            × IsArming timer (schedule_protocol_reconnect system shown).1 =
        λ k. schedule-IsArming shown timer k (ground arith) arming in
      let direct = last shown arming in grind (arith, last)

  -- scheduling, even when it fails, changes neither what is waited for nor what is in flight
  pub schedule-IsLinked :
      (r : ProtocolRuntime)
      → IsLinked r
      → r.connected ≡ false
      → IsLinked (schedule_protocol_reconnect system r).1
  unfolding schedule_protocol_reconnect Client.connection_failed
  schedule-IsLinked r l apart = ground arith

  module _ (depth : ℕ) (r : ProtocolRuntime) (l : IsLinked r) where
    -- a stopped adapter has no read in flight, and nothing is invalidated
    disconnected_stopped :
        is_stopped r.adapter.state ≡ true
        → IsLinked (protocol_disconnected system (dispatch_protocol_effect system (suc depth)) r).1
    unfolding protocol_disconnected Client.disconnect
    disconnected_stopped halted =
        let state = r.core.availability.state in
        let served : (s : Availability.State)
            → state ≡ s
            → Served s r.connected r.adapter.active r.refresh_timer
            → Served s false r.adapter.active r.refresh_timer =
          λ s. λ e. λ k. still s k in
        let apart : IsLinked
            (record r { connected = false; connecting = false; pending_session = none }) =
          record {
            has_session = ground (arith, l.has_session.runs);
            served = served state refl l.served;
          } in
        ground (
          arith,
          schedule-IsLinked
              (record r { connected = false; connecting = false; pending_session = none }) apart
              refl,
        )
      where
        still :
            (s : Availability.State)
            → Served s r.connected r.adapter.active r.refresh_timer
            → Served s false r.adapter.active r.refresh_timer
        still stopped k = k
        still (waiting _) k = k
        still (arming_refresh _) k = k
        still (reading id) k = absurd (ground (arith, l.has_session.authenticated))

    module _ (room : r.core.availability.next_effect_id + 1 < 2 ^ 64)
        (live : is_stopped r.adapter.state ≡ false) where
      -- a read that was in flight is completed by the core, which asks for a timer
      disconnected_reading :
          (id : LocalEffectId)
          → r.core.availability.state ≡ reading id
          → IsLinked
              (protocol_disconnected system (dispatch_protocol_effect system (suc depth)) r).1
      unfolding protocol_disconnected Client.disconnect
      disconnected_reading id at_read =
          let timer = r.core.availability.next_effect_id + 1 in
          let (e, moves) =
            invalidated_read_lem invalidation (dropped r) l.has_session.runs id at_read room in
          let shown =
            (core_transition invalidation (lifecycle session_invalidated) (dropped r)).1 in
          let arming : IsArming timer shown = record {
            has_session = ground arith;
            arming = moves.moved;
            idle = ground arith;
          } in
          let last : (r' : ProtocolRuntime)
              → IsArming timer r'
              → IsLinked (dispatch_protocol_effect system (suc depth) (timer_effect timer) r').1 =
            λ r'. λ a. dispatch_timer-IsLinked depth r' timer a.has_session a.arming a.idle in
          let scheduled = schedule-IsArming shown timer (ground arith) (ground arith) arming in
          let direct = last shown arming in grind (arith, last)

      disconnected_idle :
          ((id : LocalEffectId) → r.core.availability.state ≢ reading id)
          → IsLinked
              (protocol_disconnected system (dispatch_protocol_effect system (suc depth)) r).1
      unfolding protocol_disconnected Client.disconnect
      disconnected_idle other =
          let (e, moves) =
            invalidated_idle_lem invalidation (dropped r) l.has_session.runs
              r.core.availability.state refl other in
          let shown =
            (core_transition invalidation (lifecycle session_invalidated) (dropped r)).1 in
          let linked : IsLinked shown = record {
            has_session = ground arith;
            served = ground (
              arith,
              idle-Served r.core.availability.state r.connected r.adapter.active r.refresh_timer
                  other l.served,
              moves.rest,
              moves.moved,
            );
          } in
          ground (arith, schedule-IsLinked shown linked (ground arith))

  -- losing the connection, whatever the state
  pub disconnected-IsLinked :
      (depth : ℕ) (r : ProtocolRuntime)
      → IsLinked r
      → r.core.availability.next_effect_id + 1 < 2 ^ 64
      → IsLinked (protocol_disconnected system (dispatch_protocol_effect system (suc depth)) r).1
  disconnected-IsLinked depth r l room = elim (Bool-cases (is_stopped r.adapter.state)) [
    | inl halted ↦ disconnected_stopped depth r l halted
    | inr live ↦ by_state r.core.availability.state refl live
  ]
    where
      by_state :
          (s : Availability.State)
          → r.core.availability.state ≡ s
          → is_stopped r.adapter.state ≡ false
          → IsLinked
              (protocol_disconnected system (dispatch_protocol_effect system (suc depth)) r).1
      by_state (reading id) e live = disconnected_reading depth r l room live id e
      by_state stopped e live = disconnected_idle depth r l room live (λ id. λ k. ground arith)
      by_state (waiting _) e live = disconnected_idle depth r l room live (λ id. λ k. ground arith)
      by_state (arming_refresh _) e live =
          disconnected_idle depth r l room live (λ id. λ k. ground arith)
