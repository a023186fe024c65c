-- ===== src/Simulator/Runtime/Linked.antt =====
-- Every event of the runtime keeps its invariant.
use deskkin.Prelude.{
  ◌+◌, ◌<◌, ◌^◌, ◌≡◌, ◌≢◌, refl, sym, subst, Bool, false, not, Bool-cases, inl, inr, Option, none,
  some, arith, if◌then◌else◌,
}
use deskkin.Prelude.Results.{Result}
use deskkin.ApplicationCore.{LocalEffectId}
use deskkin.Features.Availability as Availability
use deskkin.Features.Availability.{reading, arming_refresh, waiting, stopped}
use deskkin.Application.{availability_effect}
use deskkin.Application.Batch.{Effect}
use deskkin.Simulator.Runtime.{
  ProtocolRuntime, RuntimeError, System, core_transition, arm_completion, dispatch,
  dispatch_protocol_effect, perform_protocol_read, protocol_refresh_due,
}
use deskkin.Simulator.Runtime.Core.{at, read_effect, refresh_due_lem, refresh_refused_lem}
use deskkin.Simulator.Runtime.Served.{
  Served, HasSession, IsLinked, Works, IsFree, complete-IsLinked,
}
use deskkin.Simulator.Runtime.Keeps.{HasRoom, begin-IsLinked}

if_apart : {A : Type 0} (b : Bool) (x y : A) → b ≡ false → (if not b then x else y) ≡ x
if_apart b x y e = ground arith

module _ (system : System) (works : Works system) (r : ProtocolRuntime) (l : IsLinked r) where
  perform-IsLinked :
      (now : ProtocolRuntime) (id : LocalEffectId)
      → HasSession now
      → now.core.availability.state ≡ reading id
      → id ≢ 0
      → now.adapter.active ≡ none
      → (now.connected ≡ false → IsFree now.adapter)
      → now.core.availability.next_effect_id + 1 < 2 ^ 64
      → now.adapter.request_id + 1 < 2 ^ 32
      → IsLinked (dispatch system (read_effect id) now).1
  unfolding dispatch_protocol_effect perform_protocol_read
  perform-IsLinked now id h at_read named idle free room numbers = elim (Bool-cases now.connected) [
    | inl linked ↦ begin-IsLinked system works 0 now id h at_read named idle linked room numbers
    | inr apart ↦
        subst {A = Result RuntimeError (Unit {0}) × ProtocolRuntime} (λ x. IsLinked x.1)
          (sym (if_apart now.connected _ _ apart))
          (complete-IsLinked system works 0 now id h at_read room idle apart (free apart))
  ]

  abbrev fired : ProtocolRuntime
  fired = record r { refresh_timer = none }

  -- a timer that nothing waits for
  unasked_due :
      (s : Availability.State) (timer : Option Effect)
      → r.core.availability.state ≡ s
      → r.refresh_timer ≡ timer
      → ((id : LocalEffectId) → s ≢ waiting id)
      → Served s r.connected r.adapter.active none
      → IsLinked (protocol_refresh_due system r)
  unfolding protocol_refresh_due
  unasked_due s none e k other h =
      let same : IsLinked fired = record {
        has_session = ground (arith, l.has_session);
        served = subst (λ x. Served x r.connected r.adapter.active none) (sym e) h;
      } in
      ground (arith, same)
  unasked_due s (some timer) e k other h =
      let same : IsLinked fired = record {
        has_session = ground (arith, l.has_session);
        served = subst (λ x. Served x r.connected r.adapter.active none) (sym e) h;
      } in
      ground (
        arith,
        same,
        refresh_refused_lem arm_completion fired l.has_session.runs timer.id timer.id.local s e
            other,
      )

  module _ (room : HasRoom r) where
    pub refresh_due-IsLinked :
        (r.connected ≡ false → IsFree r.adapter) → IsLinked (protocol_refresh_due system r)
    unfolding protocol_refresh_due
    refresh_due-IsLinked free = by_state r.core.availability.state refl l.served
      where
        by_state :
            (s : Availability.State)
            → r.core.availability.state ≡ s
            → Served s r.connected r.adapter.active r.refresh_timer
            → IsLinked (protocol_refresh_due system r)
        by_state (waiting id) e h =
            let (k, moves) =
              refresh_due_lem arm_completion fired l.has_session.runs id e
                (omega (arith, room.effects)) in
            let now =
              (core_transition arm_completion
                (availability_effect (at id) (Availability.refresh_due id)) fired).1 in
            let done =
              perform-IsLinked now (r.core.availability.next_effect_id + 1)
                (ground (arith, l.has_session, moves.rest, moves.runs)) moves.moved (omega arith)
                (ground (arith, moves.rest)) (ground (arith, moves.rest, free))
                (omega (arith, moves.counted, room.effects))
                (ground (arith, moves.rest, room.requests)) in
            ground (arith)
        by_state stopped e h =
            unasked_due stopped r.refresh_timer e refl (λ id. λ k. ground arith) h
        by_state (reading id) e h =
            unasked_due (reading id) r.refresh_timer e refl (λ x. λ k. ground arith) h
        by_state (arming_refresh id) e h = absurd h
