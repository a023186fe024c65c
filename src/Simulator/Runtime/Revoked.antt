-- ===== src/Simulator/Runtime/Revoked.antt =====
-- What a revocation does to the runtime.
use deskkin.Prelude.{◌+◌, ◌<◌, ◌^◌, ◌≡◌, ◌≢◌, refl, sym, subst, false, none, [], ◌∷◌, ◌++◌, arith}
use deskkin.ApplicationCore.{LocalEffectId, session_invalidated}
use deskkin.Features.Availability as Availability
use deskkin.Features.Availability.{reading, arming_refresh, waiting, stopped}
use deskkin.Application.{lifecycle}
use deskkin.ProtocolClient as Client
use deskkin.ProtocolClient.{is_some, is_authenticated, is_stopped}
use deskkin.Simulator.{revoke}
use deskkin.Simulator.Runtime.{
  ProtocolRuntime, System, core_transition, invalidation, handle_identity_revoked,
}
use deskkin.Simulator.Runtime.Core.{invalidated_read_lem, invalidated_idle_lem}
use deskkin.Simulator.Runtime.Served.{Served, IsLinked, Works, idle-Served, dispatch_timer-IsLinked}

module _ (system : System) (works : Works system) (r : ProtocolRuntime) (l : IsLinked r) where
  abbrev cut : ProtocolRuntime
  cut = record r {
    connected = false;
    connecting = false;
    reconnect_timer = false;
    adapter = Client.stop r.adapter;
  }

  abbrev told : ProtocolRuntime → ProtocolRuntime
  told after = record after { controls = after.controls ++ revoke ∷ [] }

  revoked_reading :
      (id : LocalEffectId)
      → r.core.availability.state ≡ reading id
      → r.core.availability.next_effect_id + 1 < 2 ^ 64
      → IsLinked (handle_identity_revoked system r)
  unfolding handle_identity_revoked Client.stop
  revoked_reading id at_read room =
      let timer = r.core.availability.next_effect_id + 1 in
      let (e, moves) = invalidated_read_lem invalidation cut l.has_session.runs id at_read room in
      let after = (core_transition invalidation (lifecycle session_invalidated) cut).1 in
      let done =
        dispatch_timer-IsLinked system works 1 (told after) timer (ground arith) moves.moved
          (ground arith) in
      ground (arith, done)

  revoked_idle :
      (state : Availability.State)
      → r.core.availability.state ≡ state
      → ((id : LocalEffectId) → state ≢ reading id)
      → IsLinked (handle_identity_revoked system r)
  unfolding handle_identity_revoked Client.stop
  revoked_idle state e other =
      let (k, moves) = invalidated_idle_lem invalidation cut l.has_session.runs state e other in
      let after = (core_transition invalidation (lifecycle session_invalidated) cut).1 in
      let served : Served state false none r.refresh_timer =
        idle-Served state r.connected r.adapter.active r.refresh_timer other
          (subst (λ s. Served s r.connected r.adapter.active r.refresh_timer) e l.served) in
      let same : Served after.core.availability.state false none r.refresh_timer =
        subst (λ s. Served s false none r.refresh_timer) (sym moves.moved) served in
      let linked : IsLinked (told after) = record {
        has_session = ground arith;
        served = ground (arith, moves.rest, same);
      } in
      ground (arith, linked)

  pub identity_revoked-IsLinked :
      r.core.availability.next_effect_id + 1 < 2 ^ 64 → IsLinked (handle_identity_revoked system r)
  identity_revoked-IsLinked room = by_state r.core.availability.state refl
    where
      by_state :
          (s : Availability.State)
          → r.core.availability.state ≡ s
          → IsLinked (handle_identity_revoked system r)
      by_state (reading id) e = revoked_reading id e room
      by_state stopped e = revoked_idle stopped e (λ id. λ k. ground arith)
      by_state (waiting i) e = revoked_idle (waiting i) e (λ id. λ k. ground arith)
      by_state (arming_refresh i) e = revoked_idle (arming_refresh i) e (λ id. λ k. ground arith)
