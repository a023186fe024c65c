-- ===== src/Simulator/Runtime/Keeps.antt =====
-- The handlers of the runtime keep its invariant.
use deskkin.Prelude.{
  ℕ, suc, ◌+◌, ◌<◌, ◌^◌, ◌≡◌, ◌≢◌, refl, true, Option, none, some, [], ◌∷◌, ◌++◌, arith,
}
use deskkin.Prelude.Results.{ok}
use deskkin.ApplicationCore.{LocalEffectId}
use deskkin.Features.Availability.{reading}
use deskkin.Application.Batch.{Effect}
use deskkin.ProtocolClient as Client
use deskkin.ProtocolClient.{ActiveRead, is_some, is_authenticated, is_stopped}
use deskkin.Protocol.{ContextId}
use deskkin.Simulator.{close}
use deskkin.Simulator.Runtime.{
  ProtocolRuntime, Run, System, Sending, sent, full, disconnected, dispatch_protocol_effect,
  perform_protocol_read, send_read,
}
use deskkin.Simulator.Runtime.Core.{read_effect}
use deskkin.Simulator.Runtime.Served.{HasSession, IsLinked, Works, disconnected-IsLinked}

-- what the counters leave room for
pub record HasRoom (r : ProtocolRuntime) : Type 0 where
  pub effects : r.core.availability.next_effect_id + 3 < 2 ^ 64
  pub requests : r.adapter.request_id + 1 < 2 ^ 32

begin_read_lem :
    (a : Client.ProtocolAdapter) (id : LocalEffectId) (operation : ContextId)
    → is_authenticated a.state ≡ true
    → a.active ≡ none
    → id ≢ 0
    → a.request_id + 1 < 2 ^ 32
    → Client.begin_read id operation a ≡ (
      ok (a.request_id + 1),
      record a {
        request_id = a.request_id + 1;
        active =
            some (record { operation = operation; request_id = a.request_id + 1; effect_id = id });
      },
    )
unfolding Client.begin_read
begin_read_lem a id operation authenticated idle named numbers = ground arith

module _ (system : System) (works : Works system) (depth : ℕ) where
  abbrev again : Effect → Run (Unit {0})
  again = dispatch_protocol_effect system (suc depth)

  send-IsLinked :
      (sending : Sending) (r : ProtocolRuntime) (session : ContextId) (request : ℕ)
      (operation : ContextId)
      → IsLinked r
      → r.core.availability.next_effect_id + 1 < 2 ^ 64
      → IsLinked (send_read system again sending session request operation r).1
  send-IsLinked sent r session request operation l room = ground (arith, l.has_session, l.served)
  send-IsLinked full r session request operation l room =
      let told : ProtocolRuntime = record r { controls = r.controls ++ close ∷ [] } in
      disconnected-IsLinked system works depth told
        (record { has_session = ground (arith, l.has_session); served = l.served }) room
  send-IsLinked disconnected r session request operation l room =
      disconnected-IsLinked system works depth r l room

  -- a read that is not in flight yet, over a connection
  pub begin-IsLinked :
      (r : ProtocolRuntime) (id : LocalEffectId)
      → HasSession r
      → r.core.availability.state ≡ reading id
      → id ≢ 0
      → r.adapter.active ≡ none
      → r.connected ≡ true
      → r.core.availability.next_effect_id + 1 < 2 ^ 64
      → r.adapter.request_id + 1 < 2 ^ 32
      → IsLinked (perform_protocol_read system again (read_effect id) r).1
  unfolding perform_protocol_read
  begin-IsLinked r id h at_read named idle linked room numbers =
      by_context system.context r.adapter.session refl refl
    where
      by_context :
          (context : Option ContextId) (session : Option ContextId)
          → system.context ≡ context
          → r.adapter.session ≡ session
          → IsLinked (perform_protocol_read system again (read_effect id) r).1
      by_context none session e k = absurd (ground (arith, works.context))
      by_context (some operation) none e k = absurd (ground (arith, h.session))
      by_context (some operation) (some session) e k =
          let request = r.adapter.request_id + 1 in
          let begun : ProtocolRuntime = record r {
            adapter = record r.adapter {
              request_id = request;
              active =
                  some (record { operation = operation; request_id = request; effect_id = id });
            };
          } in
          let l : IsLinked begun = record {
            has_session = ground (arith, h);
            served = ground arith;
          } in
          let last = send-IsLinked system.sending begun session request operation l room in
          let started =
            begin_read_lem r.adapter id operation (h.authenticated linked) idle named numbers in
          ground (arith)
