-- ===== src/HostCapabilities/Laws.antt =====
-- The whole path of a request through its owner, and completions that come too late.
use deskkin.Prelude.{refl}
use deskkin.Prelude.{ℕ, ◌+◌, ◌<◌, ◌≤◌, ◌^◌, ◌≡◌, true, false, List, [], ◌∷◌, arith}
use deskkin.Prelude.Results.{Result, ok, err, is_ok}
use deskkin.Prelude.{ap}
use deskkin.HostCapabilities.{DeterministicAvailability}
use deskkin.HostCapabilities as Host
use deskkin.HostCapabilities.{
  HostCapabilities, RuntimeState, stopped, ready, waiting, CapabilityEffectId, CapabilityRequest,
  ConnectorCompletion, ConnectorRequest, ConnectorResult, CapabilityResult, Invocation,
  RoutedRequest, HostCapabilityError, not_started, busy, effect_identity_exhausted, Lifecycle,
  connector_answer, new,
}

-- why a request is refused in a state whose last identity is `last`
abbrev pub Refuses : RuntimeState → ℕ → HostCapabilityError → Type 0
Refuses stopped last e = e ≡ not_started
Refuses (waiting _) last e = e ≡ busy
Refuses ready last e = (e ≡ effect_identity_exhausted) × (2 ^ 64 ≤ last + 1)

abbrev pub Invokes :
    HostCapabilities → Result HostCapabilityError Invocation × HostCapabilities → Type 0
Invokes before (ok invocation, after) =
    (before.state ≡ ready)
    × (invocation.result
        ≡ CapabilityResult.availability
            (connector_answer ConnectorRequest.read_availability before.availability))
    × (invocation.routed.id.local ≡ before.next_effect_id + 1)
    × (after ≡ record before { next_effect_id = before.next_effect_id + 1 })
Invokes before (err e, after) = (after ≡ before) × Refuses before.state before.next_effect_id e

-- Invoking a ready owner answers with the configured outcome of its connector, uses up one identity
-- and leaves it ready; it is refused exactly when the owner is stopped, busy or out of identities,
-- and then nothing changes.
pub invoke-Invokes :
    (host : HostCapabilities) (request : CapabilityRequest)
    → Invokes host (Host.invoke request host)
unfolding Host.invoke
invoke-Invokes host request = ground arith

pub data Call : Type 0 where
  lifecycle : Lifecycle → Call
  route : CapabilityRequest → Call
  complete : ConnectorCompletion → Call
  invoke : CapabilityRequest → Call

unfoldable pub call : Call → HostCapabilities → HostCapabilities
call (lifecycle event) host = (Host.lifecycle event host).1
call (route request) host = (Host.route request host).1
call (complete completion) host = (Host.complete completion host).1
call (invoke request) host = (Host.invoke request host).1

unfoldable pub run : List Call → HostCapabilities → HostCapabilities
run [] host = host
run (c ∷ calls) host = run calls (call c host)

-- The identities up to n have been given out, and none of them is waited for.
abbrev After : ℕ → RuntimeState → Type 0
After n (waiting id) = n < id.local
After n _ = Unit {0}

record IsPast (n : ℕ) (host : HostCapabilities) : Type 0 where
  given : n ≤ host.next_effect_id
  later : After n host.state

call-IsPast : (n : ℕ) (c : Call) (host : HostCapabilities) → IsPast n host → IsPast n (call c host)
unfolding call Host.lifecycle Host.route Host.complete Host.invoke
call-IsPast n (lifecycle event) host h = ground arith
call-IsPast n (route request) host h = ground arith
call-IsPast n (complete completion) host h = ground arith
call-IsPast n (invoke request) host h = ground arith

run-IsPast :
    (n : ℕ) (calls : List Call) (host : HostCapabilities)
    → IsPast n host
    → IsPast n (run calls host)
unfolding run
run-IsPast n [] host h = h
run-IsPast n (c ∷ calls) host h = run-IsPast n calls (call c host) (call-IsPast n c host h)

IsPast-refuses :
    (n : ℕ) (host : HostCapabilities) (completion : ConnectorCompletion)
    → IsPast n host
    → completion.id.local ≡ n
    → is_ok (Host.complete completion host).0 ≡ false
unfolding Host.complete
IsPast-refuses n host completion h e = ground arith

stop-IsPast :
    (host : HostCapabilities) (request : CapabilityRequest) (routed : RoutedRequest)
    → (Host.route request host).0 ≡ ok routed
    → IsPast routed.id.local (call (lifecycle Lifecycle.stop) (call (route request) host))
unfolding call Host.lifecycle Host.route
stop-IsPast host request routed h = ground arith

-- When an owner is stopped while it waits for a request, no completion with the identity of that
-- request is accepted ever after, whatever is called.
pub stopped_request_is_lost :
    (host : HostCapabilities) (request : CapabilityRequest) (routed : RoutedRequest)
    (calls : List Call) (result : ConnectorResult)
    → (Host.route request host).0 ≡ ok routed
    → let later = run (route request ∷ lifecycle Lifecycle.stop ∷ calls) host in
      is_ok (Host.complete (record { id = routed.id; result = result }) later).0 ≡ false
unfolding run
stopped_request_is_lost host request routed calls result h =
    let later = run calls (call (lifecycle Lifecycle.stop) (call (route request) host)) in
    IsPast-refuses routed.id.local later (record { id = routed.id; result = result })
      (run-IsPast routed.id.local calls _ (stop-IsPast host request routed h)) refl

-- What an owner waits for has the last identity that it gave out.
abbrev LastGiven : ℕ → RuntimeState → Type 0
LastGiven last (waiting id) = id.local ≡ last
LastGiven last _ = Unit {0}

call-LastGiven :
    (c : Call) (host : HostCapabilities)
    → LastGiven host.next_effect_id host.state
    → LastGiven (call c host).next_effect_id (call c host).state
unfolding call Host.lifecycle Host.route Host.complete Host.invoke
call-LastGiven (lifecycle event) host h = ground arith
call-LastGiven (route request) host h = ground arith
call-LastGiven (complete completion) host h = ground arith
call-LastGiven (invoke request) host h = ground arith

run-LastGiven :
    (calls : List Call) (host : HostCapabilities)
    → LastGiven host.next_effect_id host.state
    → LastGiven (run calls host).next_effect_id (run calls host).state
unfolding run
run-LastGiven [] host h = h
run-LastGiven (c ∷ calls) host h = run-LastGiven calls (call c host) (call-LastGiven c host h)

complete-IsPast :
    (host : HostCapabilities) (completion : ConnectorCompletion)
    → LastGiven host.next_effect_id host.state
    → is_ok (Host.complete completion host).0 ≡ true
    → IsPast completion.id.local (call (complete completion) host)
unfolding call Host.complete
complete-IsPast host completion v h = ground arith

-- Whatever was called on a new owner: when it accepts a completion, no completion with the same
-- identity is accepted ever after, whatever is called.
pub completion_accepted_once :
    (configured : DeterministicAvailability) (before after : List Call)
    (completion again : ConnectorCompletion)
    → is_ok (Host.complete completion (run before (new configured))).0 ≡ true
    → again.id ≡ completion.id
    → is_ok
        (Host.complete again (run (complete completion ∷ after) (run before (new configured)))).0
      ≡ false
unfolding run new
completion_accepted_once configured before after completion again h same =
    let host = run before (new configured) in
    let done = complete-IsPast host completion (run-LastGiven before (new configured) tt) h in
    IsPast-refuses completion.id.local (run after (call (complete completion) host)) again
      (run-IsPast completion.id.local after _ done)
      (ap (λ (id : CapabilityEffectId). id.local) same)
