-- ===== src/HostCapabilities.antt =====
-- crates/deskkin-host-capabilities/src/lib.rs: the owner of the connector's lifecycle and of the one
-- request that is in flight.
pub mod Laws
use deskkin.Prelude.{ℕ, Bool, true, false, not, ◌&&◌, Option, none, some, ◌==◌, if◌then◌else◌}
use deskkin.Prelude.Results.{
  Result, ok, err, Method, pure, fail, lift, view, modify, ◌>>=◌, ◌>>◌, ok_or, checked_add,
}

pub data CapabilityId : Type 0 where
  availability_read : CapabilityId

pub data ConnectorId : Type 0 where
  deterministic_availability : ConnectorId

pub data Lifecycle : Type 0 where
  start stop : Lifecycle

pub data AvailabilityValue : Type 0 where
  available unavailable : AvailabilityValue

pub data CapabilityFailure : Type 0 where
  read_failed connector_unavailable timeout cancelled : CapabilityFailure

pub data CapabilityRequest : Type 0 where
  read_availability : CapabilityRequest

pub data CapabilityResult : Type 0 where
  availability : Result CapabilityFailure AvailabilityValue → CapabilityResult

pub data DeterministicAvailability : Type 0 where
  available unavailable read_failed connector_unavailable timeout cancelled :
      DeterministicAvailability

-- `local` is a `NonZeroU64`
pub record CapabilityEffectId : Type 0 where
  pub capability : CapabilityId
  pub connector : ConnectorId
  pub local : ℕ

pub data ConnectorRequest : Type 0 where
  read_availability : ConnectorRequest

pub record RoutedRequest : Type 0 where
  pub id : CapabilityEffectId
  pub request : ConnectorRequest

pub data ConnectorResult : Type 0 where
  availability : Result CapabilityFailure AvailabilityValue → ConnectorResult

pub record ConnectorCompletion : Type 0 where
  pub id : CapabilityEffectId
  pub result : ConnectorResult

pub record Invocation : Type 0 where
  pub routed : RoutedRequest
  pub result : CapabilityResult

pub data HostCapabilityError : Type 0 where
  already_started not_started busy unexpected_completion : HostCapabilityError
  effect_identity_mismatch effect_identity_exhausted : HostCapabilityError

pub data RuntimeState : Type 0 where
  stopped ready : RuntimeState
  waiting : CapabilityEffectId → RuntimeState

pub record HostCapabilities : Type 0 where
  pub state : RuntimeState
  pub availability : DeterministicAvailability
  pub next_effect_id : ℕ

-- methods of the owner
abbrev pub Host : Type 0 → Type 0
Host A = Method HostCapabilityError HostCapabilities A

unfoldable pub new : DeterministicAvailability → HostCapabilities
new configured = record { state = stopped; availability = configured; next_effect_id = 0 }

abbrev set_state : RuntimeState → Host (Unit {0})
set_state next = modify (λ host. record host { state = next })

lifecycle_at : RuntimeState → Lifecycle → Host (Unit {0})
lifecycle_at stopped start = set_state ready
lifecycle_at stopped stop = fail not_started
lifecycle_at _ start = fail already_started
lifecycle_at _ stop = set_state stopped

unfoldable pub lifecycle : Lifecycle → Host (Unit {0})
unfolding lifecycle_at
lifecycle event host = lifecycle_at host.state event host

-- `NonZeroU64::new`
abbrev non_zero : ℕ → Option ℕ
non_zero n = if n == 0 then none else some n

abbrev and_then : Option ℕ → Option ℕ
and_then none = none
and_then (some n) = non_zero n

-- the capability, the connector and the connector's request that a request stands for
abbrev resolve : CapabilityRequest → CapabilityId × ConnectorId × ConnectorRequest
resolve CapabilityRequest.read_availability =
    (availability_read, deterministic_availability, ConnectorRequest.read_availability)

route_at : RuntimeState → CapabilityRequest → Host RoutedRequest
route_at stopped request = fail not_started
route_at (waiting _) request = fail busy
route_at ready request = do
  current ← view (λ host. host.next_effect_id)
  next ← lift (ok_or (and_then (checked_add 64 current 1)) effect_identity_exhausted)
  let id : CapabilityEffectId = record {
    capability = (resolve request).0;
    connector = (resolve request).1;
    local = next;
  }
  modify (λ host. record host { next_effect_id = next })
  set_state (waiting id)
  pure (record { id = id; request = (resolve request).2 })

unfoldable pub route : CapabilityRequest → Host RoutedRequest
unfolding route_at
route request host = route_at host.state request host

abbrev pub connector_answer :
    ConnectorRequest → DeterministicAvailability → Result CapabilityFailure AvailabilityValue
connector_answer ConnectorRequest.read_availability DeterministicAvailability.available =
    ok AvailabilityValue.available
connector_answer ConnectorRequest.read_availability DeterministicAvailability.unavailable =
    ok AvailabilityValue.unavailable
connector_answer ConnectorRequest.read_availability DeterministicAvailability.read_failed =
    err CapabilityFailure.read_failed
connector_answer ConnectorRequest.read_availability
      DeterministicAvailability.connector_unavailable =
    err CapabilityFailure.connector_unavailable
connector_answer ConnectorRequest.read_availability DeterministicAvailability.timeout =
    err CapabilityFailure.timeout
connector_answer ConnectorRequest.read_availability DeterministicAvailability.cancelled =
    err CapabilityFailure.cancelled

unfoldable pub execute : RoutedRequest → HostCapabilities → ConnectorCompletion
execute routed host = record {
  id = routed.id;
  result = ConnectorResult.availability (connector_answer routed.request host.availability);
}

abbrev same_capability : CapabilityId → CapabilityId → Bool
same_capability availability_read availability_read = true

abbrev same_connector : ConnectorId → ConnectorId → Bool
same_connector deterministic_availability deterministic_availability = true

-- `==` of the derived `PartialEq`
abbrev pub same_id : CapabilityEffectId → CapabilityEffectId → Bool
same_id a b =
    same_capability a.capability b.capability
    && same_connector a.connector b.connector
    && a.local == b.local

abbrev accepted : ConnectorResult → CapabilityResult
accepted (ConnectorResult.availability result) = CapabilityResult.availability result

complete_at : RuntimeState → ConnectorCompletion → Host CapabilityResult
complete_at (waiting id) completion host =
    if not (same_id completion.id id)
    then (err effect_identity_mismatch, host)
    else (ok (accepted completion.result), record host { state = ready })
complete_at _ completion host = (err unexpected_completion, host)

unfoldable pub complete : ConnectorCompletion → Host CapabilityResult
unfolding complete_at
complete completion host = complete_at host.state completion host

unfoldable pub invoke : CapabilityRequest → Host Invocation
unfolding route execute complete
invoke request = do
  routed ← route request
  completion ← view (execute routed)
  result ← complete completion
  pure (record { routed = routed; result = result })
