-- ===== src/ProtocolClient.antt =====
-- crates/deskkin-protocol-client/src/lib.rs: the connection states of a companion, its one read in
-- flight, and the reconnect delays. Proofs are in the modules below.
pub mod Calls
pub mod Reads
pub mod Reconnect
use deskkin.Prelude.{
  ℕ, ◌+◌, ◌-◌, Bool, true, false, not, ◌&&◌, ◌||◌, Option, none, some, List, [], ◌∷◌, length,
  get_or, min, ◌==◌, if◌then◌else◌,
}
use deskkin.Prelude.Results.{
  Result, ok, err, Method, pure, fail, lift, view, modify, ◌>>=◌, ◌>>◌, ok_or, checked_add,
}
use deskkin.Prelude.Bytes.{same_bytes}
use deskkin.Protocol.{
  ContextId, AvailabilityResult, HelloRejectReason, session_busy, no_common_version,
  required_feature_unsupported, permission_denied,
}

abbrev pub reconnect_delays_ms : List ℕ
reconnect_delays_ms = 250 ∷ 500 ∷ 1_000 ∷ 2_000 ∷ 5_000 ∷ []

pub data ConnectionState : Type 0 where
  disconnected backoff connecting authenticated stopped : ConnectionState

pub data ProtocolAdapterError : Type 0 where
  not_authenticated no_active_read session_mismatch request_mismatch : ProtocolAdapterError
  active_read stopped : ProtocolAdapterError

pub data TerminalReason : Type 0 where
  incompatible authorization_denied : TerminalReason

pub data AvailabilityValue : Type 0 where
  available unavailable read_failed : AvailabilityValue

pub data ProtocolEvent : Type 0 where
  availability_completed : ℕ → AvailabilityValue → ProtocolEvent
  session_invalidated : ProtocolEvent

-- `(ContextId, u32, u64)`: operation, request id, effect id
pub record ActiveRead : Type 0 where
  pub operation : ContextId
  pub request_id : ℕ
  pub effect_id : ℕ

pub record ProtocolAdapter : Type 0 where
  pub state : ConnectionState
  pub session : Option ContextId
  pub request_id : ℕ
  pub active : Option ActiveRead
  pub backoff_index : ℕ
  pub terminal_reason : Option TerminalReason

-- methods of the adapter that may fail
abbrev pub Adapter : Type 0 → Type 0
Adapter A = Method ProtocolAdapterError ProtocolAdapter A

unfoldable pub new : ProtocolAdapter
new = record {
  state = disconnected;
  session = none;
  request_id = 0;
  active = none;
  backoff_index = 0;
  terminal_reason = none;
}

abbrev pub is_stopped : ConnectionState → Bool
is_stopped stopped = true
is_stopped _ = false

abbrev pub is_authenticated : ConnectionState → Bool
is_authenticated authenticated = true
is_authenticated _ = false

abbrev is_backoff : ConnectionState → Bool
is_backoff backoff = true
is_backoff _ = false

abbrev pub is_some {ℓ} : {A : Type ℓ} → Option A → Bool
is_some none = false
is_some (some _) = true

-- the method `connecting`
unfoldable pub connect : ProtocolAdapter → ProtocolAdapter
connect a = if is_stopped a.state then a else record a { state = connecting }

-- the method `authenticated`
unfoldable pub authenticate : ContextId → ProtocolAdapter → ProtocolAdapter
authenticate session a =
    if is_stopped a.state then a else record a { session = some session; state = authenticated }

unfoldable pub valid_availability_result : ProtocolAdapter → ProtocolAdapter
valid_availability_result a = if is_authenticated a.state then record a { backoff_index = 0 } else a

unfoldable pub restart_after_pairing : ProtocolAdapter → ProtocolAdapter
restart_after_pairing a = record a {
  state = disconnected;
  session = none;
  active = none;
  backoff_index = 0;
  terminal_reason = none;
}

-- `RECONNECT_DELAYS_MS[i.min(len - 1)]`, never out of bounds
abbrev pub delay_at : ℕ → ℕ
delay_at i = get_or reconnect_delays_ms (min i (length reconnect_delays_ms - 1)) 0

unfoldable pub reconnect_delay_ms : ProtocolAdapter → Option ℕ
reconnect_delay_ms a = if is_backoff a.state then some (delay_at a.backoff_index) else none

unfoldable pub connection_failed : Adapter ℕ
connection_failed a = if is_stopped a.state then (err ProtocolAdapterError.stopped, a) else (
  ok (delay_at a.backoff_index),
  record a {
    state = backoff;
    backoff_index = min (a.backoff_index + 1) (length reconnect_delays_ms - 1);
  },
)

unfoldable pub hello_rejected : HelloRejectReason → ProtocolAdapter → ProtocolAdapter
unfolding connection_failed
hello_rejected session_busy a = (connection_failed a).1
hello_rejected no_common_version a = record a {
  state = stopped;
  terminal_reason = some incompatible;
}
hello_rejected required_feature_unsupported a = record a {
  state = stopped;
  terminal_reason = some incompatible;
}
hello_rejected permission_denied a = record a {
  state = stopped;
  terminal_reason = some authorization_denied;
}

unfoldable pub begin_read : ℕ → ContextId → Adapter ℕ
begin_read effect_id operation a =
    if not (is_authenticated a.state)
    then (err not_authenticated, a)
    else if is_some a.active
    then (err active_read, a)
    else if effect_id == 0
    then (err no_active_read, a)
    else (do
      next ← lift (ok_or (checked_add 32 a.request_id 1) request_mismatch)
      modify (λ now. record now { request_id = next })
      modify (λ now. record now {
        active = some (record { operation = operation; request_id = next; effect_id = effect_id });
      })
      pure next)
        a

abbrev pub value_of : AvailabilityResult → AvailabilityValue
value_of AvailabilityResult.available = available
value_of AvailabilityResult.unavailable = unavailable
value_of AvailabilityResult.read_failed = read_failed

-- `self.session != Some(session)` is false
abbrev pub in_session : Option ContextId → ContextId → Bool
in_session none session = false
in_session (some current) session = same_bytes current session

-- what `result` does with the read in flight
unfoldable pub finish_read :
    Option ActiveRead → ℕ → ContextId → AvailabilityResult → Adapter ProtocolEvent
finish_read none request operation answer a = (err no_active_read, a)
finish_read (some expected) request operation answer a =
    if not (expected.request_id == request) || not (same_bytes expected.operation operation)
    then (err request_mismatch, a)
    else (
      ok (availability_completed expected.effect_id (value_of answer)),
      record a { active = none; backoff_index = 0 },
    )

unfoldable pub result : ContextId → ℕ → ContextId → AvailabilityResult → Adapter ProtocolEvent
unfolding finish_read
result session request operation answer a =
    if not (is_authenticated a.state) || not (in_session a.session session)
    then (err session_mismatch, a)
    else finish_read a.active request operation answer a

-- the method `disconnected`
unfoldable pub disconnect : ProtocolAdapter → Option ProtocolEvent × ProtocolAdapter
disconnect a = if is_stopped a.state then (none, a) else (
  some session_invalidated,
  record a { state = backoff; session = none; active = none; terminal_reason = none },
)

unfoldable pub stop : ProtocolAdapter → ProtocolAdapter
stop a = record a { state = stopped; session = none; active = none }
