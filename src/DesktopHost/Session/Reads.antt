-- ===== src/DesktopHost/Session/Reads.antt =====
-- The message loop of `run_availability_session_inner` of apps/desktop-host/src/lib.rs: one call
-- for one message, without the diagnostics. What the loop hands to the writer is the reaction.
pub mod Linked
pub mod Runs
use deskkin.DesktopHost.{SessionError, protocol, identity}
use deskkin.Prelude.{ℕ, ◌+◌, Bool, true, false, not, Option, none, some, ◌==◌, if◌then◌else◌}
use deskkin.Prelude.Results.{
  Result, ok, err, is_ok, Method, lift, view, pure, fail, ◌>>=◌, ◌>>◌, checked_add,
}
use deskkin.Protocol.{
  Message, ContextId, AvailabilityResult, CloseReason, read_availability, availability_result, ping,
  pong, close,
}
use deskkin.HostCapabilities as Host
use deskkin.HostCapabilities.{
  HostCapabilities, DeterministicAvailability, CapabilityFailure, CapabilityRequest,
  CapabilityResult, AvailabilityValue, Invocation, Lifecycle,
}
use deskkin.DesktopHost.Identity.{Identity, paired_generation}

pub data Reaction : Type 0 where
  respond : Message → Reaction
  send_pong : Reaction
  nothing : Reaction
  send_close : CloseReason → Reaction

pub record HostSession : Type 0 where
  pub capabilities : HostCapabilities
  pub last_request_id : ℕ

abbrev pub Session : Type 0 → Type 0
Session A = Method SessionError HostSession A

-- `last.checked_add(1) == Some(request_id)`
abbrev is_next : Option ℕ → ℕ → Bool
is_next none request_id = false
is_next (some next) request_id = next == request_id

unfoldable pub accept_request_id : ℕ → ℕ → Bool × ℕ
accept_request_id last request_id =
    if is_next (checked_add 32 last 1) request_id then (true, request_id) else (false, last)

abbrev pub host_availability : AvailabilityResult → DeterministicAvailability
host_availability AvailabilityResult.available = DeterministicAvailability.available
host_availability AvailabilityResult.unavailable = DeterministicAvailability.unavailable
host_availability AvailabilityResult.read_failed = DeterministicAvailability.read_failed

-- the first component of `protocol_availability`; the second is for the diagnostics
abbrev pub protocol_availability : CapabilityResult → AvailabilityResult
protocol_availability (CapabilityResult.availability (ok AvailabilityValue.available)) =
    AvailabilityResult.available
protocol_availability (CapabilityResult.availability (ok AvailabilityValue.unavailable)) =
    AvailabilityResult.unavailable
protocol_availability (CapabilityResult.availability (err _)) = AvailabilityResult.read_failed

-- the session before its first message
unfoldable pub start : AvailabilityResult → HostSession
start result = record {
  capabilities = (Host.lifecycle Lifecycle.start (Host.new (host_availability result))).1;
  last_request_id = 0;
}

-- `store.paired_generation() == Ok(generation)`
abbrev pub still_paired : Identity → ℕ → Bool
still_paired stored generation = elim (paired_generation stored) [
  | ok current ↦ current == generation
  | err _ ↦ false
]

abbrev invoked :
    ℕ
    → ContextId
    → Result Host.HostCapabilityError Invocation × HostCapabilities
    → ℕ
    → Result SessionError Reaction × HostSession
invoked request_id operation (ok invocation, capabilities) last = (
  ok (respond (availability_result request_id operation (protocol_availability invocation.result))),
  record { capabilities = capabilities; last_request_id = last },
)
invoked request_id operation (err _, capabilities) last =
    (err protocol, record { capabilities = capabilities; last_request_id = last })

answer : Identity → ℕ → ℕ → ContextId → Session Reaction
unfolding accept_request_id
answer stored generation request_id operation session =
    let (accepted, last) = accept_request_id session.last_request_id request_id in
    if not accepted
    then (err protocol, session)
    else if not (still_paired stored generation)
    then (err identity, record session { last_request_id = last })
    else invoked request_id operation
        (Host.invoke CapabilityRequest.read_availability session.capabilities) last

unfoldable pub handle : Identity → ℕ → Message → Session Reaction
unfolding answer
handle stored generation (read_availability request_id operation) session =
    answer stored generation request_id operation session
handle stored generation ping session = (ok send_pong, session)
handle stored generation pong session = (ok nothing, session)
handle stored generation (close reason) session = (ok (send_close reason), session)
handle stored generation _ session = (err protocol, session)
