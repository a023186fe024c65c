-- ===== src/ProtocolClient/Calls.antt =====
-- Any sequence of calls on an adapter, in the order in which its owner makes them.
use deskkin.Prelude.{ℕ, ◌<◌, ◌≤◌, ◌^◌, ◌≡◌, true, Option, none, some, List, [], ◌∷◌, arith}
use deskkin.Protocol.{ContextId, AvailabilityResult, HelloRejectReason}
use deskkin.ProtocolClient
use deskkin.ProtocolClient.{ProtocolAdapter, ActiveRead, new, is_some, is_authenticated}

pub data Call : Type 0 where
  connect stop disconnect connection_failed restart_after_pairing valid_availability_result : Call
  authenticate : ContextId → Call
  hello_rejected : HelloRejectReason → Call
  begin_read : ℕ → ContextId → Call
  result : ContextId → ℕ → ContextId → AvailabilityResult → Call

unfoldable pub call : Call → ProtocolAdapter → ProtocolAdapter
call connect a = ProtocolClient.connect a
call stop a = ProtocolClient.stop a
call disconnect a = (ProtocolClient.disconnect a).1
call connection_failed a = (ProtocolClient.connection_failed a).1
call restart_after_pairing a = ProtocolClient.restart_after_pairing a
call valid_availability_result a = ProtocolClient.valid_availability_result a
call (authenticate session) a = ProtocolClient.authenticate session a
call (hello_rejected reason) a = ProtocolClient.hello_rejected reason a
call (begin_read effect_id operation) a = (ProtocolClient.begin_read effect_id operation a).1
call (result session request operation answer) a =
    (ProtocolClient.result session request operation answer a).1

unfoldable pub run : List Call → ProtocolAdapter → ProtocolAdapter
run [] a = a
run (c ∷ calls) a = run calls (call c a)

-- The read in flight has an identity that was given out, and an effect to complete.
abbrev pub InFlight : Option ActiveRead → ℕ → Type 0
InFlight none last = Unit {0}
InFlight (some read) last = (0 < read.request_id) × (read.request_id ≤ last) × (0 < read.effect_id)

pub record IsValid (a : ProtocolAdapter) : Type 0 where
  pub request_fits : a.request_id < 2 ^ 32
  pub in_flight : InFlight a.active a.request_id
  pub backoff_in_range : a.backoff_index ≤ 4
  pub has_session : is_authenticated a.state ≡ true → is_some a.session ≡ true

pub call-IsValid : (a : ProtocolAdapter) (c : Call) → IsValid a → IsValid (call c a)
unfolding call ProtocolClient.connect ProtocolClient.authenticate
    ProtocolClient.valid_availability_result ProtocolClient.restart_after_pairing
    ProtocolClient.connection_failed ProtocolClient.hello_rejected ProtocolClient.begin_read
    ProtocolClient.result ProtocolClient.disconnect ProtocolClient.stop
call-IsValid a (result _ _ _ _) h = ground arith
call-IsValid a _ h = ground arith

run-IsValid : (calls : List Call) (a : ProtocolAdapter) → IsValid a → IsValid (run calls a)
unfolding run
run-IsValid [] a h = h
run-IsValid (c ∷ calls) a h = run-IsValid calls (call c a) (call-IsValid a c h)

-- Whatever is called, in whatever order, on a new adapter: the read in flight has a request id that
-- was given out and a nonzero effect id, the index of the delay is in its table, request ids fit
-- 32 bits, and an authenticated adapter has a session.
pub new-run-IsValid : (calls : List Call) → IsValid (run calls new)
unfolding new
new-run-IsValid calls = run-IsValid calls new (ground arith)
