-- ===== src/ProtocolClient/Reads.antt =====
-- Which reads are begun and which answers are taken.
use deskkin.Prelude.{
  ℕ, ◌+◌, ◌<◌, ◌≡◌, ◌≢◌, ◌↔◌, true, false, All, Option, none, some, List, [], ◌∷◌, arith,
}
use deskkin.Prelude.Results.{Result, ok, err, is_ok}
use deskkin.Prelude.Bytes.{same_bytes_iff}
use deskkin.Protocol.{ContextId, AvailabilityResult}
use deskkin.ProtocolClient
use deskkin.ProtocolClient.{
  stopped, ProtocolAdapter, ProtocolAdapterError, no_active_read, session_mismatch, authenticated,
  ActiveRead, ProtocolEvent, availability_completed, session_invalidated, begin_read, result,
  in_session, finish_read, disconnect, authenticate, is_stopped,
}
use deskkin.ProtocolClient.Calls.{Call, call, run}

-- A read that is begun is in flight, with the next request id; a refused one changes nothing.
abbrev pub Begins :
    ℕ → ContextId → ProtocolAdapter → Result ProtocolAdapterError ℕ × ProtocolAdapter → Type 0
Begins effect_id operation before (ok request, after) =
    (before.state ≡ authenticated)
    × (before.active ≡ none)
    × (0 < effect_id)
    × (request ≡ before.request_id + 1)
    × (after.request_id ≡ request)
    × (after.state ≡ authenticated)
    × (after.session ≡ before.session)
    × (after.active
        ≡ some (record { operation = operation; request_id = request; effect_id = effect_id }))
Begins effect_id operation before (err e, after) = after ≡ before

pub begin_read-Begins :
    (a : ProtocolAdapter) (effect_id : ℕ) (operation : ContextId)
    → Begins effect_id operation a (begin_read effect_id operation a)
unfolding begin_read
begin_read-Begins a effect_id operation = ground arith

abbrev ReadIs : Option ActiveRead → ℕ → ContextId → Type 0
ReadIs none request operation = ⊥
ReadIs (some read) request operation = (read.request_id ≡ request) × (read.operation ≡ operation)

abbrev SessionIs : Option ContextId → ContextId → Type 0
SessionIs none session = ⊥
SessionIs (some current) session = current ≡ session

abbrev pub Matches : ProtocolAdapter → ContextId → ℕ → ContextId → Type 0
Matches a session request operation =
    (a.state ≡ authenticated) × SessionIs a.session session × ReadIs a.active request operation

abbrev Completes : Option ActiveRead → ProtocolEvent → Type 0
Completes (some read) (availability_completed effect_id value) = effect_id ≡ read.effect_id
Completes _ _ = ⊥

-- An answer that is taken completes the effect of the read in flight, which is over, and starts the
-- delays anew; an answer that is refused changes nothing.
abbrev pub Answers :
    ProtocolAdapter → Result ProtocolAdapterError ProtocolEvent × ProtocolAdapter → Type 0
Answers before (ok event, after) =
    Completes before.active event
    × (after.active ≡ none)
    × (after.backoff_index ≡ 0)
    × (after.state ≡ before.state)
    × (after.session ≡ before.session)
    × (after.request_id ≡ before.request_id)
Answers before (err e, after) = after ≡ before

in_session_iff :
    (current : Option ContextId) (session : ContextId)
    → (in_session current session ≡ true) ↔ SessionIs current session
in_session_iff none session = ground arith
in_session_iff (some current) session = same_bytes_iff current session

finish_read_ok_iff :
    (active : Option ActiveRead) (request : ℕ) (operation : ContextId) (answer : AvailabilityResult)
    (a : ProtocolAdapter)
    → (is_ok (finish_read active request operation answer a).0 ≡ true)
      ↔ ReadIs active request operation
unfolding finish_read
finish_read_ok_iff none request operation answer a = ground arith
finish_read_ok_iff (some read) request operation answer a =
    ground (arith, same_bytes_iff read.operation operation)

module _ (a : ProtocolAdapter) (session operation : ContextId) (request : ℕ)
    (answer : AvailabilityResult) where
  -- An answer is taken exactly if the adapter is authenticated and the answer names its session and
  -- the request id and operation of the read in flight; then it completes that read's effect and
  -- starts the delays anew, and otherwise nothing changes.
  pub result-takes :
      ((is_ok (result session request operation answer a).0 ≡ true)
        ↔ Matches a session request operation)
      × Answers a (result session request operation answer a)
  unfolding result
  result-takes = (
    ground (
      arith,
      in_session_iff a.session session,
      finish_read_ok_iff a.active request operation answer a,
    ),
    ground arith,
  )

  -- once answered, the same answer again is refused
  pub result-once :
      is_ok (result session request operation answer a).0 ≡ true
      → (result session request operation answer (result session request operation answer a).1).0
        ≡ err no_active_read
  unfolding result
  result-once h = ground arith

-- calls after which no read can be in flight that was not there before
abbrev pub IsQuiet : Call → Type 0
IsQuiet (Call.begin_read _ _) = ⊥
IsQuiet _ = Unit {0}

call-quiet :
    (a : ProtocolAdapter) (c : Call) → IsQuiet c → a.active ≡ none → (call c a).active ≡ none
unfolding call ProtocolClient.connect ProtocolClient.authenticate
    ProtocolClient.valid_availability_result ProtocolClient.restart_after_pairing
    ProtocolClient.connection_failed ProtocolClient.hello_rejected ProtocolClient.result
    ProtocolClient.disconnect ProtocolClient.stop
call-quiet a (Call.result _ _ _ _) q h = ground arith
call-quiet a _ q h = ground arith

run-quiet :
    (calls : List Call) (a : ProtocolAdapter)
    → All IsQuiet calls
    → a.active ≡ none
    → (run calls a).active ≡ none
unfolding run
run-quiet [] a q h = h
run-quiet (c ∷ calls) a q h = run-quiet calls (call c a) q.1 (call-quiet a c q.0 h)

disconnect-active : (a : ProtocolAdapter) → a.state ≢ stopped → (disconnect a).1.active ≡ none
unfolding disconnect
disconnect-active a h = ground arith

idle_refuses :
    (a : ProtocolAdapter) (session operation : ContextId) (request : ℕ)
    (answer : AvailabilityResult)
    → a.active ≡ none
    → is_ok (result session request operation answer a).0 ≡ false
unfolding result
idle_refuses a session operation request answer h = ground arith

-- Once a connection that was not stopped is lost, no answer is taken, whatever it names and whatever
-- connections and sessions follow, until another read is begun.
pub lost_reads_stay_lost :
    (a : ProtocolAdapter) (calls : List Call) (session operation : ContextId) (request : ℕ)
    (answer : AvailabilityResult)
    → a.state ≢ stopped
    → All IsQuiet calls
    → is_ok (result session request operation answer (run calls (disconnect a).1)).0 ≡ false
lost_reads_stay_lost a calls session operation request answer running quiet =
    idle_refuses (run calls (disconnect a).1) session operation request answer
      (run-quiet calls (disconnect a).1 quiet (disconnect-active a running))
