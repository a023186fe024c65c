-- ===== src/ProtocolClient/Reconnect.antt =====
-- The delays between attempts to connect, and adapters that have given up.
use deskkin.Prelude.{ap₂}
use deskkin.ProtocolClient.{hello_rejected, begin_read, not_authenticated}
use deskkin.Prelude.{ℕ, zero, suc, ◌≡◌, ◌≢◌, refl, List, [], ◌∷◌, All, min, ap, arith}
use deskkin.Prelude.Results.{Result, ok, err}
use deskkin.Protocol.{ContextId, HelloRejectReason, session_busy}
use deskkin.ProtocolClient
use deskkin.ProtocolClient.{
  ProtocolAdapter, ProtocolAdapterError, stopped, backoff, delay_at, connection_failed,
  reconnect_delays_ms,
}
use deskkin.ProtocolClient.Calls.{Call, call, run}

-- the results of n failures in a row
unfoldable pub failures : ℕ → ProtocolAdapter → List (Result ProtocolAdapterError ℕ)
failures zero a = []
failures (suc n) a = (connection_failed a).0 ∷ failures n (connection_failed a).1

-- the delay before attempt i
abbrev pub schedule : ℕ → ℕ
schedule zero = 250
schedule (suc zero) = 500
schedule (suc (suc zero)) = 1_000
schedule (suc (suc (suc zero))) = 2_000
schedule (suc (suc (suc (suc i)))) = 5_000

-- the delays of n attempts from attempt i
unfoldable pub delays : ℕ → ℕ → List (Result ProtocolAdapterError ℕ)
delays zero i = []
delays (suc n) i = ok (schedule i) ∷ delays n (suc i)

delay_at-schedule : (i : ℕ) → delay_at (min i 4) ≡ schedule i
delay_at-schedule zero = refl
delay_at-schedule (suc zero) = refl
delay_at-schedule (suc (suc zero)) = refl
delay_at-schedule (suc (suc (suc zero))) = refl
delay_at-schedule (suc (suc (suc (suc i)))) =
    ap delay_at {x = min (suc (suc (suc (suc i)))) 4} {y = 4} (omega arith)

module _ (a : ProtocolAdapter) (i : ℕ) (runs : a.state ≢ stopped)
    (at : a.backoff_index ≡ min i 4) where
  failed_delay : (connection_failed a).0 ≡ ok (schedule i)
  unfolding connection_failed
  failed_delay = ground (arith, delay_at-schedule i)

  failed_next :
      ((connection_failed a).1.state ≢ stopped)
      × ((connection_failed a).1.backoff_index ≡ min (suc i) 4)
  unfolding connection_failed
  failed_next = ground arith

failures_from :
    (n i : ℕ) (a : ProtocolAdapter)
    → a.state ≢ stopped
    → a.backoff_index ≡ min i 4
    → failures n a ≡ delays n i
unfolding failures delays
failures_from zero i a h e = refl
failures_from (suc n) i a h e =
    let (runs, at) = failed_next a i h e in
    ap₂ ◌∷◌ (failed_delay a i h e) (failures_from n (suc i) (connection_failed a).1 runs at)

-- From an adapter whose delays have been reset, n failures in a row wait 250, 500, 1000, 2000 and
-- then always 5000 milliseconds, for every n.
pub failures-delays :
    (n : ℕ) (a : ProtocolAdapter)
    → a.state ≢ stopped
    → a.backoff_index ≡ 0
    → failures n a ≡ delays n 0
failures-delays n a h e = failures_from n 0 a h e

-- the calls that leave a stopped adapter stopped
abbrev pub IsNotRestart : Call → Type 0
IsNotRestart Call.restart_after_pairing = ⊥
IsNotRestart _ = Unit {0}

call-stopped :
    (a : ProtocolAdapter) (c : Call)
    → IsNotRestart c
    → a.state ≡ stopped
    → (call c a).state ≡ stopped
unfolding call ProtocolClient.connect ProtocolClient.authenticate
    ProtocolClient.valid_availability_result ProtocolClient.connection_failed
    ProtocolClient.hello_rejected ProtocolClient.begin_read ProtocolClient.result
    ProtocolClient.disconnect ProtocolClient.stop
call-stopped a (Call.result _ _ _ _) q h = ground arith
call-stopped a _ q h = ground arith

run-stopped :
    (calls : List Call) (a : ProtocolAdapter)
    → All IsNotRestart calls
    → a.state ≡ stopped
    → (run calls a).state ≡ stopped
unfolding run
run-stopped [] a q h = h
run-stopped (c ∷ calls) a q h = run-stopped calls (call c a) q.1 (call-stopped a c q.0 h)

rejected-stopped :
    (reason : HelloRejectReason) (a : ProtocolAdapter)
    → reason ≢ session_busy
    → (hello_rejected reason a).state ≡ stopped
unfolding hello_rejected
rejected-stopped reason a h = ground arith

stopped_begins_nothing :
    (a : ProtocolAdapter) (effect_id : ℕ) (operation : ContextId)
    → a.state ≡ stopped
    → (begin_read effect_id operation a).0 ≡ err not_authenticated
unfolding begin_read
stopped_begins_nothing a effect_id operation h = ground arith

stopped_counts_nothing :
    (a : ProtocolAdapter)
    → a.state ≡ stopped
    → (connection_failed a).0 ≡ err ProtocolAdapterError.stopped
unfolding connection_failed
stopped_counts_nothing a h = ground arith

-- After a rejection for any reason but a busy session, the adapter stays stopped, begins no read and
-- counts no failure, whatever is called, until it is restarted after a pairing.
pub rejection_is_final :
    (reason : HelloRejectReason) (a : ProtocolAdapter) (calls : List Call) (effect_id : ℕ)
    (operation : ContextId)
    → reason ≢ session_busy
    → All IsNotRestart calls
    → let later = run calls (hello_rejected reason a) in
      (later.state ≡ stopped)
      × ((begin_read effect_id operation later).0 ≡ err not_authenticated)
      × ((connection_failed later).0 ≡ err ProtocolAdapterError.stopped)
rejection_is_final reason a calls effect_id operation serious quiet =
    let later = run calls (hello_rejected reason a) in
    let gone =
      run-stopped calls (hello_rejected reason a) quiet (rejected-stopped reason a serious) in
    (gone, stopped_begins_nothing later effect_id operation gone, stopped_counts_nothing later gone)
