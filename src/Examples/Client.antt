-- ===== src/Examples/Client.antt =====
-- The protocol adapter in a few short runs.
use deskkin.Prelude.{◌≡◌, ◌≢◌, ◌↔◌, none, some, true, false, List, [], ◌∷◌, replicate, arith}
use deskkin.Prelude.Results.{is_ok}
use deskkin.Prelude.{ℕ}
use deskkin.Protocol.{AvailabilityResult}
use deskkin.ProtocolClient.{
  ProtocolAdapter, authenticated, stopped, new, begin_read, result, disconnect,
}
use deskkin.ProtocolClient.Calls.{Call, run, IsValid, new-run-IsValid}
use deskkin.ProtocolClient.Reads.{
  Begins, Matches, Answers, begin_read-Begins, result-takes, lost_reads_stay_lost,
}

abbrev session : List ℕ
session = replicate 16 1

abbrev operation : List ℕ
operation = replicate 16 2

abbrev reader : ProtocolAdapter
reader = record {
  state = authenticated;
  session = some session;
  request_id = 5;
  active = some (record { operation = operation; request_id = 5; effect_id = 9 });
  backoff_index = 3;
  terminal_reason = none;
}

abbrev calls : List Call
calls =
    Call.connect
    ∷ Call.authenticate session
    ∷ Call.result session 5 operation AvailabilityResult.available
    ∷ []

new-run-IsValid_example : IsValid (run calls new)
new-run-IsValid_example = new-run-IsValid calls

begin_read-Begins_example : Begins 4 operation reader (begin_read 4 operation reader)
begin_read-Begins_example = begin_read-Begins reader 4 operation

result-takes_example :
    ((is_ok (result session 5 operation AvailabilityResult.available reader).0 ≡ true)
      ↔ Matches reader session 5 operation)
    × Answers reader (result session 5 operation AvailabilityResult.available reader)
result-takes_example = result-takes reader session operation 5 AvailabilityResult.available

reader-ne-stopped : authenticated ≢ stopped
reader-ne-stopped e = ground arith

lost_reads_stay_lost_example :
    is_ok
      (result session 5 operation AvailabilityResult.available (run calls (disconnect reader).1)).0
    ≡ false
lost_reads_stay_lost_example =
    lost_reads_stay_lost reader calls session operation 5 AvailabilityResult.available
      reader-ne-stopped (tt, (tt, (tt, tt)))
