-- ===== src/Examples/Recording.antt =====
-- The recorder on a small store.
use deskkin.Prelude.{
  ℕ, ◌≡◌, ◌≤◌, refl, Bool, true, false, Option, none, some, List, [], ◌∷◌, All, arith,
}
use deskkin.Prelude.Results.{ok}
use deskkin.Prelude.Bytes.{Bytes, same_bytes}
use deskkin.Recorder.{
  RecordingMode, RunOutcome, Completeness, RecordingHealth, Operation, OperationStatus, ClosedValue,
  SemanticRecord, DiagnosticRun,
}
use deskkin.Recorder.Finalize.{completed_ms, finalize_operation_records}
use deskkin.Recorder.Finalize.Final.{IsFinal, Numbered, Spans, finalize_operation_records-IsFinal}
use deskkin.Recorder.Store as Directory
use deskkin.Recorder.Retention as Retention
use deskkin.Recorder.Publishing as Publishing
use deskkin.Recorder.Store.{Entry, EntryKind, Store, Disk, Change, Lock, find_file}
use deskkin.Recorder.Retention.{Recorder, ensure_capacity, enforce_retention, exhausted}
use deskkin.Recorder.Retention.Bounded.{number, EndsWith, ensure_capacity-Ends}
use deskkin.Recorder.Retention.Enforced.{Settled, enforce_retention-IsBounded}
use deskkin.Recorder.Publishing.{json_name, publish, valid_run_id}
use deskkin.Recorder.Publishing.Kept.{publish-keeps_retained}

abbrev step : Operation → ℕ → Option ClosedValue → SemanticRecord
step operation time value = record {
  operation = operation;
  operation_id = 0;
  parent_operation_id = none;
  status = OperationStatus.in_progress;
  error_type = none;
  effect_id = none;
  virtual_time_ms = time;
  end_virtual_time_ms = 0;
  duration_ms = none;
  render_width = none;
  render_height = none;
  value = value;
}

abbrev refresh : List SemanticRecord
refresh =
    step Operation.status_refresh 5 (some ClosedValue.started)
    ∷ step Operation.effect_read_status 5 (some ClosedValue.read_failed)
    ∷ step Operation.presenter_apply_view 9 none
    ∷ []

finalize_operation_records-IsFinal_example :
    All (IsFinal (completed_ms refresh)) (finalize_operation_records RunOutcome.error refresh)
    × Numbered 0 (finalize_operation_records RunOutcome.error refresh)
    × Spans RunOutcome.error
        (completed_ms refresh)
        (finalize_operation_records RunOutcome.error refresh)
finalize_operation_records-IsFinal_example =
    finalize_operation_records-IsFinal RunOutcome.error refresh

abbrev a_run : Bytes → Bool → ℕ → DiagnosticRun
a_run id retained created = record {
  run_id = id;
  outcome = RunOutcome.success;
  completeness = Completeness.complete;
  health = RecordingHealth.healthy;
  terminal = true;
  missing_reason = none;
  owner = none;
  retained = retained;
  created_unix_ms = created;
  records = [];
}

abbrev a_file : Bytes → Bool → ℕ → Entry
a_file id retained created = record {
  name = json_name id;
  kind = EntryKind.json;
  len = 10;
  run = some (a_run id retained created);
}

abbrev first_id : Bytes
first_id = b'a' ∷ []

abbrev second_id : Bytes
second_id = b'b' ∷ []

abbrev third_id : Bytes
third_id = b'c' ∷ []

-- the first run is retained, though it is the oldest
abbrev two_runs : Store
two_runs = record {
  files = a_file first_id true 1 ∷ a_file second_id false 2 ∷ [];
  health_record = none;
}

abbrev sound : Disk
sound = record {
  listed = λ _. true;
  readable = λ _ _. true;
  removal = λ _ _. Change.done;
  writing = λ _ _. Change.done;
  health_writing = Change.done;
  size_of = λ _. 10;
  owner_is_live = λ _. false;
  marker_lock = λ _. Lock.free;
}

abbrev small : Recorder
small = record { max_bytes = 25; success_limit = 1; non_success_limit = 1 }

ensure_capacity-Ends_example : EndsWith sound 25 10 (ensure_capacity small sound 10 two_runs)
ensure_capacity-Ends_example = ensure_capacity-Ends small sound 10 two_runs

first_is_id : valid_run_id first_id ≡ true
unfolding valid_run_id
first_is_id = refl

publish-keeps_retained_example :
    find_file
      (json_name first_id)
      (publish RecordingMode.on small sound (a_run third_id false 3) two_runs).1.files
    ≡ some (a_file first_id true 1)
unfolding same_bytes
publish-keeps_retained_example =
    publish-keeps_retained first_id (a_file first_id true 1) (a_run first_id true 1) first_is_id
      refl refl refl small sound (a_run third_id false 3) (ground arith) RecordingMode.on two_runs
      (λ e. ground arith, (λ e. ground arith, tt)) refl

abbrev three_runs : Store
three_runs = record {
  files = a_file first_id false 1 ∷ a_file second_id false 2 ∷ a_file third_id true 3 ∷ [];
  health_record = none;
}

abbrev enforced : Store
enforced = record {
  files = a_file second_id false 2 ∷ a_file third_id true 3 ∷ [];
  health_record = none;
}

three_runs-enforced : enforce_retention small sound three_runs ≡ (ok tt, enforced)
unfolding enforce_retention Retention.candidates Directory.private_json_entries
    Retention.candidates_of Directory.read_run same_bytes Retention.remove_all Retention.sort
    Directory.remove_file Retention.enforce_byte_cap Retention.make_room Directory.directory_bytes
three_runs-enforced = refl

enforce_retention-IsBounded_example :
    (number true enforced.files ≤ 1)
    × (number false enforced.files ≤ 1)
    × Settled small sound enforced
enforce_retention-IsBounded_example =
    enforce_retention-IsBounded small sound three_runs enforced tt three_runs-enforced

abbrev enforced_second : Store
enforced_second = record { files = a_file second_id false 2 ∷ []; health_record = none }

-- A run that is published with an old time of creation is removed at once, and said to be stored.
old_run_is_stored_and_removed :
    (let (publication, after) =
        publish RecordingMode.on small sound (a_run third_id false 1) enforced_second in
      (publication.stored ≡ true) × (find_file (json_name third_id) after.files ≡ none))
unfolding publish Directory.cleanup_stale_temps Publishing.recover_in_progress
    Directory.private_json_entries Directory.read_run same_bytes ensure_capacity Retention.make_room
    Directory.directory_bytes Directory.atomic_write enforce_retention Retention.candidates
    Retention.candidates_of Retention.remove_all Retention.sort Retention.enforce_byte_cap
old_run_is_stored_and_removed = (refl, refl)
