-- ===== src/Recorder/Finalize.antt =====
-- `finalize_operation_records`: what a run's records are when it ends.
pub mod Final
use deskkin.Prelude.{
  ℕ, zero, suc, ◌+◌, Bool, true, false, Option, none, some, List, [], ◌∷◌, min, max, if◌then◌else◌,
}
use deskkin.Recorder.{
  RunOutcome, Operation, OperationStatus, ErrorType, ClosedValue, SemanticRecord,
}

abbrev started_ms : List SemanticRecord → ℕ
started_ms [] = 0
started_ms (first ∷ _) = first.virtual_time_ms

-- the greatest virtual time, and 0 of no records, as their start is
abbrev pub completed_ms : List SemanticRecord → ℕ
completed_ms [] = 0
completed_ms (r ∷ rs) = max r.virtual_time_ms (completed_ms rs)

abbrev status_of : Option ClosedValue → OperationStatus
status_of (some ClosedValue.read_failed) = OperationStatus.error
status_of (some ClosedValue.arm_failed) = OperationStatus.error
status_of (some ClosedValue.cancel) = OperationStatus.cancel
status_of (some ClosedValue.timeout) = OperationStatus.timeout
status_of _ = OperationStatus.success

abbrev error_of : Option ClosedValue → Option ErrorType
error_of (some ClosedValue.read_failed) = some ErrorType.read_unavailable
error_of (some ClosedValue.arm_failed) = some ErrorType.timer_arm_unavailable
error_of (some ClosedValue.cancel) = some ErrorType.cancelled
error_of (some ClosedValue.timeout) = some ErrorType.timeout
error_of _ = none

abbrev is_read : Operation → Bool
is_read Operation.effect_read_status = true
is_read _ = false

-- `(index != 0).then_some(1)`
abbrev parent_of : ℕ → Option ℕ
parent_of zero = none
parent_of (suc _) = some 1

-- the body of the loop
finalize_record : (started completed index : ℕ) → SemanticRecord → SemanticRecord
finalize_record started completed index r = record r {
  operation_id = min (index + 1) 65535;
  parent_operation_id = parent_of index;
  status = status_of r.value;
  error_type = error_of r.value;
  virtual_time_ms = if is_read r.operation then started else r.virtual_time_ms;
  end_virtual_time_ms = if is_read r.operation then completed else r.virtual_time_ms;
}

finalize_from : (started completed index : ℕ) → List SemanticRecord → List SemanticRecord
unfolding finalize_record
finalize_from started completed index [] = []
finalize_from started completed index (r ∷ rs) =
    finalize_record started completed index r ∷ finalize_from started completed (index + 1) rs

-- `find_map(|record| record.error_type)`
abbrev first_error : List SemanticRecord → Option ErrorType
first_error [] = none
first_error (r ∷ rs) = elim r.error_type [ some e ↦ some e | none ↦ first_error rs ]

abbrev root_status : RunOutcome → OperationStatus
root_status RunOutcome.success = OperationStatus.success
root_status RunOutcome.error = OperationStatus.error
root_status RunOutcome.cancel = OperationStatus.cancel
root_status RunOutcome.timeout = OperationStatus.timeout

abbrev root_error : RunOutcome → Option ErrorType → Option ErrorType
root_error RunOutcome.success first = none
root_error RunOutcome.error first = first
root_error RunOutcome.cancel first = some ErrorType.cancelled
root_error RunOutcome.timeout first = some ErrorType.timeout

finalize_root : RunOutcome → ℕ → Option ErrorType → List SemanticRecord → List SemanticRecord
finalize_root outcome completed first [] = []
finalize_root outcome completed first (root ∷ rs) =
    record root {
      end_virtual_time_ms = completed;
      status = root_status outcome;
      error_type = root_error outcome first;
    }
    ∷ rs

unfoldable pub finalize_operation_records : RunOutcome → List SemanticRecord → List SemanticRecord
unfolding finalize_from finalize_root
finalize_operation_records outcome records =
    let completed = completed_ms records in
    let done = finalize_from (started_ms records) completed 0 records in
    finalize_root outcome completed (first_error done) done
