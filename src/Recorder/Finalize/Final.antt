-- ===== src/Recorder/Finalize/Final.antt =====
-- What every record of a finalized run is like.
use deskkin.Prelude.{ℕ, ◌+◌, ◌≤◌, ◌≡◌, ◌≢◌, refl, Option, none, List, [], ◌∷◌, min, arith, All}
use deskkin.Recorder.{RunOutcome, OperationStatus, ErrorType, SemanticRecord}
use deskkin.Recorder.Finalize.{
  completed_ms, started_ms, finalize_record, finalize_from, finalize_root, parent_of, root_status,
  finalize_operation_records,
}

-- a record that is not open, that has an error only if it did not succeed, and that lies within the
-- run
pub record IsFinal (completed : ℕ) (r : SemanticRecord) : Type 0 where
  pub closed : r.status ≢ OperationStatus.in_progress
  pub clean : r.status ≡ OperationStatus.success → r.error_type ≡ none
  pub ordered : r.virtual_time_ms ≤ r.end_virtual_time_ms
  pub within : r.end_virtual_time_ms ≤ completed

-- the records are numbered from `index`, and all but the first of a run belong to it
abbrev pub Numbered : ℕ → List SemanticRecord → Type 0
Numbered index [] = Unit {0}
Numbered index (r ∷ rs) =
    (r.operation_id ≡ min (index + 1) 65535)
    × (r.parent_operation_id ≡ parent_of index)
    × Numbered (index + 1) rs

finalize_record-IsFinal :
    (started completed index : ℕ) (r : SemanticRecord)
    → started ≤ completed
    → r.virtual_time_ms ≤ completed
    → IsFinal completed (finalize_record started completed index r)
unfolding finalize_record
finalize_record-IsFinal started completed index r h k = ground arith

finalize_from-IsFinal :
    (started completed index : ℕ) (rs : List SemanticRecord)
    → started ≤ completed
    → completed_ms rs ≤ completed
    → All (IsFinal completed) (finalize_from started completed index rs)
unfolding finalize_from
finalize_from-IsFinal started completed index [] h k = tt
finalize_from-IsFinal started completed index (r ∷ rs) h k = (
  finalize_record-IsFinal started completed index r h (omega arith),
  finalize_from-IsFinal started completed (index + 1) rs h (omega arith),
)

finalize_from-Numbered :
    (started completed index : ℕ) (rs : List SemanticRecord)
    → Numbered index (finalize_from started completed index rs)
unfolding finalize_from finalize_record
finalize_from-Numbered started completed index [] = tt
finalize_from-Numbered started completed index (r ∷ rs) =
    (refl, refl, finalize_from-Numbered started completed (index + 1) rs)

started_ms-le-completed_ms : (rs : List SemanticRecord) → started_ms rs ≤ completed_ms rs
started_ms-le-completed_ms [] = omega arith
started_ms-le-completed_ms (r ∷ rs) = omega arith

-- the root of the records, if there is one, spans the run and has its outcome
abbrev pub Spans : RunOutcome → ℕ → List SemanticRecord → Type 0
Spans outcome completed [] = Unit {0}
Spans outcome completed (root ∷ _) =
    (root.end_virtual_time_ms ≡ completed) × (root.status ≡ root_status outcome)

finalize_root_lem :
    (outcome : RunOutcome) (completed : ℕ) (first : Option ErrorType) (rs : List SemanticRecord)
    → All (IsFinal completed) rs
    → Numbered 0 rs
    → All (IsFinal completed) (finalize_root outcome completed first rs)
      × Numbered 0 (finalize_root outcome completed first rs)
      × Spans outcome completed (finalize_root outcome completed first rs)
unfolding finalize_root
finalize_root_lem outcome completed first [] h k = (h, k, tt)
finalize_root_lem RunOutcome.success completed first (r ∷ rs) h k = ground arith
finalize_root_lem outcome completed first (r ∷ rs) h k = ground arith

-- The records of a finalized run, whatever they were before, are all closed, have an error only if
-- they did not succeed, begin no later than they end and end no later than the greatest time of the
-- run; they are numbered from 1, up to the greatest 16-bit number, all but the first under the first;
-- and the first ends with the run and has its outcome.
pub finalize_operation_records-IsFinal :
    (outcome : RunOutcome) (rs : List SemanticRecord)
    → All (IsFinal (completed_ms rs)) (finalize_operation_records outcome rs)
      × Numbered 0 (finalize_operation_records outcome rs)
      × Spans outcome (completed_ms rs) (finalize_operation_records outcome rs)
unfolding finalize_operation_records
finalize_operation_records-IsFinal outcome rs =
    let started = started_ms rs in
    let completed = completed_ms rs in
    finalize_root_lem outcome completed _ (finalize_from started completed 0 rs)
      (finalize_from-IsFinal started completed 0 rs (started_ms-le-completed_ms rs) (omega arith))
      (finalize_from-Numbered started completed 0 rs)
