-- ===== src/Recorder/Publishing.antt =====
-- Publishing a run, the recovery of runs that were left open, and the commands on stored runs. The
-- checks of directories, modes and locks before a call are left out: they change no run.
pub mod Kept
use deskkin.Prelude.{
  ℕ, Bool, true, false, not, ◌&&◌, ◌||◌, Option, none, some, List, [], ◌∷◌, ◌++◌, leb, ◌==◌,
  if◌then◌else◌,
}
use deskkin.Prelude.Results.{Result, ok, err, Method, pure, fail, lift, view, ◌>>=◌, ◌>>◌}
use deskkin.Prelude.Bytes.{Bytes}
use deskkin.Recorder.{
  RecordingMode, on, off, RunOutcome, Completeness, RecordingHealth, OperationStatus, ErrorType,
  SemanticRecord, MissingReason, crash, ProcessOwner, DiagnosticRun,
}
use deskkin.Recorder.Store.{
  Entry, EntryKind, Publication, Store, IoError, failed, missing, symlink_found, names_symlink,
  Change, Lock, Disk, Call, find_file, remove_file, atomic_write, is_file, private_json_entries,
  read_run, cleanup_stale_temps, publish_health,
}
use deskkin.Recorder.Retention.{Recorder, ensure_capacity, enforce_retention}

abbrev close_record : SemanticRecord → SemanticRecord
close_record r = elim r.status [
  | OperationStatus.in_progress ↦ record r {
    status = OperationStatus.error;
    error_type = some ErrorType.crash;
  }
  | _ ↦ r
]

abbrev close_records : List SemanticRecord → List SemanticRecord
close_records [] = []
close_records (r ∷ rs) = close_record r ∷ close_records rs

-- what recovery makes of a run
abbrev pub closed : DiagnosticRun → DiagnosticRun
closed run = record run {
  terminal = true;
  outcome = RunOutcome.error;
  completeness = Completeness.partial;
  missing_reason = some crash;
  owner = none;
  records = close_records run.records;
}

abbrev json : Bytes
json = b'.' ∷ b'j' ∷ b's' ∷ b'o' ∷ b'n' ∷ []

abbrev pub json_name : Bytes → Bytes
json_name run_id = run_id ++ json

-- `.live-{run_id}`
abbrev marker_name : Bytes → Bytes
marker_name run_id = b'.' ∷ b'l' ∷ b'i' ∷ b'v' ∷ b'e' ∷ b'-' ∷ run_id

abbrev pub file_of : Disk → Bytes → DiagnosticRun → Entry
file_of disk name run = record {
  name = name;
  kind = EntryKind.json;
  len = disk.size_of run;
  run = some run;
}

abbrev is_live : Disk → Option ProcessOwner → Bool
is_live disk none = false
is_live disk (some owner) = disk.owner_is_live owner

abbrev exists : Option Entry → Bool
exists none = false
exists (some _) = true

-- write the closed run, and remove its marker if it had a stale one
abbrev close_run : Disk → Bytes → DiagnosticRun → Bool → Call (Unit {0})
close_run disk name run stale = do
  atomic_write disk (file_of disk name (closed run))
  if stale then remove_file disk (marker_name run.run_id) else pure tt

abbrev close_unless_held : Disk → Bytes → DiagnosticRun → Lock → Call (Unit {0})
close_unless_held disk name run Lock.free = close_run disk name run true
close_unless_held disk name run Lock.held = pure tt
close_unless_held disk name run Lock.broken = fail failed

abbrev has_owner : Option ProcessOwner → Bool
has_owner none = false
has_owner (some _) = true

unfoldable pub recover_run : Disk → Bytes → Option DiagnosticRun → Call (Unit {0})
recover_run disk name none = pure tt
recover_run disk name (some run) = do
  files ← view (λ s. s.files)
  let marked = exists (find_file (marker_name run.run_id) files)
  if run.terminal || is_live disk run.owner
      then pure tt
      else if not (has_owner run.owner) && marked
      then close_unless_held disk name run (disk.marker_lock (marker_name run.run_id))
      else close_run disk name run false

unfoldable pub recover_runs : Disk → List Bytes → Call (Unit {0})
unfolding recover_run
recover_runs disk [] = pure tt
recover_runs disk (name ∷ names) = do
  files ← view (λ s. s.files)
  run ← lift (read_run disk files name)
  recover_run disk name run
  recover_runs disk names

-- `recover_in_progress_locked`
unfoldable pub recover_in_progress : Disk → Call (Unit {0})
unfolding recover_runs
recover_in_progress disk = do
  files ← view (λ s. s.files)
  names ← lift (private_json_entries disk files)
  recover_runs disk names

-- there is no room
abbrev refuse : Disk → DiagnosticRun → Call Publication
refuse disk run = do
  let publication : Publication = record {
    run_id = run.run_id;
    completeness = Completeness.dropped;
    health = RecordingHealth.capacity_exhausted;
    stored = false;
  }
  publish_health disk publication
  pure publication

abbrev accept : Recorder → Disk → DiagnosticRun → Call Publication
accept recorder disk run = do
  atomic_write disk (file_of disk (json_name run.run_id) run)
  enforce_retention recorder disk
  pure (record {
    run_id = run.run_id;
    completeness = run.completeness;
    health = run.health;
    stored = true;
  })

abbrev store_run : Recorder → Disk → DiagnosticRun → Option Bool → Call Publication
store_run recorder disk run (some true) = accept recorder disk run
store_run recorder disk run _ = refuse disk run

unfoldable pub publish_inner : Recorder → Disk → DiagnosticRun → Call Publication
publish_inner recorder disk run = do
  cleanup_stale_temps disk
  recover_in_progress disk
  room ← ensure_capacity recorder disk (disk.size_of run)
  store_run recorder disk run room

abbrev is_regular : Option Entry → Bool
is_regular none = false
is_regular (some e) = is_file e.kind

abbrev lost : DiagnosticRun → Bool → Completeness → Publication
lost run stored completeness = record {
  run_id = run.run_id;
  completeness = completeness;
  health = RecordingHealth.storage_unavailable;
  stored = stored;
}

abbrev settled : DiagnosticRun → Bool → Result IoError (Unit {0}) → Publication
settled run stored (ok _) = lost run stored Completeness.partial
settled run stored (err _) = lost run stored Completeness.dropped

-- after an error
abbrev pub degrade : Disk → DiagnosticRun → Store → Publication × Store
degrade disk run store =
    let stored = is_regular (find_file (json_name run.run_id) store.files) in
    let (result, after) = publish_health disk (lost run stored Completeness.partial) store in
    (settled run stored result, after)

abbrev pub published :
    Disk → DiagnosticRun → Result IoError Publication → Store → Publication × Store
published disk run (ok publication) store = (publication, store)
published disk run (err _) store = degrade disk run store

unfoldable pub publish :
    RecordingMode → Recorder → Disk → DiagnosticRun → Store → Publication × Store
unfolding publish_inner
publish off recorder disk run store = (
  record {
    run_id = run.run_id;
    completeness = Completeness.complete;
    health = RecordingHealth.healthy;
    stored = false;
  },
  store,
)
publish on recorder disk run store =
    let (result, after) = publish_inner recorder disk run store in published disk run result after

abbrev is_alphanumeric : ℕ → Bool
is_alphanumeric c =
    (leb b'0' c && leb c b'9') || (leb b'A' c && leb c b'Z') || (leb b'a' c && leb c b'z')

abbrev are_run_id_bytes : Bytes → Bool
are_run_id_bytes [] = true
are_run_id_bytes (c ∷ cs) = (is_alphanumeric c || c == b'-') && are_run_id_bytes cs

unfoldable pub valid_run_id : Bytes → Bool
valid_run_id [] = false
valid_run_id (c ∷ cs) = are_run_id_bytes (c ∷ cs)

abbrev not_symlink : Option Entry → Bytes → Call Bytes
not_symlink found name = if names_symlink found then fail symlink_found else pure name

-- `resolved_run_path`
abbrev resolve : Bytes → Call Bytes
resolve id store =
    if valid_run_id id
    then not_symlink (find_file (json_name id) store.files) (json_name id) store
    else (err failed, store)

abbrev parsed : Option DiagnosticRun → Call DiagnosticRun
parsed none = fail failed
parsed (some run) = pure run

unfoldable pub set_retained : Disk → Bytes → Bool → Call (Unit {0})
unfolding valid_run_id
set_retained disk id retained = do
  name ← resolve id
  files ← view (λ s. s.files)
  found ← lift (read_run disk files name)
  run ← parsed found
  atomic_write disk (file_of disk name (record run { retained = retained }))

abbrev removable : Option Entry → Call (Unit {0})
removable none = fail missing
removable (some _) = pure tt

unfoldable pub delete_run : Disk → Bytes → Call (Unit {0})
unfolding valid_run_id
delete_run disk id = do
  name ← resolve id
  files ← view (λ s. s.files)
  removable (find_file name files)
  remove_file disk name

unfoldable pub unretain_and_enforce : Recorder → Disk → Bytes → Call (Unit {0})
unfolding set_retained
unretain_and_enforce recorder disk id = do
  set_retained disk id false
  enforce_retention recorder disk

pub data DiagnosticsCommand : Type 0 where
  list : DiagnosticsCommand
  retain unretain delete : Bytes → DiagnosticsCommand

-- what `list_runs` returns is left out: it reads the store only
abbrev perform : Recorder → Disk → DiagnosticsCommand → Call (Unit {0})
perform recorder disk DiagnosticsCommand.list = pure tt
perform recorder disk (DiagnosticsCommand.retain id) = set_retained disk id true
perform recorder disk (DiagnosticsCommand.unretain id) = unretain_and_enforce recorder disk id
perform recorder disk (DiagnosticsCommand.delete id) = delete_run disk id

unfoldable pub run_diagnostics_command : Recorder → Disk → DiagnosticsCommand → Call (Unit {0})
unfolding set_retained delete_run unretain_and_enforce
run_diagnostics_command recorder disk command = do
  cleanup_stale_temps disk
  recover_in_progress disk
  perform recorder disk command
