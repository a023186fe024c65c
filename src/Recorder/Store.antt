-- ===== src/Recorder/Store.antt =====
-- The files of the diagnostic store, and the calls that read and change them. What the disk makes of
-- a call is an argument. `serde_json` writes a run as `size_of` that run many bytes, and reads back
-- what it wrote. A temporary file that could not be removed after a failed write is left out.

pub mod Files
use deskkin.Prelude.{
  ℕ, ◌+◌, ◌-◌, ◌^◌, Bool, true, false, ◌||◌, Option, none, some, List, [], ◌∷◌, min, map, length,
  take, if◌then◌else◌,
}
use deskkin.Prelude.Results.{Result, ok, err, Method, pure, fail, ◌>>◌}
use deskkin.Prelude.Bytes.{Bytes, same_bytes}
use deskkin.Recorder.{RunOutcome, Completeness, RecordingHealth, DiagnosticRun, ProcessOwner}

pub data EntryKind : Type 0 where
  symlink directory json temporary other : EntryKind

-- `run` is what the file parses to, if it does
pub record Entry : Type 0 where
  pub name : Bytes
  pub kind : EntryKind
  pub len : ℕ
  pub run : Option DiagnosticRun

pub record Publication : Type 0 where
  pub run_id : Bytes
  pub completeness : Completeness
  pub health : RecordingHealth
  pub stored : Bool

-- the directory `diagnostics`, and the file `recording-health.json`
pub record Store : Type 0 where
  pub files : List Entry
  pub health_record : Option Publication

pub data IoError : Type 0 where
  symlink_found missing failed : IoError

-- a file is not removed, it is removed but the directory is not synced, or it is removed; the same
-- for the rename that ends a write
pub data Change : Type 0 where
  refused unsynced done : Change

pub data Lock : Type 0 where
  free held broken : Lock

-- what the disk and the system answer, in a state of the directory
pub record Disk : Type 0 where
  pub listed : List Entry → Bool
  pub readable : List Entry → Bytes → Bool
  pub removal : List Entry → Bytes → Change
  pub writing : List Entry → Bytes → Change
  pub health_writing : Change
  pub size_of : DiagnosticRun → ℕ
  pub owner_is_live : ProcessOwner → Bool
  pub marker_lock : Bytes → Lock

abbrev pub Call : Type 0 → Type 0
Call A = Method IoError Store A

abbrev pub find_file : Bytes → List Entry → Option Entry
find_file name [] = none
find_file name (e ∷ es) = if same_bytes e.name name then some e else find_file name es

abbrev pub without : Bytes → List Entry → List Entry
without name [] = []
without name (e ∷ es) =
    let rest = without name es in if same_bytes e.name name then rest else e ∷ rest

abbrev pub with_file : Entry → List Entry → List Entry
with_file file [] = file ∷ []
with_file file (e ∷ es) =
    let rest = with_file file es in if same_bytes e.name file.name then file ∷ es else e ∷ rest

-- `fs::remove_file` and `sync_directory`
unfoldable pub remove_file : Disk → Bytes → Call (Unit {0})
remove_file disk name store = elim (disk.removal store.files name) [
  | Change.refused ↦ (err failed, store)
  | Change.unsynced ↦ (err failed, record store { files = without name store.files })
  | Change.done ↦ (ok tt, record store { files = without name store.files })
]

abbrev replace_file : Change → Entry → Call (Unit {0})
replace_file Change.refused file store = (err failed, store)
replace_file Change.unsynced file store =
    (err failed, record store { files = with_file file store.files })
replace_file Change.done file store = (ok tt, record store { files = with_file file store.files })

abbrev is_symlink : EntryKind → Bool
is_symlink EntryKind.symlink = true
is_symlink _ = false

abbrev pub names_symlink : Option Entry → Bool
names_symlink none = false
names_symlink (some e) = is_symlink e.kind

-- `atomic_write`
unfoldable pub atomic_write : Disk → Entry → Call (Unit {0})
atomic_write disk file store =
    if names_symlink (find_file file.name store.files)
    then (err symlink_found, store)
    else replace_file (disk.writing store.files file.name) file store

abbrev pub is_file : EntryKind → Bool
is_file EntryKind.symlink = false
is_file EntryKind.directory = false
is_file _ = true

abbrev pub saturating_add : ℕ → ℕ → ℕ
saturating_add a b = min (a + b) (2 ^ 64 - 1)

abbrev pub file_len : Entry → ℕ
file_len e = if is_file e.kind then e.len else 0

bytes_from : ℕ → List Entry → Result IoError ℕ
bytes_from total [] = ok total
bytes_from total (e ∷ es) =
    let rest = bytes_from (saturating_add total (file_len e)) es in
    if is_symlink e.kind then err symlink_found else rest

unfoldable pub directory_bytes : Disk → List Entry → Result IoError ℕ
unfolding bytes_from
directory_bytes disk files = if disk.listed files then bytes_from 0 files else err failed

abbrev pub is_json : EntryKind → Bool
is_json EntryKind.json = true
is_json _ = false

abbrev push_name : Entry → Result IoError (List Bytes) → Result IoError (List Bytes)
push_name e (err x) = err x
push_name e (ok names) = ok (if is_json e.kind then e.name ∷ names else names)

unfoldable pub json_names : List Entry → Result IoError (List Bytes)
json_names [] = ok []
json_names (e ∷ es) =
    let rest = push_name e (json_names es) in if is_symlink e.kind then err symlink_found else rest

unfoldable pub private_json_entries : Disk → List Entry → Result IoError (List Bytes)
unfolding json_names
private_json_entries disk files = if disk.listed files then json_names files else err failed

abbrev run_of : Option Entry → Result IoError (Option DiagnosticRun)
run_of none = err missing
run_of (some e) = ok e.run

-- `fs::read` and `serde_json::from_slice`
unfoldable pub read_run : Disk → List Entry → Bytes → Result IoError (Option DiagnosticRun)
read_run disk files name =
    if disk.readable files name then run_of (find_file name files) else err failed

abbrev pub is_temporary : EntryKind → Bool
is_temporary EntryKind.temporary = true
is_temporary _ = false

-- `cleanup_stale_temps`: the directory is listed as it is at first
unfoldable pub cleanup_entries : Disk → List Entry → Call (Unit {0})
unfolding remove_file
cleanup_entries disk [] = pure tt
cleanup_entries disk (e ∷ es) =
    let rest = cleanup_entries disk es in
    if is_symlink e.kind
    then fail symlink_found
    else if is_temporary e.kind
    then remove_file disk e.name >> rest
    else rest

unfoldable pub cleanup_stale_temps : Disk → Call (Unit {0})
unfolding cleanup_entries
cleanup_stale_temps disk store =
    if disk.listed store.files then cleanup_entries disk store.files store else (err failed, store)

-- `publish_health_locked`
unfoldable pub publish_health : Disk → Publication → Call (Unit {0})
publish_health disk publication store = elim disk.health_writing [
  | Change.refused ↦ (err failed, store)
  | Change.unsynced ↦ (err failed, record store { health_record = some publication })
  | Change.done ↦ (ok tt, record store { health_record = some publication })
]
