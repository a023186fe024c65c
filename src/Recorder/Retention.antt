-- ===== src/Recorder/Retention.antt =====
-- How the store is kept within its bounds: `enforce_retention_locked`, `enforce_byte_cap_locked` and
-- `ensure_capacity_locked`. The two loops that make room are one function here, since they differ
-- only in what they do when no run is left to remove.
pub mod Unretained
pub mod Evictable
pub mod Bounded
pub mod Enforced
pub mod Retained
use deskkin.Prelude.{
  ℕ, zero, suc, ◌-◌, ◌==◌, Bool, true, false, not, ◌&&◌, ◌||◌, Option, none, some, List, [], ◌∷◌,
  map, length, take, ltb, leb, if◌then◌else◌,
}
use deskkin.Prelude.Results.{Result, ok, err, Method, pure, fail, lift, view, ◌>>=◌, ◌>>◌}
use deskkin.Prelude.Bytes.{Bytes}
use deskkin.Recorder.{Completeness, RecordingHealth, DiagnosticRun, is_success}
use deskkin.Recorder.Store.{
  Entry, Publication, Store, IoError, Disk, Call, remove_file, directory_bytes, saturating_add,
  private_json_entries, read_run, publish_health,
}

pub record Recorder : Type 0 where
  pub max_bytes : ℕ
  pub success_limit : ℕ
  pub non_success_limit : ℕ

-- a run that may be removed
pub record Candidate : Type 0 where
  pub success : Bool
  pub created : ℕ
  pub name : Bytes

-- `sort_by_key`, which keeps the order of equal keys
module _ (before : Candidate → Candidate → Bool) where
  insert : Candidate → List Candidate → List Candidate
  insert x [] = x ∷ []
  insert x (y ∷ ys) = let rest = insert x ys in if before y x then y ∷ rest else x ∷ y ∷ ys

  unfoldable pub sort : List Candidate → List Candidate
  unfolding insert
  sort [] = []
  sort (x ∷ xs) = insert x (sort xs)

abbrev pub older : Candidate → Candidate → Bool
older a b = ltb a.created b.created

-- by the pair of the priority, 0 for a success and 1 for the others, and the time
abbrev pub goes_first : Candidate → Candidate → Bool
goes_first a b =
    if a.success
    then (if b.success then older a b else true)
    else (if b.success then false else older a b)

abbrev pub candidate : Bytes → Option DiagnosticRun → List Candidate → List Candidate
candidate name none rest = rest
candidate name (some run) rest =
    if run.retained
    then rest
    else record { success = is_success run.outcome; created = run.created_unix_ms; name = name }
      ∷ rest

abbrev add_candidate :
    Bytes
    → Result IoError (Option DiagnosticRun)
    → Result IoError (List Candidate)
    → Result IoError (List Candidate)
add_candidate name (err e) rest = err e
add_candidate name (ok run) (err e) = err e
add_candidate name (ok run) (ok rest) = ok (candidate name run rest)

-- the runs that are not retained, in the order of the directory
unfoldable pub candidates_of : Disk → List Entry → List Bytes → Result IoError (List Candidate)
candidates_of disk files [] = ok []
candidates_of disk files (name ∷ names) =
    add_candidate name (read_run disk files name) (candidates_of disk files names)

unfoldable pub candidates : Disk → Call (List Candidate)
candidates disk = do
  files ← view (λ s. s.files)
  names ← lift (private_json_entries disk files)
  lift (candidates_of disk files names)

-- `remove_oldest`, of the names to remove
unfoldable pub remove_all : Disk → List Candidate → Call (Unit {0})
remove_all disk [] = pure tt
remove_all disk (c ∷ cs) = remove_file disk c.name >> remove_all disk cs

abbrev pub oldest : ℕ → List Candidate → List Candidate
oldest keep entries = take (length entries - keep) entries

abbrev pub only : Bool → List Candidate → List Candidate
only outcome [] = []
only outcome (c ∷ cs) =
    let rest = only outcome cs in
    if c.success then (if outcome then c ∷ rest else rest) else (if outcome then rest else c ∷ rest)

-- remove the first in the order of `goes_first`; `some false` if there is none
abbrev pub evict : Disk → Call (Option Bool) → List Candidate → Call (Option Bool)
evict disk next [] = pure (some false)
evict disk next (c ∷ _) = remove_file disk c.name >> next

-- `while directory_bytes(diagnostics)? + required > max_bytes`: whether there is room in the end, and
-- none if the fuel ran out
unfoldable pub make_room : Disk → (max_bytes required : ℕ) → ℕ → Call (Option Bool)
make_room disk max_bytes required zero = pure none
make_room disk max_bytes required (suc fuel) = do
  files ← view (λ s. s.files)
  total ← lift (directory_bytes disk files)
  let next = make_room disk max_bytes required fuel
  if leb (saturating_add total required) max_bytes
      then pure (some true)
      else (do found ← candidates disk; evict disk next (sort goes_first found))

-- a round removes a file, so this many rounds are enough
abbrev pub rounds : Store → ℕ
rounds store = suc (length store.files)

unfoldable pub ensure_capacity : Recorder → Disk → ℕ → Call (Option Bool)
ensure_capacity recorder disk required store =
    make_room disk recorder.max_bytes required (rounds store) store

abbrev pub exhausted : Publication
exhausted = record {
  run_id = b'r' ∷ b'e' ∷ b't' ∷ b'e' ∷ b'n' ∷ b't' ∷ b'i' ∷ b'o' ∷ b'n' ∷ [];
  completeness = Completeness.dropped;
  health = RecordingHealth.capacity_exhausted;
  stored = false;
}

abbrev pub report : Disk → Option Bool → Call (Unit {0})
report disk (some false) = publish_health disk exhausted
report disk _ = pure tt

unfoldable pub enforce_byte_cap : Recorder → Disk → Call (Unit {0})
enforce_byte_cap recorder disk store =
    (make_room disk recorder.max_bytes 0 (rounds store) >>= report disk) store

unfoldable pub enforce_retention : Recorder → Disk → Call (Unit {0})
enforce_retention recorder disk = do
  found ← candidates disk
  let success = sort older (only true found)
  let other = sort older (only false found)
  remove_all disk (oldest recorder.success_limit success)
  remove_all disk (oldest recorder.non_success_limit other)
  enforce_byte_cap recorder disk
