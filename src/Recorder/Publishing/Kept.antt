-- ===== src/Recorder/Publishing/Kept.antt =====
-- What publishing a run leaves of the other runs.
use mathlib.Core.List.{append_cancel_right}
use deskkin.Prelude.{
  ◌≡◌, ◌≢◌, sym, ◌∙◌, Bool, true, false, Option, none, some, List, [], ◌∷◌, arith, All,
}
use deskkin.Prelude.Results.{Result, ok, err, lift, >>=-keeps}
use deskkin.Prelude.Bytes.{Bytes}
use deskkin.Recorder.{RecordingMode, on, off, DiagnosticRun}
use deskkin.Recorder.Store.{
  Entry, Store, IoError, Disk, Lock, Call, Publication, find_file, remove_file, atomic_write,
  publish_health, read_run, is_temporary, cleanup_entries, cleanup_stale_temps,
  private_json_entries,
}
use deskkin.Recorder.Store.Files.{atomic_write-keeps}
use deskkin.Recorder.Retention.{Recorder, ensure_capacity, enforce_retention}
use deskkin.Recorder.Retention.Retained.{
  Holds, KeepsFile, remove_file-KeepsFile, ensure_capacity-KeepsFile, enforce_retention-KeepsFile,
}
use deskkin.Recorder.Publishing.{
  json, json_name, marker_name, file_of, closed, valid_run_id, close_run, close_unless_held,
  recover_run, recover_runs, recover_in_progress, store_run, publish_inner, published, publish,
}

-- no temporary file has the name
abbrev pub NotTemporary : Bytes → List Entry → Type 0
NotTemporary name = All (λ e. is_temporary e.kind ≡ true → e.name ≢ name)

json_name-ne : (a b : Bytes) → a ≢ b → json_name a ≢ json_name b
json_name-ne a b h same = h (append_cancel_right a b json same)

marker_name-ne : (id run_id : Bytes) → valid_run_id id ≡ true → marker_name run_id ≢ json_name id
unfolding valid_run_id
marker_name-ne [] run_id h same = cc
marker_name-ne (c ∷ cs) run_id h same = ground arith

module _ (id : Bytes) (e : Entry) (r : DiagnosticRun) where
  abbrev Keeps : {A : Type 0} → Call A → Type 0
  Keeps call = KeepsFile (json_name id) e r call

  abbrev Held : Store → Type 0
  Held = Holds (json_name id) e r

  atomic_write-Keeps :
      (disk : Disk) (file : Entry) → file.name ≢ json_name id → Keeps (atomic_write disk file)
  atomic_write-Keeps disk file other store h =
      atomic_write-keeps disk (json_name id) file store other ∙ h

  cleanup_entries-Keeps :
      (disk : Disk) (es : List Entry)
      → NotTemporary (json_name id) es
      → Keeps (cleanup_entries disk es)
  unfolding cleanup_entries
  cleanup_entries-Keeps disk [] others store h = h
  cleanup_entries-Keeps disk (x ∷ es) others store h =
      let removed : is_temporary x.kind ≡ true → Held (remove_file disk x.name store).1 =
        λ k. remove_file-KeepsFile (json_name id) e r disk x.name (others.0 k) store h in
      let rest : (s : Store) → Held s → Held (cleanup_entries disk es s).1 =
        λ s. λ k. cleanup_entries-Keeps disk es others.1 s k in
      grind (arith, removed, rest)

  cleanup_stale_temps-Keeps :
      (disk : Disk) (store : Store)
      → NotTemporary (json_name id) store.files
      → Held store
      → Held (cleanup_stale_temps disk store).1
  unfolding cleanup_stale_temps
  cleanup_stale_temps-Keeps disk store others h =
      ground (arith, cleanup_entries-Keeps disk store.files others store h)

  module _ (is_id : valid_run_id id ≡ true) (parses : e.run ≡ some r) (kept : r.retained ≡ true)
      (ended : r.terminal ≡ true) where
    close_run-Keeps :
        (disk : Disk) (name : Bytes) (run : DiagnosticRun) (stale : Bool)
        → name ≢ json_name id
        → Keeps (close_run disk name run stale)
    close_run-Keeps disk name run stale other store h =
        let file = file_of disk name (closed run) in
        let written = atomic_write-Keeps disk file other store h in
        let removed =
          remove_file-KeepsFile (json_name id) e r disk (marker_name run.run_id)
            (marker_name-ne id run.run_id is_id) (atomic_write disk file store).1 written in
        ground arith

    close_unless_held-Keeps :
        (disk : Disk) (name : Bytes) (run : DiagnosticRun) (lock : Lock)
        → name ≢ json_name id
        → Keeps (close_unless_held disk name run lock)
    close_unless_held-Keeps disk name run Lock.free other store h =
        close_run-Keeps disk name run true other store h
    close_unless_held-Keeps disk name run _ other store h = h

    recover_run-Keeps :
        (disk : Disk) (name : Bytes) (run : Option DiagnosticRun) (store : Store)
        → Held store
        → read_run disk store.files name ≡ ok run
        → Held (recover_run disk name run store).1
    unfolding recover_run read_run
    recover_run-Keeps disk name none store h found = h
    recover_run-Keeps disk name (some run) store h found =
        let other : run.terminal ≡ false → name ≢ json_name id = λ k. λ same. ground arith in
        let held : run.terminal ≡ false
            → Held
                (close_unless_held disk name run (disk.marker_lock (marker_name run.run_id))
                  store).1 =
          λ k. close_unless_held-Keeps disk name run _ (other k) store h in
        let unheld : run.terminal ≡ false → Held (close_run disk name run false store).1 =
          λ k. close_run-Keeps disk name run false (other k) store h in
        ground (arith)

    recover_runs-Keeps : (disk : Disk) (names : List Bytes) → Keeps (recover_runs disk names)
    unfolding recover_runs
    recover_runs-Keeps disk [] store h = h
    recover_runs-Keeps disk (name ∷ names) store h =
        >>=-keeps Held (lift (read_run disk store.files name)) _ store h (λ run. λ found.
          let recovered = recover_run-Keeps disk name run store h found in
          >>=-keeps Held (recover_run disk name run) _ store recovered
            (λ u. λ _. recover_runs-Keeps disk names _ recovered))

    recover_in_progress-Keeps : (disk : Disk) → Keeps (recover_in_progress disk)
    unfolding recover_in_progress
    recover_in_progress-Keeps disk store h =
        >>=-keeps Held (lift (private_json_entries disk store.files)) _ store h
          (λ names. λ _. recover_runs-Keeps disk names store h)

    publish_health-Keeps : (disk : Disk) (p : Publication) → Keeps (publish_health disk p)
    unfolding publish_health
    publish_health-Keeps disk p store h = ground arith

    module _ (recorder : Recorder) (disk : Disk) (run : DiagnosticRun)
        (other : id ≢ run.run_id) where
      store_run-Keeps : (room : Option Bool) → Keeps (store_run recorder disk run room)
      store_run-Keeps (some true) store h =
          let file = file_of disk (json_name run.run_id) run in
          let written =
            atomic_write-Keeps disk file (λ same. json_name-ne id run.run_id other (sym same)) store
              h in
          >>=-keeps Held (atomic_write disk file) _ store written (λ u. λ _.
            let enforced =
              enforce_retention-KeepsFile (json_name id) e r parses kept recorder disk _ written in
            >>=-keeps Held (enforce_retention recorder disk) _ _ enforced (λ v. λ _. enforced))
      store_run-Keeps none store h =
          let said = publish_health-Keeps disk _ store h in
          >>=-keeps Held (publish_health disk _) _ store said (λ u. λ _. said)
      store_run-Keeps (some false) store h =
          let said = publish_health-Keeps disk _ store h in
          >>=-keeps Held (publish_health disk _) _ store said (λ u. λ _. said)

      publish_inner-Keeps :
          (store : Store)
          → NotTemporary (json_name id) store.files
          → Held store
          → Held (publish_inner recorder disk run store).1
      unfolding publish_inner
      publish_inner-Keeps store names h =
          let cleaned = cleanup_stale_temps-Keeps disk store names h in
          >>=-keeps Held (cleanup_stale_temps disk) _ store cleaned (λ u. λ _.
            let recovered = recover_in_progress-Keeps disk _ cleaned in
            >>=-keeps Held (recover_in_progress disk) _ _ recovered (λ v. λ _.
              let roomy =
                ensure_capacity-KeepsFile (json_name id) e r parses kept recorder disk
                  (disk.size_of run) _ recovered in
              >>=-keeps Held (ensure_capacity recorder disk (disk.size_of run)) _ _ roomy
                (λ room. λ _. store_run-Keeps room _ roomy)))

      published-Keeps :
          (result : Result IoError Publication) (store : Store)
          → Held store
          → Held (published disk run result store).1
      published-Keeps (ok p) store h = h
      published-Keeps (err x) store h = publish_health-Keeps disk _ store h

      -- Publishing a run, whatever becomes of it and wherever the disk fails, leaves the file of every
      -- other run that has ended and is retained as it was: it is neither removed to make room nor
      -- changed by the recovery of open runs. The other run's identifier is one that a command could
      -- name, and no temporary file has the name of its file.
      pub publish-keeps_retained :
          (mode : RecordingMode) (store : Store)
          → NotTemporary (json_name id) store.files
          → find_file (json_name id) store.files ≡ some e
          → find_file (json_name id) (publish mode recorder disk run store).1.files ≡ some e
      unfolding publish
      publish-keeps_retained off store names h = h
      publish-keeps_retained on store names h =
          let (result, after) = publish_inner recorder disk run store in
          published-Keeps result after (publish_inner-Keeps store names h)
