-- ===== src/Recorder/Retention/Retained.antt =====
-- A retained run stays in its file while others are removed.
use deskkin.Prelude.{
  ℕ, zero, suc, ◌≡◌, ◌≢◌, sym, ◌∙◌, subst, Bool, true, false, Option, some, List, [], ◌∷◌, arith,
  All,
}
use deskkin.Prelude.Results.{ok, >>=-keeps}
use deskkin.Prelude.Bytes.{Bytes}
use deskkin.Recorder.{DiagnosticRun}
use deskkin.Recorder.Store.{Entry, Store, Disk, Call, find_file, remove_file, publish_health}
use deskkin.Recorder.Store.Files.{remove_file-keeps}
use deskkin.Recorder.Retention.{
  Recorder, Candidate, candidates, only, sort, oldest, older, goes_first, remove_all, evict,
  make_room, rounds, ensure_capacity, enforce_byte_cap, enforce_retention, report,
}
use deskkin.Recorder.Retention.Unretained.{candidates-unretained, candidates-store}
use deskkin.Recorder.Retention.Evictable.{
  Evictable, unretained-Evictable, sort-All, oldest-All, only-All,
}

module _ (name : Bytes) (e : Entry) (r : DiagnosticRun) where
  abbrev pub Holds : Store → Type 0
  Holds store = find_file name store.files ≡ some e

  abbrev pub KeepsFile : {A : Type 0} → Call A → Type 0
  KeepsFile call = (store : Store) → Holds store → Holds (call store).1

  pub remove_file-KeepsFile :
      (disk : Disk) (gone : Bytes) → gone ≢ name → KeepsFile (remove_file disk gone)
  remove_file-KeepsFile disk gone other store h = remove_file-keeps disk name gone store other ∙ h

  module _ (parses : e.run ≡ some r) (kept : r.retained ≡ true) where
    Evictable-other :
        (store : Store) (c : Candidate) → Holds store → Evictable store.files c → c.name ≢ name
    Evictable-other store c h k same = ground arith

    All-other :
        (store : Store) (cs : List Candidate)
        → Holds store
        → All (Evictable store.files) cs
        → All (λ c. c.name ≢ name) cs
    All-other store [] h k = tt
    All-other store (c ∷ cs) h k = (Evictable-other store c h k.0, All-other store cs h k.1)

    -- what is found in a store that holds the run
    candidates-other :
        (disk : Disk) (store : Store) (cs : List Candidate)
        → Holds store
        → (candidates disk store).0 ≡ ok cs
        → All (λ c. c.name ≢ name) cs
    candidates-other disk store cs h found = All-other store cs h (
        subst (All (Evictable store.files)) (sym (candidates-unretained disk store cs found))
          (unretained-Evictable store.files))

    candidates-KeepsFile : (disk : Disk) → KeepsFile (candidates disk)
    candidates-KeepsFile disk store h = subst Holds (sym (candidates-store disk store)) h

    evict-KeepsFile :
        (disk : Disk) (next : Call (Option Bool)) (cs : List Candidate)
        → All (λ c. c.name ≢ name) cs
        → KeepsFile next
        → KeepsFile (evict disk next cs)
    evict-KeepsFile disk next [] others later store h = h
    evict-KeepsFile disk next (c ∷ cs) others later store h =
        let removed = remove_file-KeepsFile disk c.name others.0 store h in
        >>=-keeps Holds (remove_file disk c.name) (λ _. next) store removed
          (λ u. λ k. later _ removed)

    pub make_room-KeepsFile :
        (disk : Disk) (max_bytes required fuel : ℕ)
        → KeepsFile (make_room disk max_bytes required fuel)
    unfolding make_room
    make_room-KeepsFile disk max_bytes required zero store h = h
    make_room-KeepsFile disk max_bytes required (suc fuel) store h =
        let next = make_room disk max_bytes required fuel in
        let later : (cs : List Candidate)
            → (candidates disk store).0 ≡ ok cs
            → Holds (evict disk next (sort goes_first cs) store).1 =
          λ cs. λ found.
            evict-KeepsFile disk next (sort goes_first cs)
              (sort-All _ goes_first cs (candidates-other disk store cs h found))
              (λ s. λ k. make_room-KeepsFile disk max_bytes required fuel s k) store h in
        grind (arith, later, candidates-store disk store)

    remove_all-KeepsFile :
        (disk : Disk) (cs : List Candidate)
        → All (λ c. c.name ≢ name) cs
        → KeepsFile (remove_all disk cs)
    unfolding remove_all
    remove_all-KeepsFile disk [] others store h = h
    remove_all-KeepsFile disk (c ∷ cs) others store h =
        let removed = remove_file-KeepsFile disk c.name others.0 store h in
        >>=-keeps Holds (remove_file disk c.name) (λ _. remove_all disk cs) store removed
          (λ u. λ k. remove_all-KeepsFile disk cs others.1 _ removed)

    report-KeepsFile : (disk : Disk) (room : Option Bool) → KeepsFile (report disk room)
    unfolding publish_health
    report-KeepsFile disk (some false) store h = ground arith
    report-KeepsFile disk _ store h = h

    pub ensure_capacity-KeepsFile :
        (recorder : Recorder) (disk : Disk) (required : ℕ)
        → KeepsFile (ensure_capacity recorder disk required)
    unfolding ensure_capacity
    ensure_capacity-KeepsFile recorder disk required store h =
        make_room-KeepsFile disk recorder.max_bytes required (rounds store) store h

    enforce_byte_cap-KeepsFile :
        (recorder : Recorder) (disk : Disk) → KeepsFile (enforce_byte_cap recorder disk)
    unfolding enforce_byte_cap
    enforce_byte_cap-KeepsFile recorder disk store h =
        let room = make_room disk recorder.max_bytes 0 (rounds store) in
        let made = make_room-KeepsFile disk recorder.max_bytes 0 (rounds store) store h in
        >>=-keeps Holds room (report disk) store made (λ o. λ k. report-KeepsFile disk o _ made)

    pub enforce_retention-KeepsFile :
        (recorder : Recorder) (disk : Disk) → KeepsFile (enforce_retention recorder disk)
    unfolding enforce_retention
    enforce_retention-KeepsFile recorder disk store h =
        let start = candidates-KeepsFile disk store h in
        >>=-keeps Holds (candidates disk) _ store start (λ found. λ k.
          let others = candidates-other disk store found h k in
          let gone =
            λ (outcome : Bool). λ (keep : ℕ). oldest keep (sort older (only outcome found)) in
          let are_others = λ (outcome : Bool). λ (keep : ℕ).
            oldest-All _ keep (sort older (only outcome found))
              (sort-All _ older (only outcome found) (only-All _ outcome found others)) in
          let first =
            remove_all-KeepsFile disk (gone true recorder.success_limit)
              (are_others true recorder.success_limit) _ start in
          >>=-keeps Holds (remove_all disk (gone true recorder.success_limit)) _ _ first (λ u. λ _.
            let second =
              remove_all-KeepsFile disk (gone false recorder.non_success_limit)
                (are_others false recorder.non_success_limit) _ first in
            >>=-keeps Holds (remove_all disk (gone false recorder.non_success_limit)) _ _ second
              (λ v. λ _. enforce_byte_cap-KeepsFile recorder disk _ second)))
