-- ===== src/Recorder/Retention/Evictable.antt =====
-- The candidates are runs in the directory that are not retained.
use deskkin.Prelude.{
  ℕ, zero, suc, ◌-◌, ◌≡◌, ◌≢◌, refl, subst, Bool, false, Option, none, some, List, [], ◌∷◌, length,
  take, arith, All,
}
use deskkin.Prelude.Bytes.{Bytes}
use deskkin.Recorder.{DiagnosticRun}
use deskkin.Recorder.Store.{Entry, find_file}
use deskkin.Recorder.Retention.{Candidate, candidate, only, insert, sort, oldest}
use deskkin.Recorder.Retention.Unretained.{run_in, loose, jsons, unretained}

abbrev pub IsLoose : Option DiagnosticRun → Type 0
IsLoose none = ⊥
IsLoose (some run) = run.retained ≡ false

abbrev pub Evictable : List Entry → Candidate → Type 0
Evictable files c = IsLoose (run_in (find_file c.name files))

candidate-Evictable :
    (files : List Entry) (name : Bytes) (run : Option DiagnosticRun) (rest : List Candidate)
    → run ≡ run_in (find_file name files)
    → All (Evictable files) rest
    → All (Evictable files) (candidate name run rest)
candidate-Evictable files name none rest e h = h
candidate-Evictable files name (some run) rest e h =
    ground (arith, λ (k : run.retained ≡ false). subst IsLoose e k)

loose-Evictable :
    (files : List Entry) (names : List Bytes) → All (Evictable files) (loose files names)
loose-Evictable files [] = tt
loose-Evictable files (name ∷ names) =
    candidate-Evictable files name (run_in (find_file name files)) (loose files names) refl
      (loose-Evictable files names)

pub unretained-Evictable : (files : List Entry) → All (Evictable files) (unretained files)
unretained-Evictable files = loose-Evictable files (jsons files)

module _ (P : Candidate → Type 0) where
  insert-All :
      (before : Candidate → Candidate → Bool) (x : Candidate) (cs : List Candidate)
      → P x
      → All P cs
      → All P (insert before x cs)
  unfolding insert
  insert-All before x [] px h = (px, tt)
  insert-All before x (c ∷ cs) px h = ground (arith, insert-All before x cs px h.1)

  pub sort-All :
      (before : Candidate → Candidate → Bool) (cs : List Candidate)
      → All P cs
      → All P (sort before cs)
  unfolding sort
  sort-All before [] h = tt
  sort-All before (c ∷ cs) h = insert-All before c (sort before cs) h.0 (sort-All before cs h.1)

  take-All : (k : ℕ) (cs : List Candidate) → All P cs → All P (take k cs)
  take-All zero cs h = tt
  take-All (suc k) [] h = tt
  take-All (suc k) (c ∷ cs) h = (h.0, take-All k cs h.1)

  pub oldest-All : (keep : ℕ) (cs : List Candidate) → All P cs → All P (oldest keep cs)
  oldest-All keep cs h = take-All (length cs - keep) cs h

  pub only-All : (outcome : Bool) (cs : List Candidate) → All P cs → All P (only outcome cs)
  only-All outcome [] h = tt
  only-All outcome (c ∷ cs) h = ground (arith, only-All outcome cs h.1)

pub Evictable-find_file :
    (files : List Entry) (c : Candidate) → Evictable files c → find_file c.name files ≢ none
Evictable-find_file files c h = ground arith
