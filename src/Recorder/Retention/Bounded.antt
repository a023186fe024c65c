-- ===== src/Recorder/Retention/Bounded.antt =====
-- Making room ends, and what the store is like after it and after retention was enforced.
use deskkin.Prelude.{
  ℕ, zero, suc, ◌<◌, ◌≤◌, ◌≡◌, refl, sym, ap, ◌∙◌, subst, Bool, true, false, Option, none, some,
  List, [], ◌∷◌, length, arith, All,
}
use deskkin.Prelude.Results.{Result, ok, err}
use deskkin.Recorder.Store.{
  Entry, Store, IoError, Disk, Call, remove_file, without, directory_bytes, saturating_add,
}
use deskkin.Recorder.Store.Files.{length-without-lt}
use deskkin.Recorder.Retention.{
  Recorder, Candidate, candidates, only, sort, goes_first, evict, make_room, rounds,
  ensure_capacity,
}
use deskkin.Recorder.Retention.Unretained.{
  unretained, candidates-unretained, candidates-store, length-sort,
}
use deskkin.Recorder.Retention.Evictable.{
  Evictable, Evictable-find_file, unretained-Evictable, sort-All,
}

-- how many runs that are not retained have succeeded, or not
abbrev pub number : Bool → List Entry → ℕ
number outcome files = length (only outcome (unretained files))

-- the files fit, with so many bytes more
abbrev pub Fits : Disk → ℕ → ℕ → List Entry → Type 0
Fits disk max_bytes required files =
    (total : ℕ) × (directory_bytes disk files ≡ ok total)
    × (saturating_add total required ≤ max_bytes)

-- the result of making room
abbrev pub Ends : Disk → ℕ → ℕ → Result IoError (Option Bool) → List Entry → Type 0
Ends disk max_bytes required (ok (some true)) files = Fits disk max_bytes required files
Ends disk max_bytes required (ok (some false)) files = unretained files ≡ []
Ends disk max_bytes required (ok none) files = ⊥
Ends disk max_bytes required (err _) files = Unit {0}

module _ (disk : Disk) (max_bytes required : ℕ) where
  abbrev pub EndsWith : Result IoError (Option Bool) × Store → Type 0
  EndsWith (result, after) = Ends disk max_bytes required result after.files

  evict-Ends :
      (next : Call (Option Bool)) (cs : List Candidate) (store : Store)
      → (cs ≡ [] → unretained store.files ≡ [])
      → All (Evictable store.files) cs
      → ((s : Store) → length s.files < length store.files → EndsWith (next s))
      → EndsWith (evict disk next cs store)
  unfolding remove_file
  evict-Ends next [] store none_left h later = none_left refl
  evict-Ends next (c ∷ cs) store none_left h later =
      let fewer = length-without-lt c.name store.files (Evictable-find_file store.files c h.0) in
      let ended = later (record store { files = without c.name store.files }) fewer in
      ground (arith)

  sort-nil : (cs : List Candidate) → sort goes_first cs ≡ [] → cs ≡ []
  sort-nil [] h = refl
  sort-nil (c ∷ cs) h = absurd (omega (arith, length-sort goes_first (c ∷ cs), ap length h))

  pub make_room-Ends :
      (fuel : ℕ) (store : Store)
      → length store.files < fuel
      → EndsWith (make_room disk max_bytes required fuel store)
  unfolding make_room
  make_room-Ends zero store h = absurd (omega arith)
  make_room-Ends (suc fuel) store h =
      let next = make_room disk max_bytes required fuel in
      let later : (cs : List Candidate)
          → (candidates disk store).0 ≡ ok cs
          → EndsWith (evict disk next (sort goes_first cs) store) =
        λ cs. λ e.
          let same = candidates-unretained disk store cs e in
          evict-Ends next (sort goes_first cs) store (λ k. sym same ∙ sort-nil cs k)
            (sort-All (Evictable store.files) goes_first cs
              (subst (All (Evictable store.files)) (sym same) (unretained-Evictable store.files)))
            (λ s. λ fewer. make_room-Ends fuel s (omega arith)) in
      grind (arith, later, candidates-store disk store)

-- Making room for a run always ends: with an error of the disk, with room for the run, or with only
-- retained runs left. The rounds, one more than there are files, never run out.
pub ensure_capacity-Ends :
    (recorder : Recorder) (disk : Disk) (required : ℕ) (store : Store)
    → EndsWith disk recorder.max_bytes required (ensure_capacity recorder disk required store)
unfolding ensure_capacity
ensure_capacity-Ends recorder disk required store =
    make_room-Ends disk recorder.max_bytes required (rounds store) store (omega arith)
