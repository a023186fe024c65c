-- ===== src/Recorder/Retention/Enforced.antt =====
-- What the store is like after retention was enforced.
use deskkin.Prelude.{
  ℕ, zero, suc, ◌≤◌, ◌≡◌, ◌⊎◌, inl, refl, sym, ap, ◌∙◌, subst, Bool, true, false, Option, none,
  some, List, [], ◌∷◌, length, arith,
}
use deskkin.Prelude.Results.{Result, ok, err, proceed, >>=-eq-ok}
use deskkin.Recorder.Store.{Entry, Store, IoError, Disk, Call, remove_file, without, publish_health}
use deskkin.Recorder.Retention.{
  Recorder, Candidate, candidates, only, sort, oldest, older, remove_all, evict, make_room, rounds,
  enforce_byte_cap, enforce_retention, report, exhausted,
}
use deskkin.Recorder.Retention.Unretained.{
  unretained, candidates-unretained, candidates-store, apart, apart_all, unretained-without,
  only-apart, length-apart-le, length-apart_all-oldest, length-apart_all-le,
  length-apart_all-apart_all,
}
use deskkin.Recorder.Retention.Bounded.{number, Fits, Ends, make_room-Ends}

number-without :
    (outcome : Bool) (store : Store) (c : Candidate)
    → number outcome (without c.name store.files) ≤ number outcome store.files
number-without outcome store c =
    rw (unretained-without c.name store.files, only-apart)
      (length-apart-le c.name (only outcome (unretained store.files)))

remove_file-number :
    (disk : Disk) (outcome : Bool) (store : Store) (c : Candidate)
    → number outcome (remove_file disk c.name store).1.files ≤ number outcome store.files
unfolding remove_file
remove_file-number disk outcome store c = ground (arith, number-without outcome store c)

module _ (disk : Disk) (outcome : Bool) where
  evict-number :
      (next : Call (Option Bool)) (cs : List Candidate) (store : Store)
      → ((s : Store) → number outcome (next s).1.files ≤ number outcome s.files)
      → number outcome (evict disk next cs store).1.files ≤ number outcome store.files
  evict-number next [] store h = omega arith
  evict-number next (c ∷ cs) store h =
      ground (arith, remove_file-number disk outcome store c, h (remove_file disk c.name store).1)

  make_room-number :
      (max_bytes required fuel : ℕ) (store : Store)
      → number outcome (make_room disk max_bytes required fuel store).1.files
        ≤ number outcome store.files
  unfolding make_room
  make_room-number max_bytes required zero store = omega arith
  make_room-number max_bytes required (suc fuel) store =
      let next = make_room disk max_bytes required fuel in
      let later : (cs : List Candidate)
          → number outcome (evict disk next cs store).1.files ≤ number outcome store.files =
        λ cs. evict-number next cs store (λ s. make_room-number max_bytes required fuel s) in
      grind (arith, later, candidates-store disk store)

-- there is room, or no run is left that could be removed, which the health record says
abbrev pub Settled : Recorder → Disk → Store → Type 0
Settled recorder disk after =
    Fits disk recorder.max_bytes 0 after.files
    ⊎ ((unretained after.files ≡ []) × (after.health_record ≡ some exhausted))

report-Settled :
    (recorder : Recorder) (disk : Disk) (room : Option Bool) (u : Unit {0}) (store after : Store)
    → Ends disk recorder.max_bytes 0 (ok room) store.files
    → report disk room store ≡ (ok u, after)
    → Settled recorder disk after × (after.files ≡ store.files)
unfolding publish_health
report-Settled recorder disk none u store after h e = absurd h
report-Settled recorder disk (some true) u store after h e =
    let same : store ≡ after = ap (λ p. p.1) e in
    subst (λ s. Settled recorder disk s × (s.files ≡ store.files)) same (inl h, refl)
report-Settled recorder disk (some false) u store after h e = ground arith

settle_lem :
    (recorder : Recorder) (disk : Disk) (result : Result IoError (Option Bool)) (u : Unit {0})
    (store after : Store)
    → Ends disk recorder.max_bytes 0 result store.files
    → proceed (report disk) result store ≡ (ok u, after)
    → Settled recorder disk after × (after.files ≡ store.files)
settle_lem recorder disk (ok room) u store after h e =
    report-Settled recorder disk room u store after h e
settle_lem recorder disk (err x) u store after h e = absurd (cc)

module _ (recorder : Recorder) (disk : Disk) where
  enforce_byte_cap-Settled :
      (store after : Store) (u : Unit {0})
      → enforce_byte_cap recorder disk store ≡ (ok u, after)
      → Settled recorder disk after
        × ((outcome : Bool) → number outcome after.files ≤ number outcome store.files)
  unfolding enforce_byte_cap
  enforce_byte_cap-Settled store after u e =
      let (result, mid) = make_room disk recorder.max_bytes 0 (rounds store) store in
      let ended = make_room-Ends disk recorder.max_bytes 0 (rounds store) store (omega arith) in
      let (settled, same) = settle_lem recorder disk result u mid after ended e in
      (
        settled,
        λ outcome.
            rw same (make_room-number disk outcome recorder.max_bytes 0 (rounds store) store),
      )

  remove_all-unretained :
      (cs : List Candidate) (store after : Store) (u : Unit {0})
      → remove_all disk cs store ≡ (ok u, after)
      → unretained after.files ≡ apart_all cs (unretained store.files)
  unfolding remove_all
  remove_all-unretained [] store after u e = ap (λ p. unretained p.1.files) (sym e)
  remove_all-unretained (c ∷ cs) store after u e =
      let (_, mid, first, rest) =
        >>=-eq-ok (remove_file disk c.name) (λ _. remove_all disk cs) store after u e in
      remove_all-unretained cs mid after u rest ∙ ap (apart_all cs) (removed mid first)
    where
      removed :
          (mid : Store)
          → remove_file disk c.name store ≡ (ok tt, mid)
          → unretained mid.files ≡ apart c.name (unretained store.files)
      removed mid first =
          unfold remove_file in ground (arith, unretained-without c.name store.files)

  only-apart_all :
      (outcome : Bool) (gone cs : List Candidate)
      → only outcome (apart_all gone cs) ≡ apart_all gone (only outcome cs)
  only-apart_all outcome [] cs = refl
  only-apart_all outcome (g ∷ gone) cs =
      only-apart_all outcome gone (apart g.name cs)
      ∙ ap (apart_all gone) (only-apart outcome g.name cs)

  number-apart_all :
      (outcome : Bool) (gone more cs : List Candidate) (files : List Entry)
      → unretained files ≡ apart_all gone (apart_all more cs)
      → number outcome files ≡ length (apart_all gone (apart_all more (only outcome cs)))
  number-apart_all outcome gone more cs files e =
      ap (λ x. length (only outcome x)) e
      ∙ ap length (only-apart_all outcome gone (apart_all more cs))
      ∙ ap (λ x. length (apart_all gone x)) (only-apart_all outcome more cs)

  -- both kinds are cut back, one after the other
  cut_lem :
      (found : List Candidate) (files : List Entry)
      → unretained files
        ≡ apart_all
            (oldest recorder.non_success_limit (sort older (only false found)))
            (apart_all (oldest recorder.success_limit (sort older (only true found))) found)
      → (number true files ≤ recorder.success_limit)
        × (number false files ≤ recorder.non_success_limit)
  cut_lem found files e =
      let failures = only false found in
      let successes = only true found in
      let gone = oldest recorder.non_success_limit (sort older failures) in
      let more = oldest recorder.success_limit (sort older successes) in
      (
        omega (
          arith,
          number-apart_all true gone more found files e,
          length-apart_all-le gone (apart_all more successes),
          length-apart_all-oldest older recorder.success_limit successes,
        ),
        omega (
          arith,
          number-apart_all false gone more found files e,
          length-apart_all-apart_all gone more failures,
          length-apart_all-oldest older recorder.non_success_limit failures,
        ),
      )

  -- When retention was enforced without an error, no more runs that are not retained are left than the
  -- recorder's limits, of successes and of the others; and the files fit the recorder's bytes, or all
  -- runs that are left are retained, and then the health record says that the capacity is exhausted.
  pub enforce_retention-IsBounded :
      (store after : Store) (u : Unit {0})
      → enforce_retention recorder disk store ≡ (ok u, after)
      → (number true after.files ≤ recorder.success_limit)
        × (number false after.files ≤ recorder.non_success_limit)
        × Settled recorder disk after
  unfolding enforce_retention
  enforce_retention-IsBounded store after u h =
      let old = λ (outcome : Bool).
        λ (keep : ℕ). λ (cs : List Candidate). oldest keep (sort older (only outcome cs)) in
      let (found, s0, e0, k0) = >>=-eq-ok (candidates disk) _ store after u h in
      let more = old true recorder.success_limit found in
      let gone = old false recorder.non_success_limit found in
      let (_, s1, e1, k1) = >>=-eq-ok (remove_all disk more) _ s0 after u k0 in
      let (_, s2, e2, k2) = >>=-eq-ok (remove_all disk gone) _ s1 after u k1 in
      let start : unretained s0.files ≡ found =
        ap (λ p. unretained p.1.files) (sym e0)
        ∙ ap (λ s. unretained s.files) (candidates-store disk store)
        ∙ sym (candidates-unretained disk store found (ap (λ p. p.0) e0)) in
      let left : unretained s2.files ≡ apart_all gone (apart_all more found) =
        remove_all-unretained gone s1 s2 tt e2
        ∙ ap (apart_all gone)
            (remove_all-unretained more s0 s1 tt e1 ∙ ap (apart_all more) start) in
      let (settled, fewer) = enforce_byte_cap-Settled s2 after u k2 in
      let (successes, failures) = cut_lem found s2.files left in
      (omega (arith, fewer true, successes), omega (arith, fewer false, failures), settled)
