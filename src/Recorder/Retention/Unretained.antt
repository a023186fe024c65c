-- ===== src/Recorder/Retention/Unretained.antt =====
-- The runs of a directory that may be removed, as a function of its files, and how removing files and
-- sorting change their numbers.
use deskkin.Prelude.{
  ℕ, zero, suc, ◌+◌, ◌-◌, ◌≤◌, ◌≡◌, refl, sym, ap, ◌∙◌, Bool, true, false, Option, none, some, List,
  [], ◌∷◌, length, take, arith, if◌then◌else◌,
}
use deskkin.Prelude.Results.{ok}
use deskkin.Prelude.Bytes.{Bytes, same_bytes, same_bytes_iff}
use deskkin.Recorder.{DiagnosticRun}
use deskkin.Recorder.Store.{
  Entry, Store, Disk, find_file, without, is_json, json_names, private_json_entries, read_run,
}
use deskkin.Recorder.Store.Files.{find_file-without}
use deskkin.Recorder.Retention.{
  Candidate, candidate, candidates_of, candidates, only, insert, sort, oldest,
}

abbrev pub run_in : Option Entry → Option DiagnosticRun
run_in none = none
run_in (some e) = e.run

abbrev pub loose : List Entry → List Bytes → List Candidate
loose files [] = []
loose files (name ∷ names) = candidate name (run_in (find_file name files)) (loose files names)

abbrev pub jsons : List Entry → List Bytes
jsons [] = []
jsons (e ∷ es) = if is_json e.kind then e.name ∷ jsons es else jsons es

abbrev pub unretained : List Entry → List Candidate
unretained files = loose files (jsons files)

json_names-jsons :
    (es : List Entry) (names : List Bytes) → json_names es ≡ ok names → names ≡ jsons es
unfolding json_names
json_names-jsons [] names h = ground arith
json_names-jsons (e ∷ es) names h = grind (arith, json_names-jsons es)

candidates_of-loose :
    (disk : Disk) (files : List Entry) (names : List Bytes) (cs : List Candidate)
    → candidates_of disk files names ≡ ok cs
    → cs ≡ loose files names
unfolding candidates_of read_run
candidates_of-loose disk files [] cs h = ground arith
candidates_of-loose disk files (name ∷ names) cs h =
    grind (arith, candidates_of-loose disk files names)

pub candidates-unretained :
    (disk : Disk) (store : Store) (cs : List Candidate)
    → (candidates disk store).0 ≡ ok cs
    → cs ≡ unretained store.files
unfolding candidates private_json_entries
candidates-unretained disk store cs h =
    grind (arith, json_names-jsons store.files, candidates_of-loose disk store.files)

pub candidates-store : (disk : Disk) (store : Store) → (candidates disk store).1 ≡ store
unfolding candidates
candidates-store disk store = ground arith

-- the candidates that are not in a file of that name
abbrev pub apart : Bytes → List Candidate → List Candidate
apart name [] = []
apart name (c ∷ cs) = if same_bytes c.name name then apart name cs else c ∷ apart name cs

abbrev other_names : Bytes → List Bytes → List Bytes
other_names gone [] = []
other_names gone (name ∷ names) =
    if same_bytes name gone then other_names gone names else name ∷ other_names gone names

jsons-without :
    (gone : Bytes) (es : List Entry) → jsons (without gone es) ≡ other_names gone (jsons es)
jsons-without gone [] = refl
jsons-without gone (e ∷ es) = ground (arith, jsons-without gone es)

loose-other_names :
    (gone : Bytes) (files : List Entry) (names : List Bytes)
    → loose (without gone files) (other_names gone names) ≡ apart gone (loose files names)
loose-other_names gone files [] = refl
loose-other_names gone files (name ∷ names) = ground (
  arith,
  loose-other_names gone files names,
  same_bytes_iff name gone,
  find_file-without name gone files,
)

pub unretained-without :
    (gone : Bytes) (files : List Entry)
    → unretained (without gone files) ≡ apart gone (unretained files)
unretained-without gone files =
    ap (loose (without gone files)) (jsons-without gone files)
    ∙ loose-other_names gone files (jsons files)

pub only-apart :
    (outcome : Bool) (gone : Bytes) (cs : List Candidate)
    → only outcome (apart gone cs) ≡ apart gone (only outcome cs)
only-apart outcome gone [] = refl
only-apart outcome gone (c ∷ cs) = ground (arith, only-apart outcome gone cs)

pub length-apart-le : (gone : Bytes) (cs : List Candidate) → length (apart gone cs) ≤ length cs
length-apart-le gone [] = omega arith
length-apart-le gone (c ∷ cs) = ground (arith, length-apart-le gone cs)

-- without the files of all the first candidates
abbrev pub apart_all : List Candidate → List Candidate → List Candidate
apart_all [] cs = cs
apart_all (g ∷ gone) cs = apart_all gone (apart g.name cs)

abbrev in_any : List Candidate → Candidate → Bool
in_any [] c = false
in_any (g ∷ gone) c = if same_bytes c.name g.name then true else in_any gone c

-- how many are in none of the files
abbrev left_of : List Candidate → List Candidate → ℕ
left_of gone [] = 0
left_of gone (c ∷ cs) = (if in_any gone c then 0 else 1) + left_of gone cs

left_of-cons :
    (g : Candidate) (gone cs : List Candidate)
    → left_of gone (apart g.name cs) ≡ left_of (g ∷ gone) cs
left_of-cons g gone [] = refl
left_of-cons g gone (c ∷ cs) = ground (arith, left_of-cons g gone cs)

left_of-nil : (cs : List Candidate) → left_of [] cs ≡ length cs
left_of-nil [] = refl
left_of-nil (c ∷ cs) = omega (arith, left_of-nil cs)

length-apart_all : (gone cs : List Candidate) → length (apart_all gone cs) ≡ left_of gone cs
length-apart_all [] cs = sym (left_of-nil cs)
length-apart_all (g ∷ gone) cs = length-apart_all gone (apart g.name cs) ∙ left_of-cons g gone cs

left_of-le : (gone cs : List Candidate) → left_of gone cs ≤ length cs
left_of-le gone [] = omega arith
left_of-le gone (c ∷ cs) = ground (arith, left_of-le gone cs)

left_of-more : (g : Candidate) (gone cs : List Candidate) → left_of (g ∷ gone) cs ≤ left_of gone cs
left_of-more g gone [] = omega arith
left_of-more g gone (c ∷ cs) = ground (arith, left_of-more g gone cs)

module _ (before : Candidate → Candidate → Bool) (gone : List Candidate) where
  left_of-insert :
      (x : Candidate) (cs : List Candidate)
      → left_of gone (insert before x cs) ≡ left_of gone (x ∷ cs)
  unfolding insert
  left_of-insert x [] = refl
  left_of-insert x (c ∷ cs) = ground (arith, left_of-insert x cs)

  left_of-sort : (cs : List Candidate) → left_of gone (sort before cs) ≡ left_of gone cs
  unfolding sort
  left_of-sort [] = refl
  left_of-sort (c ∷ cs) = omega (arith, left_of-insert c (sort before cs), left_of-sort cs)

-- of the first k candidates, none is left without their files
left_of-take : (k : ℕ) (cs : List Candidate) → left_of (take k cs) cs ≤ length cs - k
left_of-take zero cs = omega (arith, left_of-nil cs)
left_of-take (suc k) [] = omega arith
left_of-take (suc k) (c ∷ cs) =
    ground (arith, left_of-more c (take k cs) cs, left_of-take k cs, same_bytes_iff c.name c.name)

pub length-sort :
    (before : Candidate → Candidate → Bool) (cs : List Candidate)
    → length (sort before cs) ≡ length cs
length-sort before cs =
    sym (left_of-nil (sort before cs)) ∙ left_of-sort before [] cs ∙ left_of-nil cs

-- removing the oldest leaves no more than are kept
pub length-apart_all-oldest :
    (before : Candidate → Candidate → Bool) (keep : ℕ) (cs : List Candidate)
    → length (apart_all (oldest keep (sort before cs)) cs) ≤ keep
length-apart_all-oldest before keep cs =
    let gone = oldest keep (sort before cs) in
    omega (
      arith,
      length-apart_all gone cs,
      left_of-sort before gone cs,
      length-sort before cs,
      left_of-take (length (sort before cs) - keep) (sort before cs),
      left_of-le gone cs,
    )

pub length-apart_all-le : (gone cs : List Candidate) → length (apart_all gone cs) ≤ length cs
length-apart_all-le gone cs = omega (arith, length-apart_all gone cs, left_of-le gone cs)

left_of-apart :
    (gone : List Candidate) (name : Bytes) (cs : List Candidate)
    → left_of gone (apart name cs) ≤ left_of gone cs
left_of-apart gone name [] = omega arith
left_of-apart gone name (c ∷ cs) = ground (arith, left_of-apart gone name cs)

left_of-apart_all :
    (gone more cs : List Candidate) → left_of gone (apart_all more cs) ≤ left_of gone cs
left_of-apart_all gone [] cs = omega arith
left_of-apart_all gone (g ∷ more) cs =
    omega (arith, left_of-apart_all gone more (apart g.name cs), left_of-apart gone g.name cs)

pub length-apart_all-apart_all :
    (gone more cs : List Candidate)
    → length (apart_all gone (apart_all more cs)) ≤ length (apart_all gone cs)
length-apart_all-apart_all gone more cs = omega (
  arith,
  length-apart_all gone (apart_all more cs),
  length-apart_all gone cs,
  left_of-apart_all gone more cs,
)
