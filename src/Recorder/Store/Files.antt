-- ===== src/Recorder/Store/Files.antt =====
-- Files by their names: what removing or writing one does to the others.
use deskkin.Prelude.{◌<◌, ◌≤◌, ◌≡◌, ◌≢◌, refl, none, List, [], ◌∷◌, length, arith}
use deskkin.Prelude.Bytes.{Bytes, same_bytes_iff}
use deskkin.Recorder.Store.{
  Entry, Store, Disk, remove_file, atomic_write, find_file, without, with_file,
}

pub find_file-without :
    (name gone : Bytes) (es : List Entry)
    → gone ≢ name
    → find_file name (without gone es) ≡ find_file name es
find_file-without name gone [] h = refl
find_file-without name gone (e ∷ es) h = ground (
  arith,
  find_file-without name gone es h,
  same_bytes_iff e.name gone,
  same_bytes_iff e.name name,
)

pub find_file-with_file :
    (name : Bytes) (file : Entry) (es : List Entry)
    → file.name ≢ name
    → find_file name (with_file file es) ≡ find_file name es
find_file-with_file name file [] h = ground (arith, same_bytes_iff file.name name)
find_file-with_file name file (e ∷ es) h = ground (
  arith,
  find_file-with_file name file es h,
  same_bytes_iff e.name file.name,
  same_bytes_iff e.name name,
  same_bytes_iff file.name name,
)

length-without-le : (name : Bytes) (es : List Entry) → length (without name es) ≤ length es
length-without-le name [] = omega arith
length-without-le name (e ∷ es) = ground (arith, length-without-le name es)

-- removing a file that is there
pub length-without-lt :
    (name : Bytes) (es : List Entry)
    → find_file name es ≢ none
    → length (without name es) < length es
length-without-lt name [] h = absurd (h refl)
length-without-lt name (e ∷ es) h =
    ground (arith, length-without-lt name es, length-without-le name es)

-- a call on one file leaves the others
pub remove_file-keeps :
    (disk : Disk) (name gone : Bytes) (store : Store)
    → gone ≢ name
    → find_file name (remove_file disk gone store).1.files ≡ find_file name store.files
unfolding remove_file
remove_file-keeps disk name gone store h = ground (arith, find_file-without name gone store.files h)

pub atomic_write-keeps :
    (disk : Disk) (name : Bytes) (file : Entry) (store : Store)
    → file.name ≢ name
    → find_file name (atomic_write disk file store).1.files ≡ find_file name store.files
unfolding atomic_write
atomic_write-keeps disk name file store h =
    ground (arith, find_file-with_file name file store.files h)
