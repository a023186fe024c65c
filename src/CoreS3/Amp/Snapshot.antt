-- ===== src/CoreS3/Amp/Snapshot.antt =====
-- `decode_amp_world_snapshot` of crates/deskkin-core-s3/src/lib.rs: what the application core shows
-- the rendering core. The yaw is the 64-bit pattern of an i64, which is only copied.
pub mod Fields
pub mod Stable
use Prim.Native.Nat.{bit_and}
use deskkin.Prelude.{
  ℕ, ◌+◌, ◌*◌, ◌-◌, ◌^◌, Bool, true, false, not, ◌||◌, Option, none, some, List, [], ◌∷◌, get_or,
  ◌==◌, ltb, leb, if◌then◌else◌,
}
use deskkin.Prelude.Results.{Result, ok, err}
use deskkin.Prelude.Fallible.{◌>>=◌, ◌>>◌}
use deskkin.Prelude.Bytes.{Bytes}
use deskkin.Prelude.Slices.{slice}

pub data AmpTextureFilter : Type 0 where
  nearest bilinear : AmpTextureFilter

pub record AmpWorldSnapshot : Type 0 where
  pub generation : ℕ
  pub observed_yaw : ℕ
  pub sas : Option ℕ
  pub shell : ℕ
  pub availability : Option ℕ
  pub notice : Option ℕ
  pub availability_filter : AmpTextureFilter
  pub notice_filter : AmpTextureFilter

pub data AmpSnapshotError : Type 0 where
  unpublished unstable unknown_schema invalid_magic generation_mismatch : AmpSnapshotError
  invalid_semantic_value : AmpSnapshotError

abbrev pub amp_world_magic : ℕ
amp_world_magic = 0x4453_574c

abbrev pub amp_world_schema : ℕ
amp_world_schema = 2

abbrev pub value_mask : ℕ
value_mask = 0x7f

abbrev pub filter_bilinear : ℕ
filter_bilinear = 0x80

-- `from_le_bytes`
unfoldable pub from_le : Bytes → ℕ
from_le [] = 0
from_le (b ∷ bs) = b + 256 * from_le bs

abbrev pub availability_of : ℕ → Result AmpSnapshotError (Option ℕ)
availability_of value =
    if value == 0
    then ok none
    else if leb value 3
    then ok (some value)
    else err invalid_semantic_value

abbrev pub notice_of : ℕ → Result AmpSnapshotError (Option ℕ)
notice_of value =
    if value == 0 then ok none else if value == 1 then ok (some 1) else err invalid_semantic_value

abbrev pub filter_of : ℕ → AmpTextureFilter
filter_of value = if not (bit_and value filter_bilinear == 0) then bilinear else nearest

-- what the decoder reads once the publication, the magic and the schema are right
unfoldable pub decode_values : ℕ → Bytes → Result AmpSnapshotError AmpWorldSnapshot
unfolding from_le
decode_values generation payload = do
  availability ← availability_of (bit_and (get_or payload 22 0) value_mask)
  notice ← notice_of (bit_and (get_or payload 23 0) value_mask)
  let sas = from_le (slice 16 4 payload)
  if ltb 4 (get_or payload 21 0)
      then err invalid_semantic_value
      else ok (record {
        generation = generation;
        observed_yaw = from_le (slice 8 8 payload);
        sas = if sas == 2 ^ 32 - 1 then none else some sas;
        shell = get_or payload 21 0;
        availability = availability;
        notice = notice;
        availability_filter = filter_of (get_or payload 22 0);
        notice_filter = filter_of (get_or payload 23 0);
      })

unfoldable pub decode_amp_world_snapshot : ℕ → Bytes → ℕ → Result AmpSnapshotError AmpWorldSnapshot
unfolding decode_values
decode_amp_world_snapshot publication_before payload publication_after =
    if publication_before == 0 || publication_after == 0
    then err unpublished
    else if not (publication_before == publication_after)
    then err unstable
    else if not (from_le (slice 0 4 payload) == amp_world_magic)
    then err invalid_magic
    else if not (from_le (slice 4 4 payload) == publication_before)
    then err generation_mismatch
    else if not (get_or payload 20 0 == amp_world_schema)
    then err unknown_schema
    else decode_values (from_le (slice 4 4 payload)) payload
