-- ===== src/CoreS3/Records.antt =====
-- Records in flash: `encode_record`, `decode_record` and `select_slot` of
-- crates/deskkin-core-s3/src/lib.rs.
pub mod Image
pub mod Storage
use deskkin.Prelude.{
  ℕ, ◌+◌, ◌*◌, ◌^◌, Bool, true, false, not, ◌&&◌, ◌||◌, Option, none, some, List, [], ◌∷◌, ◌++◌,
  length, drop, replicate, get_or, ◌==◌, ltb, leb, if◌then◌else◌,
}
use deskkin.Prelude.Results.{Result, ok, err, Method}
use deskkin.Prelude.Fallible.{◌>>=◌, ◌>>◌}
use deskkin.Prelude.Bytes.{Bytes, from_be, to_be, same_bytes}
use deskkin.Prelude.Slices.{slice}
use deskkin.CoreS3.{
  schema_version, nvs_header_len, nvs_payload_max, DecodeError, truncated, oversize, unknown_schema,
  unknown_state, invalid_length, invalid_crc, conflicting_slots,
}
use deskkin.CoreS3.Crc.{crc32, crc32_update, complement, u32_max}

pub data PeerState : Type 0 where
  unpaired pending committing paired revoking : PeerState

pub data RecordState : Type 0 where
  identity : PeerState → RecordState
  config_present config_cleared : RecordState

-- `as u8`
abbrev pub peer_u8 : PeerState → ℕ
peer_u8 unpaired = 0
peer_u8 pending = 1
peer_u8 committing = 2
peer_u8 paired = 3
peer_u8 revoking = 4

abbrev pub wire : RecordState → ℕ
wire (identity state) = peer_u8 state
wire config_present = 0x10
wire config_cleared = 0x11

abbrev pub peer_of : ℕ → Result DecodeError PeerState
peer_of value =
    if value == 0
    then ok unpaired
    else if value == 1
    then ok pending
    else if value == 2
    then ok committing
    else if value == 3
    then ok paired
    else if value == 4
    then ok revoking
    else err unknown_state

abbrev pub state_of : ℕ → Result DecodeError RecordState
state_of value =
    if leb value 4
    then (do state ← peer_of value; ok (identity state))
    else if value == 0x10
    then ok config_present
    else if value == 0x11
    then ok config_cleared
    else err unknown_state

pub record RecordRef : Type 0 where
  pub publication_sequence : ℕ
  pub generation : ℕ
  pub state : RecordState
  pub payload : Bytes

-- the record with a given checksum in its place
unfoldable pub image : RecordRef → ℕ → Bytes
image r crc =
    schema_version
    ∷ wire r.state
    ∷ (to_be 2 (length r.payload)
        ++ (to_be 8 r.publication_sequence ++ (to_be 8 r.generation ++ (to_be 4 crc ++ r.payload))))

-- The checksum is that of the record with zeros in its place.
unfoldable pub sealed : RecordRef → Bytes
sealed r = image r (crc32 (image r 0))

-- The state is the caller's buffer; the result is the number of bytes written to its start. The
-- payload's length fits 16 bits once the guard has passed.
unfoldable pub encode_record : RecordRef → Method DecodeError Bytes ℕ
unfolding sealed
encode_record r output =
    if ltb nvs_payload_max (length r.payload)
      || ltb (length output) (nvs_header_len + length r.payload)
    then (err oversize, output)
    else (
      ok (nvs_header_len + length r.payload),
      sealed r ++ drop (nvs_header_len + length r.payload) output,
    )

-- the checksum that `decode_record` computes, over the header with zeros in its place
unfoldable pub record_crc : Bytes → ℕ
record_crc input = complement (
    crc32_update (crc32_update u32_max (slice 0 20 input ++ replicate 4 0))
      (drop nvs_header_len input))

-- the checks of `decode_record` after the state
decode_fields : RecordState → Bytes → Result DecodeError RecordRef
decode_fields state input =
    let len = from_be 0 (slice 2 2 input) in
    if ltb nvs_payload_max len || not (length input == nvs_header_len + len)
    then err invalid_length
    else if not (record_crc input == from_be 0 (slice 20 4 input))
    then err invalid_crc
    else ok (record {
      publication_sequence = from_be 0 (slice 4 8 input);
      generation = from_be 0 (slice 12 8 input);
      state = state;
      payload = drop nvs_header_len input;
    })

unfoldable pub decode_record : Bytes → Result DecodeError RecordRef
unfolding decode_fields
decode_record input =
    if ltb (length input) nvs_header_len
    then err truncated
    else if not (get_or input 0 0 == schema_version)
    then err unknown_schema
    else (do state ← state_of (get_or input 1 0); decode_fields state input)

abbrev pub same_state : RecordState → RecordState → Bool
same_state a b = wire a == wire b

-- the equality that `select_slot` tests at equal sequence numbers
abbrev pub same_record : RecordRef → RecordRef → Bool
same_record left right =
    left.generation == right.generation
    && same_state left.state right.state
    && same_bytes left.payload right.payload

-- `.map(decode_record).transpose()?`
pub decode_slot : Option Bytes → Result DecodeError (Option RecordRef)
decode_slot none = ok none
decode_slot (some input) = do r ← decode_record input; ok (some r)

unfoldable pub select : Option RecordRef → Option RecordRef → Result DecodeError (Option RecordRef)
select none none = ok none
select (some value) none = ok (some value)
select none (some value) = ok (some value)
select (some left) (some right) =
    if ltb right.publication_sequence left.publication_sequence
    then ok (some left)
    else if ltb left.publication_sequence right.publication_sequence
    then ok (some right)
    else if same_record left right
    then ok (some left)
    else err conflicting_slots

unfoldable pub select_slot : Option Bytes → Option Bytes → Result DecodeError (Option RecordRef)
unfolding decode_slot
select_slot first second = do
  left ← decode_slot first
  right ← decode_slot second
  select left right
