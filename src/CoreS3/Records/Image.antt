-- ===== src/CoreS3/Records/Image.antt =====
-- Decoding the bytes of a record with any checksum in its place.
use deskkin.Prelude.Slices.{drop-here}
use mathlib.Core.List.{append_assoc}
use deskkin.Prelude.{
  ℕ, ◌+◌, ◌^◌, ◌<◌, ◌≤◌, ◌≡◌, refl, sym, ap, ◌∙◌, false, [], ◌∷◌, ◌++◌, length, drop, replicate,
  get_or, ◌==◌, ltb, if◌then◌else◌, length-append, All-append, arith,
}
use deskkin.Prelude.Results.{ok, err}
use deskkin.Prelude.Bytes.{
  Bytes, IsByte, AreBytes, from_be, to_be, length-to_be, from_be-to_be, to_be-AreBytes,
}
use deskkin.Prelude.Slices.{slice, slice-here, slice-past}
use deskkin.CoreS3.{schema_version, nvs_header_len, nvs_payload_max, invalid_crc}
use deskkin.CoreS3.Crc.{crc32, crc32_update, crc32_update-append, complement, u32_max}
use deskkin.CoreS3.Records.{
  RecordState, identity, config_present, config_cleared, unpaired, pending, committing, paired,
  revoking, wire, state_of, RecordRef, image, record_crc, decode_record, decode_fields,
}

-- the sizes that the Rust types give to the fields, and the bound that `encode_record` checks
pub record IsRecord (r : RecordRef) : Type 0 where
  pub sequence_fits : r.publication_sequence < 2 ^ 64
  pub generation_fits : r.generation < 2 ^ 64
  pub payload_fits : length r.payload ≤ nvs_payload_max
  pub payload_bytes : AreBytes r.payload

wire-state_of : (state : RecordState) → state_of (wire state) ≡ ok state
wire-state_of (identity unpaired) = refl
wire-state_of (identity pending) = refl
wire-state_of (identity committing) = refl
wire-state_of (identity paired) = refl
wire-state_of (identity revoking) = refl
wire-state_of config_present = refl
wire-state_of config_cleared = refl

pub wire-lt : (state : RecordState) → wire state < 256
wire-lt state = ground arith

-- the part of the header before the checksum
pub head : RecordRef → Bytes
head r =
    schema_version
    ∷ wire r.state
    ∷ (to_be 2 (length r.payload) ++ (to_be 8 r.publication_sequence ++ to_be 8 r.generation))

pub length-head : (r : RecordRef) → length (head r) ≡ 20
unfolding head
length-head r =
    let l = to_be 2 (length r.payload) in
    let s = to_be 8 r.publication_sequence in
    let g = to_be 8 r.generation in
    omega (
      arith,
      length-append l (s ++ g),
      length-append s g,
      length-to_be 2 (length r.payload),
      length-to_be 8 r.publication_sequence,
      length-to_be 8 r.generation,
    )

pub image-head : (r : RecordRef) (crc : ℕ) → image r crc ≡ head r ++ (to_be 4 crc ++ r.payload)
unfolding image head
image-head r crc = simp append_assoc

head-AreBytes : (r : RecordRef) → AreBytes (head r)
unfolding head
head-AreBytes r =
    let s = to_be 8 r.publication_sequence in
    let g = to_be 8 r.generation in
    let numbers =
      All-append IsByte (to_be 2 (length r.payload)) (s ++ g) (to_be-AreBytes 2 (length r.payload))
        (All-append IsByte s g (to_be-AreBytes 8 r.publication_sequence)
          (to_be-AreBytes 8 r.generation)) in
    (omega arith, (wire-lt r.state, numbers))

pub image-AreBytes : (r : RecordRef) (crc : ℕ) → AreBytes r.payload → AreBytes (image r crc)
image-AreBytes r crc h = rw (image-head r crc) (
    All-append IsByte (head r) (to_be 4 crc ++ r.payload) (head-AreBytes r)
      (All-append IsByte (to_be 4 crc) r.payload (to_be-AreBytes 4 crc) h))

zeros : to_be 4 0 ≡ replicate 4 0
unfolding to_be
zeros = refl

module _ (r : RecordRef) (crc : ℕ) where
  pub length-image : length (image r crc) ≡ 24 + length r.payload
  length-image = rw (image-head r crc) (
      omega (
        arith,
        length-append (head r) (to_be 4 crc ++ r.payload),
        length-append (to_be 4 crc) r.payload,
        length-head r,
        length-to_be 4 crc,
      ))

  drop-image : drop nvs_header_len (image r crc) ≡ r.payload
  drop-image =
      rw (image-head r crc, ← append_assoc (head r) (to_be 4 crc) r.payload)
        (drop-here 24 (head r ++ to_be 4 crc) r.payload
          (omega (arith, length-append (head r) (to_be 4 crc), length-head r, length-to_be 4 crc)))

  head-image : slice 0 20 (image r crc) ≡ head r
  head-image =
      rw (image-head r crc) (slice-here 20 (head r) (to_be 4 crc ++ r.payload) (length-head r))

  record_crc-image : record_crc (image r crc) ≡ crc32 (image r 0)
  unfolding record_crc crc32
  record_crc-image =
      rw (head-image, drop-image, image-head r 0, zeros)
        (ap complement (
          sym (crc32_update-append u32_max (head r ++ replicate 4 0) r.payload)
          ∙ ap (crc32_update u32_max) (append_assoc (head r) (replicate 4 0) r.payload)))

-- the checks of `decode_record` up to the state
decode-prefix :
    (input : Bytes) (state : RecordState)
    → nvs_header_len ≤ length input
    → get_or input 0 0 ≡ schema_version
    → state_of (get_or input 1 0) ≡ ok state
    → decode_record input ≡ decode_fields state input
unfolding decode_record
decode-prefix input state len version known =
    let long : ltb (length input) nvs_header_len ≡ false = ground arith in rw (long, version, known)

read : (n v : ℕ) → v < 256 ^ n → from_be 0 (to_be n v) ≡ v
read n v h = omega (arith, from_be-to_be n v 0 h)

module _ (r : RecordRef) (crc : ℕ) (h : IsRecord r) (crc_fits : crc < 2 ^ 32) where
  field_slices :
      (from_be 0 (slice 2 2 (image r crc)) ≡ length r.payload)
      × (from_be 0 (slice 4 8 (image r crc)) ≡ r.publication_sequence)
      × (from_be 0 (slice 12 8 (image r crc)) ≡ r.generation)
      × (from_be 0 (slice 20 4 (image r crc)) ≡ crc)
  unfolding image
  field_slices =
      let start = schema_version ∷ wire r.state ∷ [] in
      let l = to_be 2 (length r.payload) in
      let s = to_be 8 r.publication_sequence in
      let g = to_be 8 r.generation in
      let c = to_be 4 crc in
      let r3 = c ++ r.payload in
      let r2 = g ++ r3 in
      let r1 = s ++ r2 in
      let r0 = l ++ r1 in
      let ll = length-to_be 2 (length r.payload) in
      let ls = length-to_be 8 r.publication_sequence in
      let lg = length-to_be 8 r.generation in
      (
        ap (from_be 0) (slice-past 2 0 2 start r0 refl ∙ slice-here 2 l r1 ll)
            ∙ read 2 (length r.payload) (omega (arith, h.payload_fits)),
        ap (from_be 0)
              (slice-past 2 2 8 start r0 refl ∙ slice-past 2 0 8 l r1 ll ∙ slice-here 8 s r2 ls)
            ∙ read 8 r.publication_sequence (omega (arith, h.sequence_fits)),
        ap (from_be 0) (
              slice-past 2 10 8 start r0 refl
              ∙ slice-past 2 8 8 l r1 ll
              ∙ slice-past 8 0 8 s r2 ls
              ∙ slice-here 8 g r3 lg)
            ∙ read 8 r.generation (omega (arith, h.generation_fits)),
        ap (from_be 0) (
              slice-past 2 18 4 start r0 refl
              ∙ slice-past 2 16 4 l r1 ll
              ∙ slice-past 8 8 4 s r2 ls
              ∙ slice-past 8 0 4 g r3 lg
              ∙ slice-here 4 c r.payload (length-to_be 4 crc))
            ∙ read 4 crc (omega arith),
      )

  decode_fields-image :
      decode_fields r.state (image r crc)
      ≡ (if crc32 (image r 0) == crc then ok r else err invalid_crc)
  unfolding decode_fields
  decode_fields-image =
      let f = field_slices in
      rw (f.0, f.1, f.2, f.3, record_crc-image r crc, drop-image r crc, length-image r crc)
        (ground (arith, h.payload_fits))

  -- A record with a checksum in its place decodes to the record if the checksum is its own, and is
  -- refused if it is any other.
  pub decode-image :
      decode_record (image r crc) ≡ (if crc32 (image r 0) == crc then ok r else err invalid_crc)
  decode-image =
      decode-prefix (image r crc) r.state (omega (arith, length-image r crc)) (unfold image in refl)
        (unfold image in wire-state_of r.state)
      ∙ decode_fields-image
