-- ===== src/Examples/Flash.antt =====
-- Records, checksums and configurations on concrete bytes.
use deskkin.Prelude.{◌+◌, ◌≡◌, ◌++◌, refl, some, [], ◌∷◌, length, drop, replicate, arith}
use deskkin.Prelude.Results.{ok, err}
use deskkin.Prelude.Bytes.{Bytes, to_be}
use deskkin.CoreS3.{nvs_header_len, invalid_crc}
use deskkin.CoreS3.Crc.{crc32}
use deskkin.CoreS3.Records.{
  RecordRef, identity, paired, image, sealed, encode_record, decode_record, select_slot,
}
use deskkin.CoreS3.Records.Image.{IsRecord}
use deskkin.CoreS3.Records.Storage.{
  decode-encode_record, changed_byte_is_refused, select_slot-latest,
}

abbrev peer : RecordRef
peer = record {
  publication_sequence = 4;
  generation = 2;
  state = identity paired;
  payload = 10 ∷ 20 ∷ [];
}

abbrev next_peer : RecordRef
next_peer = record {
  publication_sequence = 5;
  generation = 2;
  state = identity paired;
  payload = 10 ∷ 21 ∷ [];
}

abbrev changed_peer : RecordRef
changed_peer = record {
  publication_sequence = 4;
  generation = 2;
  state = identity paired;
  payload = 10 ∷ 21 ∷ [];
}

peer-IsRecord : IsRecord peer
peer-IsRecord = record {
  sequence_fits = omega arith;
  generation_fits = omega arith;
  payload_fits = omega arith;
  payload_bytes = (omega arith, (omega arith, tt));
}

next_peer-IsRecord : IsRecord next_peer
next_peer-IsRecord = record {
  sequence_fits = omega arith;
  generation_fits = omega arith;
  payload_fits = omega arith;
  payload_bytes = (omega arith, (omega arith, tt));
}

changed_peer-IsRecord : IsRecord changed_peer
changed_peer-IsRecord = record {
  sequence_fits = omega arith;
  generation_fits = omega arith;
  payload_fits = omega arith;
  payload_bytes = (omega arith, (omega arith, tt));
}

decode-encode_record_example :
    (written : Bytes) × (encode_record peer (replicate 32 0) ≡ (
      ok (nvs_header_len + length peer.payload),
      written ++ drop (nvs_header_len + length peer.payload) (replicate 32 0),
    ))
    × (length written ≡ nvs_header_len + length peer.payload)
    × (decode_record written ≡ ok peer)
decode-encode_record_example =
    decode-encode_record peer (replicate 32 0) peer-IsRecord (omega arith)

-- the bytes before the one that differs
abbrev common : Bytes
common =
    1 ∷ 3 ∷ 0 ∷ 2 ∷ 0 ∷ 0 ∷ 0 ∷ 0 ∷ 0 ∷ 0 ∷ 0 ∷ 4 ∷ 0 ∷ 0 ∷ 0 ∷ 0 ∷ 0 ∷ 0 ∷ 0 ∷ 2 ∷ 0 ∷ 0 ∷ 0 ∷ 0
    ∷ 10 ∷ []

peer-image : image peer 0 ≡ common ++ 20 ∷ []
unfolding image to_be
peer-image = refl

changed_peer-image : image changed_peer 0 ≡ common ++ 21 ∷ []
unfolding image to_be
changed_peer-image = refl

changed_byte_is_refused_example :
    decode_record (image changed_peer (crc32 (image peer 0))) ≡ err invalid_crc
changed_byte_is_refused_example =
    changed_byte_is_refused peer changed_peer common [] 20 21 peer-IsRecord changed_peer-IsRecord
      peer-image changed_peer-image (λ e. ground arith)

select_slot-latest_example :
    (select_slot (some (sealed peer)) (some (sealed next_peer)) ≡ ok (some next_peer))
    × (select_slot (some (sealed next_peer)) (some (sealed peer)) ≡ ok (some next_peer))
select_slot-latest_example =
    select_slot-latest peer next_peer peer-IsRecord next_peer-IsRecord (omega arith)

later_found : select_slot (some (sealed peer)) (some (sealed next_peer)) ≡ ok (some next_peer)
later_found = select_slot-latest_example.0
