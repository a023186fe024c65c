-- ===== src/Protocol/RoundTrip.antt =====
-- Decoding undoes encoding, and encoding undoes decoding.
use deskkin.Prelude.{
  ℕ, ◌+◌, ◌<◌, ◌≤◌, ◌≡◌, refl, [], ◌∷◌, ◌++◌, length, drop, length-append, ◌∙◌, arith,
}
use deskkin.Prelude.Results.{ok}
use deskkin.Prelude.Bytes.{Bytes, to_be, length-to_be, from_be-to_be}
use deskkin.Prelude.Slices.{slice-all, slice-here, slice-past, get_or-append, get_or-past}
use deskkin.Protocol.{
  application_frame_max, IsMessage, Message, pairing_begin, pairing_decision, pairing_prepared,
  pairing_commit, pairing_committed, pairing_close, pairing_complete, hello, hello_ack,
  hello_reject, read_availability, availability_result, ping, pong, close,
}
use deskkin.Protocol.Codec.{
  tag, encoded_len, body, encode, decode_body, decode, decision_u8, pairing_reason_u8,
  hello_reason_u8, availability_u8,
}

-- the body of a well-formed message has the length that its tag calls for
length-body : (m : Message) → IsMessage m → length (body m) + 1 ≡ encoded_len m
unfolding body
length-body (pairing_begin t) h = omega arith
length-body (pairing_decision t d) h = omega (arith, length-append t (decision_u8 d ∷ []))
length-body (pairing_prepared t) h = omega arith
length-body (pairing_commit t) h = omega arith
length-body (pairing_committed t) h = omega arith
length-body (pairing_close t r) h = omega (arith, length-append t (pairing_reason_u8 r ∷ []))
length-body (pairing_complete t) h = omega arith
length-body (hello s a b c d) h = omega (
  arith,
  length-append s (a ++ (b ++ (c ++ d))),
  length-append a (b ++ (c ++ d)),
  length-append b (c ++ d),
  length-append c d,
)
length-body (hello_ack s v f p) h = omega (arith, length-append s (v ∷ (f ++ p)), length-append f p)
length-body (hello_reject t r) h = omega (arith, length-append t (hello_reason_u8 r ∷ []))
length-body (read_availability q o) h = omega (arith, length-append (to_be 4 q) o, length-to_be 4 q)
length-body (availability_result q o r) h = omega (
  arith,
  length-append (to_be 4 q) (o ++ availability_u8 r ∷ []),
  length-append o (availability_u8 r ∷ []),
  length-to_be 4 q,
)
length-body ping h = refl
length-body pong h = refl
length-body (close r) h = refl

decode_body-body : (m : Message) → IsMessage m → decode_body (tag m) (body m) ≡ ok m
unfolding decode_body body
decode_body-body (pairing_begin t) h = ground (arith, slice-all 16 t)
decode_body-body (pairing_decision t d) h = ground (
  arith,
  length-append t (decision_u8 d ∷ []),
  slice-here 16 t (decision_u8 d ∷ []),
  get_or-append 16 t [] (decision_u8 d) 0,
)
decode_body-body (pairing_prepared t) h = ground (arith, slice-all 16 t)
decode_body-body (pairing_commit t) h = ground (arith, slice-all 16 t)
decode_body-body (pairing_committed t) h = ground (arith, slice-all 16 t)
decode_body-body (pairing_close t r) h = ground (
  arith,
  length-append t (pairing_reason_u8 r ∷ []),
  slice-here 16 t (pairing_reason_u8 r ∷ []),
  get_or-append 16 t [] (pairing_reason_u8 r) 0,
)
decode_body-body (pairing_complete t) h = ground (arith, slice-all 16 t)
decode_body-body (hello s a b c d) h =
    let r1 = a ++ (b ++ (c ++ d)) in
    let r2 = b ++ (c ++ d) in
    ground (
      arith,
      length-append s r1,
      length-append a r2,
      length-append b (c ++ d),
      length-append c d,
      slice-here 16 s r1,
      slice-past 16 0 8 s r1,
      slice-here 8 a r2,
      slice-past 16 8 8 s r1,
      slice-past 8 0 8 a r2,
      slice-here 8 b (c ++ d),
      slice-past 16 16 8 s r1,
      slice-past 8 8 8 a r2,
      slice-past 8 0 8 b (c ++ d),
      slice-here 8 c d,
      slice-past 16 24 8 s r1,
      slice-past 8 16 8 a r2,
      slice-past 8 8 8 b (c ++ d),
      slice-past 8 0 8 c d,
      slice-all 8 d,
    )
decode_body-body (hello_ack s v f p) h =
    let r = f ++ p in
    ground (
      arith,
      length-append s (v ∷ r),
      length-append f p,
      slice-here 16 s (v ∷ r),
      get_or-append 16 s r v 0,
      slice-past 16 1 8 s (v ∷ r),
      slice-past 1 0 8 (v ∷ []) r,
      slice-here 8 f p,
      slice-past 16 9 8 s (v ∷ r),
      slice-past 1 8 8 (v ∷ []) r,
      slice-past 8 0 8 f p,
      slice-all 8 p,
    )
decode_body-body (hello_reject t r) h = ground (
  arith,
  length-append t (hello_reason_u8 r ∷ []),
  slice-here 16 t (hello_reason_u8 r ∷ []),
  get_or-append 16 t [] (hello_reason_u8 r) 0,
)
decode_body-body (read_availability q o) h = ground (
  arith,
  length-append (to_be 4 q) o,
  length-to_be 4 q,
  slice-here 4 (to_be 4 q) o,
  from_be-to_be 4 q 0,
  slice-past 4 0 16 (to_be 4 q) o,
  slice-all 16 o,
)
decode_body-body (availability_result q o r) h =
    let b = availability_u8 r ∷ [] in
    ground (
      arith,
      length-append (to_be 4 q) (o ++ b),
      length-append o b,
      length-to_be 4 q,
      slice-here 4 (to_be 4 q) (o ++ b),
      from_be-to_be 4 q 0,
      slice-past 4 0 16 (to_be 4 q) (o ++ b),
      slice-here 16 o b,
      get_or-past 4 16 (to_be 4 q) (o ++ b) 0,
      get_or-past 16 0 o b 0,
    )
decode_body-body ping h = refl
decode_body-body pong h = refl
decode_body-body (close r) h = ground arith

pub encoded_len-le : (m : Message) → (0 < encoded_len m) × (encoded_len m ≤ 49)
encoded_len-le (hello _ _ _ _ _) = omega arith
encoded_len-le _ = omega arith

decode-cons :
    (value : ℕ) (content : Bytes)
    → length content < application_frame_max
    → decode (value ∷ content) ≡ decode_body value content
unfolding decode
decode-cons value content h = ground arith

pub encode-fits :
    (m : Message) (output : Bytes)
    → encoded_len m ≤ length output
    → encode m output ≡ (ok (tag m ∷ body m), (tag m ∷ body m) ++ drop (encoded_len m) output)
unfolding encode
encode-fits m output room = ground (arith, encoded_len-le m)

-- A well-formed message that fits the buffer is written to its start, the rest of the buffer stays,
-- and decoding the written bytes gives the message.
pub decode-encode :
    (m : Message) (output : Bytes)
    → IsMessage m
    → encoded_len m ≤ length output
    → (written : Bytes) × (encode m output ≡ (ok written, written ++ drop (encoded_len m) output))
      × (length written ≡ encoded_len m)
      × (decode written ≡ ok m)
decode-encode m output h room = (
  tag m ∷ body m,
  encode-fits m output room,
  omega (arith, length-body m h),
  decode-cons (tag m) (body m) (omega (arith, length-body m h, encoded_len-le m))
      ∙ decode_body-body m h,
)
