-- ===== src/Protocol/Canonical.antt =====
-- A byte string that decodes is the one encoding of its message.
use deskkin.Prelude.{
  ℕ, ◌+◌, ◌<◌, ◌≤◌, ◌^◌, true, false, inl, inr, Bool-cases, ◌≡◌, refl, sym, ap, ap₂, ◌∙◌, [], ◌∷◌,
  ◌++◌, length, get_or, arith, ltb,
}
use deskkin.Prelude.Results.{Result, ok, err}
use deskkin.Prelude.Bytes.{
  Bytes, IsByte, AreBytes, IsArray, from_be, to_be, from_be-lt, to_be-from_be,
}
use deskkin.Prelude.Slices.{
  slice, slice-all, slice-plus, slice-one, length-slice, All-slice, All-get_or,
}
use deskkin.Protocol.{
  application_frame_max, oversize, IsMessage, Message, pairing_begin, pairing_decision,
  pairing_prepared, pairing_commit, pairing_committed, pairing_close, pairing_complete, hello,
  hello_ack, hello_reject, read_availability, availability_result, ping, pong, close, CodecError,
}
use deskkin.Protocol.Codec.{
  tag, encoded_len, body, encode, decode_body, decode, decision_u8, pairing_reason_u8,
  hello_reason_u8, availability_u8, close_reason_u8,
}
use deskkin.Protocol.RoundTrip.{encode-fits}

-- where the fields of a message stand in the bytes after the tag
Parsed : Message → Bytes → Type 0
Parsed (pairing_begin t) c = (length c ≡ 16) × (t ≡ slice 0 16 c)
Parsed (pairing_decision t d) c =
    (length c ≡ 17) × (t ≡ slice 0 16 c) × (decision_u8 d ≡ get_or c 16 0)
Parsed (pairing_prepared t) c = (length c ≡ 16) × (t ≡ slice 0 16 c)
Parsed (pairing_commit t) c = (length c ≡ 16) × (t ≡ slice 0 16 c)
Parsed (pairing_committed t) c = (length c ≡ 16) × (t ≡ slice 0 16 c)
Parsed (pairing_close t r) c =
    (length c ≡ 17) × (t ≡ slice 0 16 c) × (pairing_reason_u8 r ≡ get_or c 16 0)
Parsed (pairing_complete t) c = (length c ≡ 16) × (t ≡ slice 0 16 c)
Parsed (hello s m r o p) c =
    (length c ≡ 48)
    × (s ≡ slice 0 16 c)
    × (m ≡ slice 16 8 c)
    × (r ≡ slice 24 8 c)
    × (o ≡ slice 32 8 c)
    × (p ≡ slice 40 8 c)
Parsed (hello_ack s v f p) c =
    (length c ≡ 33)
    × (s ≡ slice 0 16 c)
    × (v ≡ get_or c 16 0)
    × (f ≡ slice 17 8 c)
    × (p ≡ slice 25 8 c)
Parsed (hello_reject t r) c =
    (length c ≡ 17) × (t ≡ slice 0 16 c) × (hello_reason_u8 r ≡ get_or c 16 0)
Parsed (read_availability q o) c =
    (length c ≡ 20) × (q ≡ from_be 0 (slice 0 4 c)) × (o ≡ slice 4 16 c)
Parsed (availability_result q o r) c =
    (length c ≡ 21)
    × (q ≡ from_be 0 (slice 0 4 c))
    × (o ≡ slice 4 16 c)
    × (availability_u8 r ≡ get_or c 20 0)
Parsed ping c = length c ≡ 0
Parsed pong c = length c ≡ 0
Parsed (close r) c = (length c ≡ 1) × (close_reason_u8 r ≡ get_or c 0 0)

decode_body-Parsed :
    (value : ℕ) (c : Bytes) (m : Message)
    → decode_body value c ≡ ok m
    → (tag m ≡ value) × Parsed m c
unfolding decode_body Parsed
decode_body-Parsed value c (pairing_begin t) h = ground arith
decode_body-Parsed value c _ h = ground arith

empty_content : (c : Bytes) → length c ≡ 0 → [] ≡ c
empty_content [] h = refl
empty_content (b ∷ c) h = absurd (omega arith)

module _ (c : Bytes) (bytes : AreBytes c) where
  slice-IsArray : (at n : ℕ) → at + n ≤ length c → IsArray n (slice at n c)
  slice-IsArray at n h = (length-slice at n c h, All-slice IsByte at n c bytes)

  byte-IsByte : (at : ℕ) → get_or c at 0 < 256
  byte-IsByte at = All-get_or IsByte at c 0 bytes (omega arith)

  word-IsU32 : 4 ≤ length c → from_be 0 (slice 0 4 c) < 2 ^ 32
  word-IsU32 h =
      let word = slice-IsArray 0 4 h in
      omega (arith, from_be-lt 0 (slice 0 4 c) word.1, ap (λ (n : ℕ). 256 ^ n) word.0)

  Parsed-IsMessage : (m : Message) → Parsed m c → IsMessage m
  unfolding Parsed
  Parsed-IsMessage (pairing_begin t) p = rw (p.1) (slice-IsArray 0 16 (omega arith))
  Parsed-IsMessage (pairing_decision t _) p = rw (p.1) (slice-IsArray 0 16 (omega arith))
  Parsed-IsMessage (pairing_prepared t) p = rw (p.1) (slice-IsArray 0 16 (omega arith))
  Parsed-IsMessage (pairing_commit t) p = rw (p.1) (slice-IsArray 0 16 (omega arith))
  Parsed-IsMessage (pairing_committed t) p = rw (p.1) (slice-IsArray 0 16 (omega arith))
  Parsed-IsMessage (pairing_close t _) p = rw (p.1) (slice-IsArray 0 16 (omega arith))
  Parsed-IsMessage (pairing_complete t) p = rw (p.1) (slice-IsArray 0 16 (omega arith))
  Parsed-IsMessage (hello s m r o q) p =
      rw (p.1, p.2, p.3, p.4, p.5)
        (
          slice-IsArray 0 16 (omega arith),
          slice-IsArray 16 8 (omega arith),
          slice-IsArray 24 8 (omega arith),
          slice-IsArray 32 8 (omega arith),
          slice-IsArray 40 8 (omega arith),
        )
  Parsed-IsMessage (hello_ack s v f q) p =
      rw (p.1, p.2, p.3, p.4)
        (
          slice-IsArray 0 16 (omega arith),
          byte-IsByte 16,
          slice-IsArray 17 8 (omega arith),
          slice-IsArray 25 8 (omega arith),
        )
  Parsed-IsMessage (hello_reject t _) p = rw (p.1) (slice-IsArray 0 16 (omega arith))
  Parsed-IsMessage (read_availability q o) p =
      rw (p.1, p.2) (word-IsU32 (omega arith), slice-IsArray 4 16 (omega arith))
  Parsed-IsMessage (availability_result q o _) p =
      rw (p.1, p.2) (word-IsU32 (omega arith), slice-IsArray 4 16 (omega arith))
  Parsed-IsMessage ping p = tt
  Parsed-IsMessage pong p = tt
  Parsed-IsMessage (close _) p = tt

  word-back : 4 ≤ length c → to_be 4 (from_be 0 (slice 0 4 c)) ≡ slice 0 4 c
  word-back h = let word = slice-IsArray 0 4 h in to_be-from_be 4 (slice 0 4 c) word.0 word.1

  code-back : (at code : ℕ) → at < length c → code ≡ get_or c at 0 → code ∷ [] ≡ slice at 1 c
  code-back at code h e = ap (λ (b : ℕ). b ∷ []) e ∙ sym (slice-one at c 0 h)

  -- an identity and one code
  id-code-back :
      (id : Bytes) (code : ℕ)
      → length c ≡ 17
      → id ≡ slice 0 16 c
      → code ≡ get_or c 16 0
      → id ++ code ∷ [] ≡ c
  id-code-back id code len at_id at_code =
      ap₂ ◌++◌ at_id (code-back 16 code (omega arith) at_code)
      ∙ sym (slice-plus 0 16 1 c)
      ∙ slice-all 17 c len

  Parsed-body : (m : Message) → Parsed m c → body m ≡ c
  unfolding Parsed body
  Parsed-body (pairing_begin t) p = p.1 ∙ slice-all 16 c p.0
  Parsed-body (pairing_decision t d) p = id-code-back t (decision_u8 d) p.0 p.1 p.2
  Parsed-body (pairing_prepared t) p = p.1 ∙ slice-all 16 c p.0
  Parsed-body (pairing_commit t) p = p.1 ∙ slice-all 16 c p.0
  Parsed-body (pairing_committed t) p = p.1 ∙ slice-all 16 c p.0
  Parsed-body (pairing_close t r) p = id-code-back t (pairing_reason_u8 r) p.0 p.1 p.2
  Parsed-body (pairing_complete t) p = p.1 ∙ slice-all 16 c p.0
  Parsed-body (hello s m r o q) p =
      rw (p.1, p.2, p.3, p.4, p.5)
        (ground (
          arith,
          slice-plus 0 16 32 c,
          slice-plus 16 8 24 c,
          slice-plus 24 8 16 c,
          slice-plus 32 8 8 c,
          slice-all 48 c,
        ))
  Parsed-body (hello_ack s v f q) p =
      rw (p.1, p.2, p.3, p.4)
        (ground (
          arith,
          slice-plus 0 16 17 c,
          slice-plus 16 1 16 c,
          slice-one 16 c 0,
          slice-plus 17 8 8 c,
          slice-all 33 c,
        ))
  Parsed-body (hello_reject t r) p = id-code-back t (hello_reason_u8 r) p.0 p.1 p.2
  Parsed-body (read_availability q o) p =
      rw (p.1, p.2) (ground (arith, word-back (omega arith), slice-plus 0 4 16 c, slice-all 20 c))
  Parsed-body (availability_result q o r) p =
      rw (p.1, p.2)
        (ground (
          arith,
          word-back (omega arith),
          code-back 20 (availability_u8 r) (omega arith) p.3,
          slice-plus 0 4 17 c,
          slice-plus 4 16 1 c,
          slice-all 21 c,
        ))
  Parsed-body ping p = empty_content c p
  Parsed-body pong p = empty_content c p
  Parsed-body (close r) p = code-back 0 (close_reason_u8 r) (omega arith) p.1 ∙ slice-all 1 c p.0

decode-nil : (m : Message) → decode [] ≡ ok m → ⊥
unfolding decode
decode-nil m h = cc

decode-long :
    (value : ℕ) (c : Bytes)
    → ltb application_frame_max (length (value ∷ c)) ≡ true
    → decode (value ∷ c) ≡ err oversize
unfolding decode
decode-long value c long = rw long

decode-short :
    (value : ℕ) (c : Bytes)
    → ltb application_frame_max (length (value ∷ c)) ≡ false
    → decode (value ∷ c) ≡ decode_body value c
unfolding decode
decode-short value c fits = rw fits

-- the part of `decode` before the match
decode-inner :
    (value : ℕ) (c : Bytes) (m : Message) → decode (value ∷ c) ≡ ok m → decode_body value c ≡ ok m
decode-inner value c m h = elim (Bool-cases (ltb application_frame_max (length (value ∷ c)))) [
  | inl long ↦ cc (decode-long value c long, h)
  | inr fits ↦ sym (decode-short value c fits) ∙ h
]

-- A byte string that decodes to a message is well-formed as that message, and encoding the message
-- into any buffer with room for it writes exactly that byte string.
pub encode-decode :
    (input output : Bytes) (m : Message)
    → AreBytes input
    → decode input ≡ ok m
    → encoded_len m ≤ length output
    → IsMessage m × ((encode m output).0 ≡ ok input)
encode-decode [] output m bytes h room = absurd (decode-nil m h)
encode-decode (value ∷ c) output m bytes h room =
    let (same_tag, parsed) = decode_body-Parsed value c m (decode-inner value c m h) in
    (
      Parsed-IsMessage c bytes.1 m parsed,
      ap (λ (r : Result CodecError Bytes × Bytes). r.0) (encode-fits m output room)
          ∙ ap₂ (λ (t : ℕ) (l : Bytes). ok (t ∷ l)) same_tag (Parsed-body c bytes.1 m parsed),
    )
