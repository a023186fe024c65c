-- ===== src/Examples/Wire.antt =====
-- Messages, frame lengths and pairing digits on concrete bytes.
use deskkin.Prelude.{◌≡◌, ◌++◌, refl, [], ◌∷◌, length, drop, replicate, arith}
use deskkin.Prelude.Results.{ok}
use deskkin.Prelude.Bytes.{Bytes}
use deskkin.Protocol.{
  Message, availability_result, AvailabilityResult, close, CloseReason, IsMessage,
}
use deskkin.Protocol.Codec.{encode, decode, encoded_len}
use deskkin.Protocol.RoundTrip.{decode-encode}
use deskkin.Protocol.Canonical.{encode-decode}
use deskkin.Protocol.Frames.{
  authentication_string, IsAuthentication, authentication_string-IsAuthentication,
}

abbrev answer : Message
answer = availability_result 258 (replicate 16 7) AvailabilityResult.unavailable

decode-encode_example :
    (written : Bytes) × (encode answer (replicate 30 0)
      ≡ (ok written, written ++ drop (encoded_len answer) (replicate 30 0)))
    × (length written ≡ encoded_len answer)
    × (decode written ≡ ok answer)
decode-encode_example =
    decode-encode answer (replicate 30 0) (omega arith, (refl, ground arith)) (omega arith)

abbrev close_bytes : Bytes
close_bytes = 0x32 ∷ 2 ∷ []

close_bytes-decode : decode close_bytes ≡ ok (close CloseReason.timeout)
unfolding decode
close_bytes-decode = refl

encode-decode_example :
    IsMessage (close CloseReason.timeout)
    × ((encode (close CloseReason.timeout) (replicate 4 0)).0 ≡ ok close_bytes)
encode-decode_example =
    encode-decode close_bytes (replicate 4 0) (close CloseReason.timeout)
      (omega arith, (omega arith, tt)) close_bytes-decode (omega arith)

abbrev hash : Bytes
hash = 0 ∷ 0 ∷ 0 ∷ 42 ∷ 9 ∷ []

authentication_string-IsAuthentication_example : IsAuthentication hash (authentication_string hash)
authentication_string-IsAuthentication_example = authentication_string-IsAuthentication hash
