-- ===== src/Protocol/Frames.antt =====
-- Frame lengths, and the digits that both sides of a pairing show to their users
-- (crates/deskkin-protocol/src/lib.rs).
use deskkin.Prelude.{
  ℕ, zero, suc, ◌+◌, ◌-◌, ◌*◌, ◌/◌, ◌%◌, ◌^◌, ◌<◌, ◌≤◌, ◌≡◌, [], ◌∷◌, length, take, set, replicate,
  All, arith, ltb, leb, if◌then◌else◌,
}
use deskkin.Prelude.Results.{Result, ok, err}
use deskkin.Prelude.Bytes.{Bytes, from_be, to_be, from_be-to_be}
use deskkin.Protocol.{application_frame_max, CodecError, oversize, invalid_value}

-- `u16::try_from` comes first
pub encode_frame_length : ℕ → Result CodecError Bytes
encode_frame_length len =
    if ltb len (2 ^ 16)
    then (if ltb application_frame_max len then err oversize else ok (to_be 2 len))
    else err oversize

pub decode_frame_length : Bytes → ℕ
decode_frame_length bytes = from_be 0 bytes

-- the `while i > 0` loop over `out`, from the last digit to the first
write_digits : ℕ → ℕ → Bytes → Bytes
write_digits zero n out = out
write_digits (suc i) n out = write_digits i (n / 10) (set out i (b'0' + n % 10))

pub authentication_string : Bytes → Result CodecError Bytes
unfolding write_digits
authentication_string hash =
    if leb 4 (length hash)
    then ok (write_digits 6 (from_be 0 (take 4 hash) % 1_000_000) (replicate 6 b'0'))
    else err invalid_value

-- the two results of `encode_frame_length`
abbrev pub IsFrameLength : ℕ → Result CodecError Bytes → Type 0
IsFrameLength len (ok bytes) = (len ≤ application_frame_max) × (decode_frame_length bytes ≡ len)
IsFrameLength len (err e) = (application_frame_max < len) × (e ≡ oversize)

-- A length is refused exactly if it is above the frame bound, and decoding an encoded length gives
-- it back.
pub encode_frame_length-IsFrameLength : (len : ℕ) → IsFrameLength len (encode_frame_length len)
unfolding encode_frame_length decode_frame_length
encode_frame_length-IsFrameLength len = ground (arith, from_be-to_be 2 len 0)

abbrev IsDigit : ℕ → Type 0
IsDigit b = (b'0' ≤ b) × (b ≤ b'9')

-- the number that decimal digits stand for
pub decimal : ℕ → Bytes → ℕ
decimal acc [] = acc
decimal acc (b ∷ bs) = decimal (acc * 10 + (b - b'0')) bs

abbrev pub IsAuthentication : Bytes → Result CodecError Bytes → Type 0
IsAuthentication hash (ok digits) =
    (4 ≤ length hash)
    × (length digits ≡ 6)
    × All IsDigit digits
    × (decimal 0 digits ≡ from_be 0 (take 4 hash) % 1_000_000)
IsAuthentication hash (err e) = (length hash < 4) × (e ≡ invalid_value)

-- Four bytes of hash or more give six decimal digits, whose value is the first four bytes, read as a
-- big-endian number, modulo a million; a shorter hash is refused.
pub authentication_string-IsAuthentication :
    (hash : Bytes) → IsAuthentication hash (authentication_string hash)
unfolding authentication_string decimal
authentication_string-IsAuthentication hash = ground arith
