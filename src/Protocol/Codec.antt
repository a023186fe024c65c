-- ===== src/Protocol/Codec.antt =====
-- `Message::encode` and `Message::decode` of crates/deskkin-protocol/src/lib.rs.
use deskkin.Prelude.{ℕ, [], ◌∷◌, ◌++◌, length, drop, get_or, ◌==◌, ltb, leb, if◌then◌else◌}
use deskkin.Prelude.Results.{Result, ok, err, Method}
use deskkin.Prelude.Fallible.{◌>>=◌}
use deskkin.Prelude.Bytes.{Bytes, from_be, to_be}
use deskkin.Prelude.Slices.{slice}
use deskkin.Protocol.{
  application_frame_max, PairingDecision, PairingCloseReason, expired, incomplete, store_failed,
  pairing_busy, confirmed, HelloRejectReason, no_common_version, required_feature_unsupported,
  session_busy, permission_denied, AvailabilityResult, available, unavailable, read_failed,
  CloseReason, normal, protocol, timeout, cancelled, unpaired, Message, pairing_begin,
  pairing_decision, pairing_prepared, pairing_commit, pairing_committed, pairing_close,
  pairing_complete, hello, hello_ack, hello_reject, read_availability, availability_result, ping,
  pong, close, CodecError, buffer_too_small, empty, unknown_tag, invalid_value, trailing_bytes,
  oversize,
}

abbrev pub tag : Message → ℕ
tag (pairing_begin _) = 1
tag (pairing_decision _ _) = 2
tag (pairing_prepared _) = 3
tag (pairing_commit _) = 4
tag (pairing_committed _) = 5
tag (pairing_close _ _) = 6
tag (pairing_complete _) = 7
tag (hello _ _ _ _ _) = 0x10
tag (hello_ack _ _ _ _) = 0x11
tag (hello_reject _ _) = 0x12
tag (read_availability _ _) = 0x20
tag (availability_result _ _ _) = 0x21
tag ping = 0x30
tag pong = 0x31
tag (close _) = 0x32

abbrev pub encoded_len : Message → ℕ
encoded_len (pairing_begin _) = 17
encoded_len (pairing_decision _ _) = 18
encoded_len (pairing_prepared _) = 17
encoded_len (pairing_commit _) = 17
encoded_len (pairing_committed _) = 17
encoded_len (pairing_close _ _) = 18
encoded_len (pairing_complete _) = 17
encoded_len (hello _ _ _ _ _) = 49
encoded_len (hello_ack _ _ _ _) = 34
encoded_len (hello_reject _ _) = 18
encoded_len (read_availability _ _) = 21
encoded_len (availability_result _ _ _) = 22
encoded_len ping = 1
encoded_len pong = 1
encoded_len (close _) = 2

abbrev pub decision_u8 : PairingDecision → ℕ
decision_u8 confirmed = 0
decision_u8 PairingDecision.rejected = 1

-- `as u8` on the reasons and the result: the place in the declaration
abbrev pub pairing_reason_u8 : PairingCloseReason → ℕ
pairing_reason_u8 PairingCloseReason.rejected = 0
pairing_reason_u8 expired = 1
pairing_reason_u8 incomplete = 2
pairing_reason_u8 store_failed = 3
pairing_reason_u8 pairing_busy = 4

abbrev pub hello_reason_u8 : HelloRejectReason → ℕ
hello_reason_u8 no_common_version = 0
hello_reason_u8 required_feature_unsupported = 1
hello_reason_u8 session_busy = 2
hello_reason_u8 permission_denied = 3

abbrev pub availability_u8 : AvailabilityResult → ℕ
availability_u8 available = 0
availability_u8 unavailable = 1
availability_u8 read_failed = 2

abbrev pub close_reason_u8 : CloseReason → ℕ
close_reason_u8 normal = 0
close_reason_u8 protocol = 1
close_reason_u8 timeout = 2
close_reason_u8 cancelled = 3
close_reason_u8 unpaired = 4

-- what the `match` in `encode` writes after the tag
unfoldable pub body : Message → Bytes
body (pairing_begin transaction) = transaction
body (pairing_decision transaction decision) = transaction ++ decision_u8 decision ∷ []
body (pairing_prepared transaction) = transaction
body (pairing_commit transaction) = transaction
body (pairing_committed transaction) = transaction
body (pairing_close transaction reason) = transaction ++ pairing_reason_u8 reason ∷ []
body (pairing_complete transaction) = transaction
body (hello session majors required optional permissions) =
    session ++ (majors ++ (required ++ (optional ++ permissions)))
body (hello_ack session major features permissions) = session ++ major ∷ (features ++ permissions)
body (hello_reject session reason) = session ++ hello_reason_u8 reason ∷ []
body (read_availability request operation) = to_be 4 request ++ operation
body (availability_result request operation result) =
    to_be 4 request ++ (operation ++ availability_u8 result ∷ [])
body ping = []
body pong = []
body (close reason) = close_reason_u8 reason ∷ []

-- The state is the caller's buffer; the result is the written prefix that the caller gets back.
unfoldable pub encode : Message → Method CodecError Bytes Bytes
unfolding body
encode message output =
    let size = encoded_len message in
    let written = tag message ∷ body message in
    if ltb application_frame_max size
    then (err oversize, output)
    else if leb size (length output)
    then (ok written, written ++ drop size output)
    else (err buffer_too_small, output)

-- the byte of `body[at]`, which `exact!` has shown to be there
abbrev byte : Bytes → ℕ → ℕ
byte content at = get_or content at 0

abbrev pub pairing_decision_of : ℕ → Result CodecError PairingDecision
pairing_decision_of v =
    if v == 0
    then ok confirmed
    else if v == 1
    then ok PairingDecision.rejected
    else err invalid_value

abbrev pub pairing_reason : ℕ → Result CodecError PairingCloseReason
pairing_reason v =
    if v == 0
    then ok PairingCloseReason.rejected
    else if v == 1
    then ok expired
    else if v == 2
    then ok incomplete
    else if v == 3
    then ok store_failed
    else if v == 4
    then ok pairing_busy
    else err invalid_value

abbrev pub hello_reason : ℕ → Result CodecError HelloRejectReason
hello_reason v =
    if v == 0
    then ok no_common_version
    else if v == 1
    then ok required_feature_unsupported
    else if v == 2
    then ok session_busy
    else if v == 3
    then ok permission_denied
    else err invalid_value

abbrev pub availability : ℕ → Result CodecError AvailabilityResult
availability v =
    if v == 0
    then ok available
    else if v == 1
    then ok unavailable
    else if v == 2
    then ok read_failed
    else err invalid_value

abbrev pub close_reason : ℕ → Result CodecError CloseReason
close_reason v =
    if v == 0
    then ok normal
    else if v == 1
    then ok protocol
    else if v == 2
    then ok timeout
    else if v == 3
    then ok cancelled
    else if v == 4
    then ok unpaired
    else err invalid_value

-- `exact!`
abbrev exact : ℕ → Bytes → Result CodecError Message → Result CodecError Message
exact n content rest = if length content == n then rest else err trailing_bytes

-- the `match tag` in `decode`
unfoldable pub decode_body : ℕ → Bytes → Result CodecError Message
decode_body value content =
    if value == 1
    then exact 16 content (ok (pairing_begin (slice 0 16 content)))
    else if value == 2
    then exact 17 content (do
      decision ← pairing_decision_of (byte content 16)
      ok (pairing_decision (slice 0 16 content) decision))
    else if value == 3
    then exact 16 content (ok (pairing_prepared (slice 0 16 content)))
    else if value == 4
    then exact 16 content (ok (pairing_commit (slice 0 16 content)))
    else if value == 5
    then exact 16 content (ok (pairing_committed (slice 0 16 content)))
    else if value == 6
    then exact 17 content (do
      reason ← pairing_reason (byte content 16)
      ok (pairing_close (slice 0 16 content) reason))
    else if value == 7
    then exact 16 content (ok (pairing_complete (slice 0 16 content)))
    else if value == 0x10
    then exact 48 content (
        ok (
          hello (slice 0 16 content) (slice 16 8 content) (slice 24 8 content) (slice 32 8 content)
            (slice 40 8 content)))
    else if value == 0x11
    then exact 33 content (
        ok (
          hello_ack (slice 0 16 content) (byte content 16) (slice 17 8 content)
            (slice 25 8 content)))
    else if value == 0x12
    then exact 17 content
        (do reason ← hello_reason (byte content 16); ok (hello_reject (slice 0 16 content) reason))
    else if value == 0x20
    then exact 20 content
        (ok (read_availability (from_be 0 (slice 0 4 content)) (slice 4 16 content)))
    else if value == 0x21
    then exact 21 content (do
      result ← availability (byte content 20)
      ok (availability_result (from_be 0 (slice 0 4 content)) (slice 4 16 content) result))
    else if value == 0x30
    then exact 0 content (ok ping)
    else if value == 0x31
    then exact 0 content (ok pong)
    else if value == 0x32
    then exact 1 content (do reason ← close_reason (byte content 0); ok (close reason))
    else err (unknown_tag value)

unfoldable pub decode : Bytes → Result CodecError Message
unfolding decode_body
decode [] = err empty
decode (value ∷ content) =
    if ltb application_frame_max (length (value ∷ content))
    then err oversize
    else decode_body value content
