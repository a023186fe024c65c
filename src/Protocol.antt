-- ===== src/Protocol.antt =====
-- crates/deskkin-protocol/src/lib.rs: the plaintext messages, their codec and the frame length.
pub mod Codec
pub mod RoundTrip
pub mod Canonical
pub mod Frames
use deskkin.Prelude.{ℕ, ◌*◌, ◌^◌, ◌<◌, ◌≤◌}
use deskkin.Prelude.Bytes.{Bytes, IsArray}

abbrev pub handshake_frame_max : ℕ
handshake_frame_max = 1_024

abbrev pub application_frame_max : ℕ
application_frame_max = 16 * 1_024

abbrev pub ContextId : Type 0
ContextId = Bytes

abbrev pub TransactionId : Type 0
TransactionId = Bytes

abbrev pub Bits : Type 0
Bits = Bytes

pub data PairingDecision : Type 0 where
  confirmed rejected : PairingDecision

pub data PairingCloseReason : Type 0 where
  rejected expired incomplete store_failed pairing_busy : PairingCloseReason

pub data HelloRejectReason : Type 0 where
  no_common_version required_feature_unsupported session_busy permission_denied : HelloRejectReason

pub data AvailabilityResult : Type 0 where
  available unavailable read_failed : AvailabilityResult

pub data CloseReason : Type 0 where
  normal protocol timeout cancelled unpaired : CloseReason

pub data Message : Type 0 where
  pairing_begin : TransactionId → Message
  pairing_decision : TransactionId → PairingDecision → Message
  pairing_prepared pairing_commit pairing_committed : TransactionId → Message
  pairing_close : TransactionId → PairingCloseReason → Message
  pairing_complete : TransactionId → Message
  -- session, protocol majors, required features, optional features, requested permissions
  hello : ContextId → Bits → Bits → Bits → Bits → Message
  -- session, selected major, selected features, granted permissions
  hello_ack : ContextId → ℕ → Bits → Bits → Message
  hello_reject : ContextId → HelloRejectReason → Message
  -- request id, operation
  read_availability : ℕ → ContextId → Message
  availability_result : ℕ → ContextId → AvailabilityResult → Message
  ping pong : Message
  close : CloseReason → Message

pub data CodecError : Type 0 where
  buffer_too_small empty : CodecError
  unknown_tag : ℕ → CodecError
  invalid_value trailing_bytes oversize : CodecError

-- The sizes that the Rust types give to the fields.
abbrev pub IsMessage : Message → Type 0
IsMessage (pairing_begin t) = IsArray 16 t
IsMessage (pairing_decision t _) = IsArray 16 t
IsMessage (pairing_prepared t) = IsArray 16 t
IsMessage (pairing_commit t) = IsArray 16 t
IsMessage (pairing_committed t) = IsArray 16 t
IsMessage (pairing_close t _) = IsArray 16 t
IsMessage (pairing_complete t) = IsArray 16 t
IsMessage (hello session majors required optional permissions) =
    IsArray 16 session
    × IsArray 8 majors
    × IsArray 8 required
    × IsArray 8 optional
    × IsArray 8 permissions
IsMessage (hello_ack session major features permissions) =
    IsArray 16 session × (major < 256) × IsArray 8 features × IsArray 8 permissions
IsMessage (hello_reject session _) = IsArray 16 session
IsMessage (read_availability request operation) = (request < 2 ^ 32) × IsArray 16 operation
IsMessage (availability_result request operation _) = (request < 2 ^ 32) × IsArray 16 operation
IsMessage ping = Unit {0}
IsMessage pong = Unit {0}
IsMessage (close _) = Unit {0}
