-- ===== src/CoreS3.antt =====
-- crates/deskkin-core-s3/src/lib.rs: what the firmware stores, receives and passes between its cores.
pub mod Crc
pub mod Records
pub mod Control
pub mod Amp
use deskkin.Prelude.{ℕ, ◌+◌}

abbrev pub schema_version : ℕ
schema_version = 1

abbrev pub nvs_header_len : ℕ
nvs_header_len = 24

abbrev pub nvs_payload_max : ℕ
nvs_payload_max = 160

abbrev pub control_payload_max : ℕ
control_payload_max = 160

pub data DecodeError : Type 0 where
  truncated oversize unknown_schema unknown_state invalid_length invalid_crc : DecodeError
  conflicting_slots invalid_config unknown_command trailing_bytes : DecodeError
