-- ===== src/CoreS3/Control.antt =====
-- Control frames and the network configuration of crates/deskkin-core-s3/src/lib.rs.
pub mod RoundTrip
use deskkin.Prelude.{◌^◌}
use deskkin.Prelude.{
  ℕ, ◌+◌, ◌<◌, ◌≤◌, ◌≡◌, ◌↔◌, ◌⊎◌, Bool, true, not, ◌&&◌, ◌||◌, [], ◌∷◌, ◌++◌, length, drop, get_or,
  All, ◌==◌, ltb, leb, if◌then◌else◌, arith,
}
use deskkin.Prelude.Results.{Result, ok, err}
use deskkin.Prelude.Fallible.{◌>>=◌}
use deskkin.Prelude.Bytes.{Bytes, from_be, to_be}
use deskkin.Prelude.Slices.{slice}
use deskkin.CoreS3.{
  schema_version, control_payload_max, DecodeError, truncated, oversize, unknown_schema,
  invalid_config, unknown_command, trailing_bytes,
}

pub data ControlCommand : Type 0 where
  identity_init identity_list identity_unpair wifi_provision wifi_status wifi_clear : ControlCommand
  run status shutdown world_benchmark_start : ControlCommand

-- `as u8`
abbrev pub command_u8 : ControlCommand → ℕ
command_u8 identity_init = 1
command_u8 identity_list = 2
command_u8 identity_unpair = 3
command_u8 wifi_provision = 4
command_u8 wifi_status = 5
command_u8 wifi_clear = 6
command_u8 run = 7
command_u8 status = 8
command_u8 shutdown = 9
command_u8 world_benchmark_start = 10

abbrev pub command_of : ℕ → Result DecodeError ControlCommand
command_of value =
    if value == 1
    then ok identity_init
    else if value == 2
    then ok identity_list
    else if value == 3
    then ok identity_unpair
    else if value == 4
    then ok wifi_provision
    else if value == 5
    then ok wifi_status
    else if value == 6
    then ok wifi_clear
    else if value == 7
    then ok run
    else if value == 8
    then ok status
    else if value == 9
    then ok shutdown
    else if value == 10
    then ok world_benchmark_start
    else err unknown_command

pub record ControlFrame : Type 0 where
  pub command : ControlCommand
  pub command_id : Bytes
  pub owner_generation : ℕ
  pub payload : Bytes

abbrev pub header : ℕ
header = 28

unfoldable pub decode_frame : ControlCommand → Bytes → Result DecodeError ControlFrame
decode_frame command input =
    let payload_len = from_be 0 (slice 26 2 input) in
    if ltb control_payload_max payload_len
    then err oversize
    else if not (length input == header + payload_len)
    then err trailing_bytes
    else ok (record {
      command = command;
      command_id = slice 2 16 input;
      owner_generation = from_be 0 (slice 18 8 input);
      payload = drop header input;
    })

unfoldable pub decode_control : Bytes → Result DecodeError ControlFrame
unfolding decode_frame
decode_control input =
    if ltb (length input) header
    then err truncated
    else if not (get_or input 0 0 == schema_version)
    then err unknown_schema
    else (do command ← command_of (get_or input 1 0); decode_frame command input)

pub record WifiConfig : Type 0 where
  pub ssid : Bytes
  pub passphrase : Bytes
  pub host_ipv4 : Bytes

unfoldable pub is_rfc1918 : Bytes → Bool
is_rfc1918 value =
    get_or value 0 0 == 10
    || get_or value 0 0 == 172 && leb 16 (get_or value 1 0) && leb (get_or value 1 0) 31
    || get_or value 0 0 == 192 && get_or value 1 0 == 168

-- `.iter().all(|byte| (0x20..=0x7e).contains(byte))`
all_printable : Bytes → Bool
all_printable [] = true
all_printable (b ∷ bs) = leb 0x20 b && leb b 0x7e && all_printable bs

unfoldable pub validate : WifiConfig → Result DecodeError (Unit {0})
unfolding is_rfc1918 all_printable
validate config =
    if not (leb 1 (length config.ssid) && leb (length config.ssid) 32)
      || not (leb 8 (length config.passphrase) && leb (length config.passphrase) 63)
      || not (all_printable config.passphrase)
      || not (is_rfc1918 config.host_ipv4)
    then err invalid_config
    else ok tt

abbrev pub IsPrintable : ℕ → Type 0
IsPrintable b = (0x20 ≤ b) × (b ≤ 0x7e)

all_printable_iff : (bytes : Bytes) → (all_printable bytes ≡ true) ↔ All IsPrintable bytes
unfolding all_printable
all_printable_iff [] = ground arith
all_printable_iff (b ∷ bs) = ground (arith, all_printable_iff bs)

-- 10/8, 172.16/12 and 192.168/16, by the first two bytes
abbrev pub IsPrivate : ℕ → ℕ → Type 0
IsPrivate a b = (a ≡ 10) ⊎ ((a ≡ 172) × (16 ≤ b) × (b < 32)) ⊎ ((a ≡ 192) × (b ≡ 168))

-- A configuration is accepted exactly if its name has 1 to 32 bytes, its passphrase 8 to 63 printable
-- ones, and its host has a private address.
pub validate_ok_iff :
    (config : WifiConfig) (a b : ℕ) (rest : Bytes)
    → config.host_ipv4 ≡ a ∷ b ∷ rest
    → (validate config ≡ ok tt) ↔ (
        (1 ≤ length config.ssid)
        × (length config.ssid ≤ 32)
        × (8 ≤ length config.passphrase)
        × (length config.passphrase ≤ 63)
        × All IsPrintable config.passphrase
        × IsPrivate a b)
unfolding validate
validate_ok_iff config a b rest h = ground (arith, all_printable_iff config.passphrase)
