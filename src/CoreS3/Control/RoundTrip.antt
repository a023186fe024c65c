-- ===== src/CoreS3/Control/RoundTrip.antt =====
-- The bytes of a control frame, and what decoding gives for them.
use deskkin.Prelude.{
  ℕ, ◌+◌, ◌<◌, ◌≤◌, ◌^◌, ◌≡◌, refl, ap, ◌∙◌, false, [], ◌∷◌, ◌++◌, length, drop, get_or, ltb, arith,
  length-append,
}
use mathlib.Core.List.{append_assoc}
use deskkin.Prelude.Results.{ok}
use deskkin.Prelude.Bytes.{Bytes, from_be, to_be, length-to_be, from_be-to_be}
use deskkin.Prelude.Slices.{slice, slice-here, slice-past, drop-here}
use deskkin.CoreS3.{schema_version, control_payload_max}
use deskkin.CoreS3.Control.{
  ControlCommand, identity_init, identity_list, identity_unpair, wifi_provision, wifi_status,
  wifi_clear, run, status, shutdown, world_benchmark_start, command_u8, command_of, ControlFrame,
  header, decode_frame, decode_control,
}

-- the bytes of a frame
unfoldable pub frame_bytes : ControlFrame → Bytes
frame_bytes f =
    schema_version
    ∷ command_u8 f.command
    ∷ (f.command_id ++ (to_be 8 f.owner_generation ++ (to_be 2 (length f.payload) ++ f.payload)))

pub record IsFrame (f : ControlFrame) : Type 0 where
  pub id_length : length f.command_id ≡ 16
  pub generation_fits : f.owner_generation < 2 ^ 64
  pub payload_fits : length f.payload ≤ control_payload_max

command_of-command_u8 : (command : ControlCommand) → command_of (command_u8 command) ≡ ok command
command_of-command_u8 identity_init = refl
command_of-command_u8 identity_list = refl
command_of-command_u8 identity_unpair = refl
command_of-command_u8 wifi_provision = refl
command_of-command_u8 wifi_status = refl
command_of-command_u8 wifi_clear = refl
command_of-command_u8 run = refl
command_of-command_u8 status = refl
command_of-command_u8 shutdown = refl
command_of-command_u8 world_benchmark_start = refl

decode_control-prefix :
    (input : Bytes) (command : ControlCommand)
    → header ≤ length input
    → get_or input 0 0 ≡ schema_version
    → command_of (get_or input 1 0) ≡ ok command
    → decode_control input ≡ decode_frame command input
unfolding decode_control
decode_control-prefix input command len version known =
    let long : ltb (length input) header ≡ false = ground arith in rw (long, version, known)

read : (n v : ℕ) → v < 256 ^ n → from_be 0 (to_be n v) ≡ v
read n v h = omega (arith, from_be-to_be n v 0 h)

module _ (f : ControlFrame) (h : IsFrame f) where
  length-frame_bytes : length (frame_bytes f) ≡ header + length f.payload
  unfolding frame_bytes
  length-frame_bytes =
      let g = to_be 8 f.owner_generation in
      let l = to_be 2 (length f.payload) in
      omega (
        arith,
        h.id_length,
        length-append f.command_id (g ++ (l ++ f.payload)),
        length-append g (l ++ f.payload),
        length-append l f.payload,
        length-to_be 8 f.owner_generation,
        length-to_be 2 (length f.payload),
      )

  frame_slices :
      (slice 2 16 (frame_bytes f) ≡ f.command_id)
      × (from_be 0 (slice 18 8 (frame_bytes f)) ≡ f.owner_generation)
      × (from_be 0 (slice 26 2 (frame_bytes f)) ≡ length f.payload)
  unfolding frame_bytes
  frame_slices =
      let start = schema_version ∷ command_u8 f.command ∷ [] in
      let g = to_be 8 f.owner_generation in
      let l = to_be 2 (length f.payload) in
      let r2 = l ++ f.payload in
      let r1 = g ++ r2 in
      let r0 = f.command_id ++ r1 in
      let lg = length-to_be 8 f.owner_generation in
      let ll = length-to_be 2 (length f.payload) in
      (
        slice-past 2 0 16 start r0 refl ∙ slice-here 16 f.command_id r1 h.id_length,
        ap (from_be 0) (
              slice-past 2 16 8 start r0 refl
              ∙ slice-past 16 0 8 f.command_id r1 h.id_length
              ∙ slice-here 8 g r2 lg)
            ∙ read 8 f.owner_generation (omega (arith, h.generation_fits)),
        ap (from_be 0) (
              slice-past 2 24 2 start r0 refl
              ∙ slice-past 16 8 2 f.command_id r1 h.id_length
              ∙ slice-past 8 0 2 g r2 lg
              ∙ slice-here 2 l f.payload ll)
            ∙ read 2 (length f.payload) (omega (arith, h.payload_fits)),
      )

  drop-frame_bytes : drop header (frame_bytes f) ≡ f.payload
  unfolding frame_bytes
  drop-frame_bytes =
      let g = to_be 8 f.owner_generation in
      let l = to_be 2 (length f.payload) in
      rw (← append_assoc g l f.payload, ← append_assoc f.command_id (g ++ l) f.payload)
        (drop-here 26 (f.command_id ++ (g ++ l)) f.payload (
          omega (
            arith,
            h.id_length,
            length-append f.command_id (g ++ l),
            length-append g l,
            length-to_be 8 f.owner_generation,
            length-to_be 2 (length f.payload),
          )))

  decode_frame-frame_bytes : decode_frame f.command (frame_bytes f) ≡ ok f
  unfolding decode_frame
  decode_frame-frame_bytes =
      let (id, generation, size) = frame_slices in
      rw (id, generation, size, drop-frame_bytes, length-frame_bytes)
        (ground (arith, h.payload_fits))

  -- The bytes of a frame whose payload is within the bound decode to the frame.
  pub decode_control-frame_bytes : decode_control (frame_bytes f) ≡ ok f
  decode_control-frame_bytes =
      decode_control-prefix (frame_bytes f) f.command (omega (arith, length-frame_bytes))
        (unfold frame_bytes in refl) (unfold frame_bytes in command_of-command_u8 f.command)
      ∙ decode_frame-frame_bytes
