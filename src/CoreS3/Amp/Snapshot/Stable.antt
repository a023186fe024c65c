-- ===== src/CoreS3/Amp/Snapshot/Stable.antt =====
-- What a reader decodes from the bytes of a snapshot, and from any bytes.
use deskkin.Prelude.{ne→==-false, ==_refl}
use Prim.Native.Nat.{bit_and}
use deskkin.Prelude.{ℕ, zero, suc, ◌+◌, ◌<◌, ◌≤◌, ◌≡◌, refl, Option, none, some, arith}
use deskkin.Prelude.Results.{Result, ok, err}
use deskkin.Prelude.Bytes.{Bytes}
use deskkin.Prelude.Slices.{slice}
use deskkin.CoreS3.Amp.Snapshot.{
  AmpTextureFilter, nearest, bilinear, AmpWorldSnapshot, AmpSnapshotError, from_le, decode_values,
  decode_amp_world_snapshot, availability_of, notice_of, filter_of, value_mask,
}
use deskkin.CoreS3.Amp.Snapshot.Fields.{
  value_u8, filter_u8, payload_bytes, OneTo, IsSnapshot, sas-eq, fields, tail_gets,
}

-- the value and the filter of one byte do not disturb each other
availability_known_lem :
    (value : Option ℕ) (filter : AmpTextureFilter)
    → OneTo 3 value
    → (availability_of (bit_and (value_u8 value + filter_u8 filter) value_mask) ≡ ok value)
      × (filter_of (value_u8 value + filter_u8 filter) ≡ filter)
availability_known_lem none nearest h = (refl, refl)
availability_known_lem none bilinear h = (refl, refl)
availability_known_lem (some zero) filter h = absurd (omega arith)
availability_known_lem (some (suc zero)) nearest h = (refl, refl)
availability_known_lem (some (suc zero)) bilinear h = (refl, refl)
availability_known_lem (some (suc (suc zero))) nearest h = (refl, refl)
availability_known_lem (some (suc (suc zero))) bilinear h = (refl, refl)
availability_known_lem (some (suc (suc (suc zero)))) nearest h = (refl, refl)
availability_known_lem (some (suc (suc (suc zero)))) bilinear h = (refl, refl)
availability_known_lem (some (suc (suc (suc (suc v))))) filter h = absurd (omega arith)

notice_known_lem :
    (value : Option ℕ) (filter : AmpTextureFilter)
    → OneTo 1 value
    → (notice_of (bit_and (value_u8 value + filter_u8 filter) value_mask) ≡ ok value)
      × (filter_of (value_u8 value + filter_u8 filter) ≡ filter)
notice_known_lem none nearest h = (refl, refl)
notice_known_lem none bilinear h = (refl, refl)
notice_known_lem (some zero) filter h = absurd (omega arith)
notice_known_lem (some (suc zero)) nearest h = (refl, refl)
notice_known_lem (some (suc zero)) bilinear h = (refl, refl)
notice_known_lem (some (suc (suc v))) filter h = absurd (omega arith)

module _ (s : AmpWorldSnapshot) (h : IsSnapshot s) where
  decode_values-payload_bytes : decode_values s.generation (payload_bytes s) ≡ ok s
  unfolding decode_values
  decode_values-payload_bytes =
      let a = availability_known_lem s.availability s.availability_filter h.availability_known in
      let n = notice_known_lem s.notice s.notice_filter h.notice_known in
      let g = tail_gets s h in
      let f = fields s h in
      rw (g.1, g.2, g.3, a.0, a.1, n.0, n.1, f.2, f.3, (sas-eq s.sas h.sas_fits).1)
        (ground (arith, h.shell_known))

-- what is known of a decoded snapshot, whatever the bytes
abbrev pub Accepted : ℕ → ℕ → Result AmpSnapshotError AmpWorldSnapshot → Type 0
Accepted before after (ok s) =
    (before ≡ after)
    × (0 < before)
    × (s.generation ≡ before)
    × (s.shell ≤ 4)
    × OneTo 3 s.availability
    × OneTo 1 s.notice
Accepted before after (err e) = Unit {0}

decode_values-known :
    (generation : ℕ) (payload : Bytes)
    → 0 < generation
    → Accepted generation generation (decode_values generation payload)
unfolding decode_values
decode_values-known generation payload some_generation = ground arith

decode-Accepted :
    (before after : ℕ) (payload : Bytes)
    → Accepted before after (decode_amp_world_snapshot before payload after)
unfolding decode_amp_world_snapshot
decode-Accepted before after payload =
    ground (arith, decode_values-known (from_le (slice 4 4 payload)) payload)

-- A reader that sees the same publication before and after it copies the bytes of a snapshot of that
-- generation decodes exactly that snapshot. Whatever bytes it copied, it decodes a snapshot only if
-- both publications are the same and not zero, the snapshot has that generation, and its shell,
-- availability and notice are known values.
pub stable_read :
    (s : AmpWorldSnapshot) (before after : ℕ) (copied : Bytes)
    → IsSnapshot s
    → (decode_amp_world_snapshot s.generation (payload_bytes s) s.generation ≡ ok s)
      × Accepted before after (decode_amp_world_snapshot before copied after)
unfolding decode_amp_world_snapshot
stable_read s before after copied h =
    let f = fields s h in
    (
      rw
          (
            ne→==-false s.generation 0 (λ e. omega (arith, h.published)),
            ==_refl s.generation,
            f.0,
            f.1,
            ==_refl s.generation,
            (tail_gets s h).0,
          )
          (decode_values-payload_bytes s h),
      decode-Accepted before after copied,
    )
