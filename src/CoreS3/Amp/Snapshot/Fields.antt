-- ===== src/CoreS3/Amp/Snapshot/Fields.antt =====
-- The bytes of a snapshot, and where its fields stand in them.
use native.Mathlib.Nat.{pow-suc}
use deskkin.Prelude.{
  ℕ, zero, suc, ◌+◌, ◌-◌, ◌/◌, ◌%◌, ◌^◌, ◌<◌, ◌≤◌, ◌≡◌, refl, ap, ◌∙◌, Option, none, some, [], ◌∷◌,
  ◌++◌, length, get_or, arith, if◌then◌else◌, ◌==◌,
}
use deskkin.Prelude.Bytes.{Bytes}
use deskkin.Prelude.Slices.{slice, slice-here, slice-past, get_or-past}
use deskkin.CoreS3.Amp.Snapshot.{
  AmpTextureFilter, nearest, bilinear, AmpWorldSnapshot, from_le, amp_world_magic, amp_world_schema,
}

-- `to_le_bytes`
unfoldable pub to_le : ℕ → ℕ → Bytes
to_le zero v = []
to_le (suc n) v = (v % 256) ∷ to_le n (v / 256)

from_le-to_le : (n v : ℕ) → v < 256 ^ n → from_le (to_le n v) ≡ v
unfolding from_le to_le
from_le-to_le zero v h = omega arith
from_le-to_le (suc n) v h =
    omega (arith, pow-suc 256 n, from_le-to_le n (v / 256) (omega (arith, pow-suc 256 n)))

length-to_le : (n v : ℕ) → length (to_le n v) ≡ n
unfolding to_le
length-to_le zero v = refl
length-to_le (suc n) v = ap suc (length-to_le n (v / 256))

abbrev pub value_u8 : Option ℕ → ℕ
value_u8 none = 0
value_u8 (some value) = value

abbrev pub filter_u8 : AmpTextureFilter → ℕ
filter_u8 nearest = 0
filter_u8 bilinear = 0x80

abbrev pub sas_u32 : Option ℕ → ℕ
sas_u32 none = 2 ^ 32 - 1
sas_u32 (some sas) = sas

-- the bytes of a snapshot
unfoldable pub payload_bytes : AmpWorldSnapshot → Bytes
payload_bytes s =
    to_le 4 amp_world_magic
    ++ (to_le 4 s.generation
        ++ (to_le 8 s.observed_yaw
            ++ (to_le 4 (sas_u32 s.sas)
                ++ amp_world_schema
                  ∷ s.shell
                  ∷ (value_u8 s.availability + filter_u8 s.availability_filter)
                  ∷ (value_u8 s.notice + filter_u8 s.notice_filter)
                  ∷ [])))

abbrev pub OneTo : ℕ → Option ℕ → Type 0
OneTo n none = Unit {0}
OneTo n (some value) = (0 < value) × (value ≤ n)

abbrev pub Digits : Option ℕ → Type 0
Digits none = Unit {0}
Digits (some sas) = sas < 2 ^ 32 - 1

pub record IsSnapshot (s : AmpWorldSnapshot) : Type 0 where
  pub published : 0 < s.generation
  pub generation_fits : s.generation < 2 ^ 32
  pub yaw_fits : s.observed_yaw < 2 ^ 64
  pub sas_fits : Digits s.sas
  pub shell_known : s.shell ≤ 4
  pub availability_known : OneTo 3 s.availability
  pub notice_known : OneTo 1 s.notice

pub sas-eq :
    (sas : Option ℕ)
    → Digits sas
    → (sas_u32 sas < 2 ^ 32)
      × ((if sas_u32 sas == 2 ^ 32 - 1 then none else some (sas_u32 sas)) ≡ sas)
sas-eq none h = (omega arith, refl)
sas-eq (some sas) h = ground arith

module _ (s : AmpWorldSnapshot) (h : IsSnapshot s) where
  tail_bytes : Bytes
  tail_bytes =
      amp_world_schema
      ∷ s.shell
      ∷ (value_u8 s.availability + filter_u8 s.availability_filter)
      ∷ (value_u8 s.notice + filter_u8 s.notice_filter)
      ∷ []

  pub fields :
      (from_le (slice 0 4 (payload_bytes s)) ≡ amp_world_magic)
      × (from_le (slice 4 4 (payload_bytes s)) ≡ s.generation)
      × (from_le (slice 8 8 (payload_bytes s)) ≡ s.observed_yaw)
      × (from_le (slice 16 4 (payload_bytes s)) ≡ sas_u32 s.sas)
  unfolding payload_bytes tail_bytes
  fields =
      let m = to_le 4 amp_world_magic in
      let g = to_le 4 s.generation in
      let y = to_le 8 s.observed_yaw in
      let d = to_le 4 (sas_u32 s.sas) in
      let r2 = d ++ tail_bytes in
      let r1 = y ++ r2 in
      let r0 = g ++ r1 in
      let lm = length-to_le 4 amp_world_magic in
      let lg = length-to_le 4 s.generation in
      let ly = length-to_le 8 s.observed_yaw in
      (
        ap from_le (slice-here 4 m r0 lm) ∙ from_le-to_le 4 amp_world_magic (omega arith),
        ap from_le (slice-past 4 0 4 m r0 lm ∙ slice-here 4 g r1 lg)
            ∙ from_le-to_le 4 s.generation (omega (arith, h.generation_fits)),
        ap from_le (slice-past 4 4 8 m r0 lm ∙ slice-past 4 0 8 g r1 lg ∙ slice-here 8 y r2 ly)
            ∙ from_le-to_le 8 s.observed_yaw (omega (arith, h.yaw_fits)),
        ap from_le (
              slice-past 4 12 4 m r0 lm
              ∙ slice-past 4 8 4 g r1 lg
              ∙ slice-past 8 0 4 y r2 ly
              ∙ slice-here 4 d tail_bytes (length-to_le 4 (sas_u32 s.sas)))
            ∙ from_le-to_le 4 (sas_u32 s.sas) (omega (arith, (sas-eq s.sas h.sas_fits).0)),
      )

  -- byte 20 + at, with its distances to the ends of the numbers before it
  tail-get :
      (at p q r : ℕ)
      → p ≡ 16 + at
      → q ≡ 12 + at
      → r ≡ 4 + at
      → get_or (payload_bytes s) (4 + p) 0 ≡ get_or tail_bytes at 0
  unfolding payload_bytes tail_bytes
  tail-get at p q r ep eq er =
      let m = to_le 4 amp_world_magic in
      let g = to_le 4 s.generation in
      let y = to_le 8 s.observed_yaw in
      let d = to_le 4 (sas_u32 s.sas) in
      let at_index : Bytes → ℕ → ℕ = λ bytes. λ i. get_or bytes i 0 in
      get_or-past 4 p m (g ++ (y ++ (d ++ tail_bytes))) 0 (length-to_le 4 amp_world_magic)
      ∙ ap (at_index (g ++ (y ++ (d ++ tail_bytes)))) {x = p} {y = 4 + q} (omega arith)
      ∙ get_or-past 4 q g (y ++ (d ++ tail_bytes)) 0 (length-to_le 4 s.generation)
      ∙ ap (at_index (y ++ (d ++ tail_bytes))) {x = q} {y = 8 + r} (omega arith)
      ∙ get_or-past 8 r y (d ++ tail_bytes) 0 (length-to_le 8 s.observed_yaw)
      ∙ ap (at_index (d ++ tail_bytes)) {x = r} {y = 4 + at} (omega arith)
      ∙ get_or-past 4 at d tail_bytes 0 (length-to_le 4 (sas_u32 s.sas))

  pub tail_gets :
      (get_or (payload_bytes s) 20 0 ≡ amp_world_schema)
      × (get_or (payload_bytes s) 21 0 ≡ s.shell)
      × (get_or (payload_bytes s) 22 0 ≡ value_u8 s.availability + filter_u8 s.availability_filter)
      × (get_or (payload_bytes s) 23 0 ≡ value_u8 s.notice + filter_u8 s.notice_filter)
  unfolding tail_bytes
  tail_gets = (
    tail-get 0 16 12 4 refl refl refl,
    tail-get 1 17 13 5 refl refl refl,
    tail-get 2 18 14 6 refl refl refl,
    tail-get 3 19 15 7 refl refl refl,
  )
