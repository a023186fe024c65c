-- ===== src/DesktopHost/Session/Hello.antt =====
-- `negotiate_hello` of apps/desktop-host/src/lib.rs: what a companion's first message has to offer.
use Prim.Native.Nat.{bit_and, bit_or}
use native.Mathlib.Nat.{pow-suc}
use deskkin.Prelude.{
  ℕ, zero, suc, ◌-◌, ◌*◌, ◌/◌, ◌%◌, ◌^◌, ◌<◌, ◌≤◌, ◌≡◌, ◌↔◌, ◌⊎◌, refl, ap, Bool, false, not, ◌||◌,
  [], ◌∷◌, All, length, get_or, max, replicate, ◌==◌, if◌then◌else◌, arith,
}
use deskkin.Prelude.Results.{Result, ok, err}
use deskkin.Prelude.Bytes.{Bytes, AreBytes, IsArray}
use deskkin.Prelude.Bits.{bit_and_step, bit_or_step, bit_and-one, bit_or-lt}
use deskkin.Protocol.{
  Message, hello, ContextId, Bits, HelloRejectReason, no_common_version,
  required_feature_unsupported, permission_denied,
}

-- `AVAILABILITY_READ_V1`, `AVAILABILITY_READ_PERMISSION` and `PROTOCOL_MAJOR_1`
abbrev pub availability_read_v1 : Bits
availability_read_v1 = 1 ∷ replicate 7 0

abbrev pub availability_read_permission : Bits
availability_read_permission = 1 ∷ replicate 7 0

abbrev pub protocol_major_1 : Bits
protocol_major_1 = 2 ∷ replicate 7 0

-- `.iter().zip(…).any(|(required, supported)| required & !supported != 0)`, with `!` on 8 bits
any_unsupported : Bits → Bits → Bool
any_unsupported (required ∷ rs) (supported ∷ ss) =
    not (bit_and required (255 - supported) == 0) || any_unsupported rs ss
any_unsupported _ _ = false

abbrev first_byte : Bits → ℕ
first_byte bits = get_or bits 0 0

negotiate : ContextId → Bits → Bits → Bits → Bits → Result (ContextId × HelloRejectReason) ContextId
unfolding any_unsupported
negotiate session majors required optional permissions =
    if bit_and (first_byte majors) 2 == 0
    then err (session, no_common_version)
    else if any_unsupported required availability_read_v1
        || bit_and (bit_or (first_byte required) (first_byte optional)) 1 == 0
    then err (session, required_feature_unsupported)
    else if bit_and (first_byte permissions) 1 == 0
    then err (session, permission_denied)
    else ok session

unfoldable pub negotiate_hello : Message → Result (ContextId × HelloRejectReason) ContextId
unfolding negotiate
negotiate_hello (hello session majors required optional permissions) =
    negotiate session majors required optional permissions
negotiate_hello _ = err (replicate 16 0, required_feature_unsupported)

-- the message that `write_hello` sends
abbrev pub client_hello : ContextId → Message
client_hello session =
    hello session protocol_major_1 availability_read_v1 (replicate 8 0) availability_read_permission

bit_and_two : (a : ℕ) → a < 256 → bit_and a 2 ≡ a / 2 % 2 * 2
bit_and_two a h = omega (arith, bit_and_step a 2, bit_and-one 8 (a / 2) (omega arith))

ones : (k a : ℕ) → a < 2 ^ k → bit_and a (2 ^ k - 1) ≡ a
ones zero zero h = refl
ones zero (suc a) h = absurd (omega arith)
ones (suc k) a h =
    let mask = 2 ^ suc k - 1 in
    omega (
      arith,
      pow-suc 2 k,
      bit_and_step a mask,
      ap (bit_and (a / 2)) {x = mask / 2} {y = 2 ^ k - 1} (omega (arith, pow-suc 2 k)),
      ones k (a / 2) (omega (arith, pow-suc 2 k)),
    )

bit_and_255 : (a : ℕ) → a < 256 → bit_and a 255 ≡ a
bit_and_255 a h = ones 8 a h

bit_and_254 : (a : ℕ) → a < 256 → bit_and a 254 ≡ a / 2 * 2
bit_and_254 a h = omega (arith, bit_and_step a 254, ones 7 (a / 2) (omega arith))

bit_and_or_one : (a b : ℕ) → a < 256 → b < 256 → bit_and (bit_or a b) 1 ≡ max (a % 2) (b % 2)
bit_and_or_one a b ha hb =
    omega (arith, bit_and-one 8 (bit_or a b) (bit_or-lt 8 a b ha hb), bit_or_step a b)

abbrev pub IsZero : ℕ → Type 0
IsZero b = b ≡ 0

none_unsupported :
    (n : ℕ) (rest : Bits)
    → AreBytes rest
    → length rest ≡ n
    → (any_unsupported rest (replicate n 0) ≡ false) ↔ All IsZero rest
unfolding any_unsupported
none_unsupported zero [] h len = ground arith
none_unsupported zero (b ∷ rest) h len = absurd (omega arith)
none_unsupported (suc n) [] h len = absurd (omega arith)
none_unsupported (suc n) (b ∷ rest) h len =
    ground (arith, bit_and_255 b h.0, none_unsupported n rest h.1 (omega arith))

-- what a hello has to offer, by its first bytes and the rest of its required features
pub record Offers (major required : ℕ) (rest : Bits) (optional permission : ℕ) : Type 0 where
  pub speaks_major_1 : major / 2 % 2 ≡ 1
  pub requires_no_more : (required ≤ 1) × All IsZero rest
  pub reads_availability : (required % 2 ≡ 1) ⊎ (optional % 2 ≡ 1)
  pub asks_permission : permission % 2 ≡ 1

module _ (session majors rest optionals permissions : Bytes) (m r o p : ℕ) where
  -- A hello of bytes is answered with its session exactly if it speaks the first major version,
  -- requires no feature but the reading of availability, names that feature as required or optional,
  -- and asks for the permission to read it.
  pub negotiate_hello_ok_iff :
      (m < 256) × (r < 256) × (o < 256) × (p < 256)
      → IsArray 7 rest
      → (negotiate_hello (hello session (m ∷ majors) (r ∷ rest) (o ∷ optionals) (p ∷ permissions))
          ≡ ok session)
        ↔ Offers m r rest o p
  unfolding negotiate_hello any_unsupported
  negotiate_hello_ok_iff (hm, hr, ho, hp) h = ground (
    arith,
    bit_and_two m hm,
    bit_and_254 r hr,
    bit_and_or_one r o hr ho,
    bit_and-one 8 p hp,
    none_unsupported 7 rest h.1 h.0,
  )

-- The host accepts the hello of its own client, in any session.
pub client_hello_accepted :
    (session : ContextId) → negotiate_hello (client_hello session) ≡ ok session
unfolding negotiate_hello
client_hello_accepted session = refl
