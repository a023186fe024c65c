-- ===== src/DesktopHost/Identity.antt =====
-- The identity store of apps/desktop-host/src/lib.rs: who the host is paired with, under which
-- generation. The state is the file identity-v1.json, parsed; that the directory and the lock are in
-- order is taken for granted. What the file system makes of a publication is an argument, since it
-- may fail before or after the rename that replaces the file.
pub mod Revocation
use deskkin.Prelude.{
  ℕ, ◌+◌, Bool, true, false, not, ◌&&◌, Option, none, some, List, [], ◌∷◌, ◌==◌, if◌then◌else◌,
}
use deskkin.Prelude.Results.{Result, ok, err, checked_add}
use deskkin.Prelude.Fallible.{◌>>=◌, ◌>>◌}
use deskkin.Prelude.Bytes.{Bytes, same_bytes}
use deskkin.DesktopHost.{
  StoreError, invalid, peer_mismatch, generation_exhausted, revoked_recovery_required,
}
use deskkin.DesktopHost.Hex.{validate_hex}

-- remote public key, then pairing transaction id
pub data PeerState : Type 0 where
  unpaired : PeerState
  pending committing paired revoking : Bytes → Bytes → PeerState

pub record Identity : Type 0 where
  pub local_private_key : Bytes
  pub local_public_key : Bytes
  pub generation : ℕ
  pub peer : PeerState

-- the end of a publication: not renamed, with an error; renamed, but the directory is not synced;
-- or complete
pub data Publication : Type 0 where
  failed : StoreError → Publication
  renamed : StoreError → Publication
  published : Publication

unfoldable pub validate_peer : PeerState → Result StoreError (Unit {0})
validate_peer unpaired = ok tt
validate_peer (pending key transaction) = do validate_hex key 32; validate_hex transaction 16
validate_peer (committing key transaction) = do validate_hex key 32; validate_hex transaction 16
validate_peer (paired key transaction) = do validate_hex key 32; validate_hex transaction 16
validate_peer (revoking key transaction) = do validate_hex key 32; validate_hex transaction 16

unfoldable pub valid_peer_transition : PeerState → PeerState → Bool
valid_peer_transition unpaired (pending _ _) = true
valid_peer_transition (pending key transaction) (committing next_key next_transaction) =
    same_bytes key next_key && same_bytes transaction next_transaction
valid_peer_transition (committing key transaction) (paired next_key next_transaction) =
    same_bytes key next_key && same_bytes transaction next_transaction
valid_peer_transition _ _ = false

-- what the call returns, and what is in the file after it
abbrev pub Stored : Type 0 → Type 0
Stored A = Result StoreError A × Identity

-- `publish_locked`
abbrev pub publish : Publication → Identity → Identity → Stored (Unit {0})
publish (failed e) value before = (err e, before)
publish (renamed e) value before = (err e, value)
publish published value before = (ok tt, value)

-- `set_peer` after its argument is validated
set_valid_peer : Publication → PeerState → Identity → Stored (Unit {0})
set_valid_peer publication peer identity =
    if not (valid_peer_transition identity.peer peer)
    then (err invalid, identity)
    else publish publication (record identity { peer = peer }) identity

abbrev pub after_check :
    Result StoreError (Unit {0}) → Identity → Stored (Unit {0}) → Stored (Unit {0})
after_check (ok _) identity next = next
after_check (err e) identity next = (err e, identity)

unfoldable pub set_peer : Publication → PeerState → Identity → Stored (Unit {0})
unfolding set_valid_peer validate_peer
set_peer publication peer identity =
    after_check (validate_peer peer) identity (set_valid_peer publication peer identity)

unfoldable pub paired_generation : Identity → Result StoreError ℕ
paired_generation identity = elim identity.peer [
  | paired _ _ ↦ ok identity.generation
  | _ ↦ err peer_mismatch
]

-- the last step of `unpair`: the peer is forgotten
abbrev forget : Publication → Identity → Stored (Unit {0})
forget (failed _) identity = (err revoked_recovery_required, identity)
forget (renamed _) identity = (err revoked_recovery_required, record identity { peer = unpaired })
forget published identity = (ok tt, record identity { peer = unpaired })

-- `revoked` is called when the file is renamed, and what it returns is joined when the write is over:
-- `joined` is what that says.
revoke : Publication → Bool → Publication → Identity → Identity → Stored (Unit {0})
revoke (failed e) joined last value before = (err e, before)
revoke (renamed e) joined last value before = (err revoked_recovery_required, value)
revoke published true last value before = forget last value
revoke published false last value before = (err revoked_recovery_required, value)

-- a peer that is not yet revoked gets the next generation first
unpair_peer : Publication → Bool → Publication → Bytes → Bytes → Identity → Stored (Unit {0})
unfolding revoke
unpair_peer first joined last remote transaction identity =
    elim (checked_add 64 identity.generation 1) [
      | none ↦ (err generation_exhausted, identity)
      | some next ↦
          revoke first joined last
            (record identity { generation = next; peer = revoking remote transaction }) identity
    ]

unfoldable pub unpair : Publication → Bool → Publication → Bytes → Identity → Stored (Unit {0})
unfolding unpair_peer
unpair first joined last remote identity = elim identity.peer [
  | unpaired ↦ (err peer_mismatch, identity)
  | pending key transaction ↦
      if not (same_bytes key remote)
      then (err peer_mismatch, identity)
      else unpair_peer first joined last remote transaction identity
  | committing key transaction ↦
      if not (same_bytes key remote)
      then (err peer_mismatch, identity)
      else unpair_peer first joined last remote transaction identity
  | paired key transaction ↦
      if not (same_bytes key remote)
      then (err peer_mismatch, identity)
      else unpair_peer first joined last remote transaction identity
  | revoking key transaction ↦
      if not (same_bytes key remote) then (err peer_mismatch, identity) else forget last identity
]
