-- ===== src/Examples/Hosting.antt =====
-- The desktop host in a few short runs.
use deskkin.Prelude.{none}
use deskkin.Protocol.{
  pairing_begin, pairing_decision, pairing_prepared, pairing_commit, pairing_committed,
  PairingDecision,
}
use deskkin.DesktopHost.Pairing.Confirmed.{Justified, pair_responder-Justified}
use deskkin.DesktopHost.Pairing.{Meets, Responder, pair_responder}
use deskkin.Prelude.{
  ◌≡◌, ◌≢◌, ◌↔◌, refl, true, false, List, [], ◌∷◌, replicate, arith, if◌then◌else◌,
}
use deskkin.Prelude.Results.{ok, err}
use deskkin.Prelude.Bytes.{Bytes, same_bytes}
use deskkin.Protocol.{hello, AvailabilityResult}
use deskkin.DesktopHost.{revoked_recovery_required, peer_mismatch, io}
use deskkin.DesktopHost.Hex.{hex, validate_hex, decode_hex}
use deskkin.DesktopHost.Hex.Laws.{decode_hex-hex}
use deskkin.DesktopHost.Identity as Store
use deskkin.DesktopHost.Identity.{
  Identity, paired, revoking, unpaired, failed, renamed, published, paired_generation,
}
use deskkin.DesktopHost.Identity.Revocation.{
  Call, run, Unpairs, revoked_generation_is_gone, unpair-Unpairs, unpair_again_completes, Attempt,
  attempts, forgotten, is_unpaired,
}
use deskkin.DesktopHost.Session.Hello.{negotiate_hello, Offers, negotiate_hello_ok_iff}
use deskkin.DesktopHost.Session.Reads.Linked.{Files}
use deskkin.DesktopHost.Session.Reads.Runs.{Read, starts, events, completions, every_read_completes}

decode_hex-hex_example :
    (validate_hex (hex (0 ∷ 171 ∷ [])) 2 ≡ ok tt)
    × (decode_hex (hex (0 ∷ 171 ∷ [])) ≡ ok (0 ∷ 171 ∷ []))
decode_hex-hex_example = decode_hex-hex (0 ∷ 171 ∷ []) (omega arith, (omega arith, tt))

abbrev key : Bytes
key = 49 ∷ []

abbrev transaction : Bytes
transaction = 50 ∷ []

abbrev with_peer : Identity
with_peer = record {
  local_private_key = 51 ∷ [];
  local_public_key = 52 ∷ [];
  generation = 6;
  peer = paired key transaction;
}

-- the directory could not be synced after the rename
abbrev unsynced : Call
unsynced = Call.unpair (renamed io) true published key

revoked_generation_is_gone_example :
    paired_generation (run (unsynced ∷ Call.unpair published true published key ∷ []) with_peer)
    ≢ ok 6
revoked_generation_is_gone_example =
    revoked_generation_is_gone (renamed io) published true key transaction with_peer
      (Call.unpair published true published key ∷ []) refl (omega arith) tt

unpair-Unpairs_example :
    Unpairs key with_peer (Store.unpair (renamed io) true published key with_peer)
unpair-Unpairs_example = unpair-Unpairs (renamed io) published true key with_peer tt

abbrev revoked : Identity
revoked = record with_peer { generation = 7; peer = revoking key transaction }

left_unfinished :
    Store.unpair (renamed io) true published key with_peer
    ≡ (err revoked_recovery_required, revoked)
unfolding Store.unpair same_bytes
left_unfinished = refl

-- one attempt fails, and the next is not synced
abbrev failing : List Attempt
failing =
    record { first = published; joined = true; last = failed io }
    ∷ record { first = published; joined = true; last = renamed io }
    ∷ []

unpair_again_completes_example :
    let now = attempts failing key revoked in
    (now ≡ forgotten revoked)
    × (Store.unpair published true published key now
        ≡ ((if is_unpaired now.peer then err peer_mismatch else ok tt), forgotten revoked))
unpair_again_completes_example =
    unpair_again_completes (renamed io) published published true true failing key with_peer revoked
      tt left_unfinished

negotiate_hello_ok_iff_example :
    (negotiate_hello (hello (replicate 16 1) (2 ∷ []) (1 ∷ replicate 7 0) (0 ∷ []) (1 ∷ []))
      ≡ ok (replicate 16 1))
    ↔ Offers 2 1 (replicate 7 0) 0 1
negotiate_hello_ok_iff_example =
    negotiate_hello_ok_iff (replicate 16 1) [] (replicate 7 0) [] [] 2 1 0 1
      (omega arith, omega arith, omega arith, omega arith) (refl, ground arith)

abbrev two_reads : List Read
two_reads =
    record { effect_id = 1; operation = replicate 16 3 }
    ∷ record { effect_id = 3; operation = replicate 16 4 }
    ∷ []

with_peer-paired : paired_generation with_peer ≡ ok 6
unfolding paired_generation
with_peer-paired = refl

abbrev files : Files
files = record { companion_file = with_peer; host_file = with_peer; host_generation = 6 }

every_read_completes_example :
    events files
      (replicate 16 1)
      two_reads
      (starts (replicate 16 1) AvailabilityResult.unavailable 6)
    ≡ completions AvailabilityResult.unavailable two_reads
every_read_completes_example =
    every_read_completes files 6 (replicate 16 1) AvailabilityResult.unavailable two_reads
      with_peer-paired with_peer-paired (omega arith, (omega arith, tt)) (omega arith)

abbrev transaction_id : Bytes
transaction_id = replicate 16 5

abbrev remote_key : Bytes
remote_key = hex (replicate 32 1)

-- both users agree, and nothing fails
abbrev agreeing : Meets
agreeing = record {
  begin = ok (pairing_begin transaction_id);
  decision = ok (pairing_decision transaction_id PairingDecision.confirmed);
  prepared = ok (pairing_prepared transaction_id);
  commit = ok (pairing_commit transaction_id);
  committed = ok (pairing_committed transaction_id);
  greeting = ok (hello (replicate 16 1) (1 ∷ []) (1 ∷ replicate 7 0) [] (1 ∷ []));
  reserved = true;
  confirmed = true;
  expired = λ _. false;
  publication = λ _. published;
  write_error = λ _. none;
}

abbrev alone : Responder
alone = record { stored = record with_peer { peer = unpaired }; sent = [] }

pair_responder-Justified_example :
    Justified agreeing remote_key transaction_id
      (pair_responder agreeing remote_key alone).1.stored.peer
pair_responder-Justified_example = pair_responder-Justified agreeing remote_key alone refl

agreeing_pairs :
    (pair_responder agreeing remote_key alone).1.stored.peer
    ≡ paired remote_key (hex transaction_id)
unfolding pair_responder hex validate_hex same_bytes Store.validate_peer Store.valid_peer_transition
    Store.set_peer negotiate_hello
agreeing_pairs = refl
