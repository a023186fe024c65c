-- ===== src/DesktopHost/Identity/Revocation.antt =====
-- A revoked pairing stays revoked, whatever fails on the way, and the revocation can be completed.
use deskkin.Prelude.{refl, subst}
use deskkin.Prelude.{
  ℕ, ◌+◌, ◌<◌, ◌≤◌, ◌^◌, ◌≡◌, ◌≢◌, Bool, true, false, ◌||◌, if◌then◌else◌, sym, ap, ◌∙◌, List, [],
  ◌∷◌, arith,
}
use deskkin.Prelude.Results.{ok, err}
use deskkin.Prelude.Bytes.{Bytes, same_bytes_iff}
use deskkin.DesktopHost.{revoked_recovery_required, peer_mismatch}
use deskkin.DesktopHost.Identity as Store
use deskkin.DesktopHost.Identity.{
  PeerState, unpaired, pending, committing, paired, revoking, Identity, Publication, failed,
  renamed, published, Stored, validate_peer, valid_peer_transition, paired_generation,
}

pub data Call : Type 0 where
  set_peer : Publication → PeerState → Call
  unpair : Publication → Bool → Publication → Bytes → Call

unfoldable pub call : Call → Identity → Identity
call (set_peer publication peer) identity = (Store.set_peer publication peer identity).1
call (unpair first joined last remote) identity = (Store.unpair first joined last remote identity).1

unfoldable pub run : List Call → Identity → Identity
run [] identity = identity
run (c ∷ calls) identity = run calls (call c identity)

call-le : (c : Call) (identity : Identity) → identity.generation ≤ (call c identity).generation
unfolding call Store.set_peer Store.unpair
call-le (set_peer publication peer) identity = ground arith
call-le (unpair first joined last remote) identity = ground arith

run-le :
    (calls : List Call) (identity : Identity)
    → identity.generation ≤ (run calls identity).generation
unfolding run
run-le [] identity = omega arith
run-le (c ∷ calls) identity = omega (arith, call-le c identity, run-le calls (call c identity))

-- the file was replaced, whether or not the directory was synced
abbrev pub IsRenamed : Publication → Type 0
IsRenamed (failed _) = ⊥
IsRenamed _ = Unit {0}

unpair-lt :
    (first last : Publication) (joined : Bool) (remote transaction : Bytes) (identity : Identity)
    → identity.peer ≡ paired remote transaction
    → identity.generation + 1 < 2 ^ 64
    → IsRenamed first
    → identity.generation < (Store.unpair first joined last remote identity).1.generation
unfolding Store.unpair
unpair-lt first last joined remote transaction identity at room done =
    ground (arith, same_bytes_iff remote remote)

paired_generation-eq :
    (identity : Identity) (generation : ℕ)
    → paired_generation identity ≡ ok generation
    → generation ≡ identity.generation
unfolding paired_generation
paired_generation-eq identity generation h = ground arith

-- Once the revocation of a paired peer has replaced the file, whether the calls after that failed or
-- not, the generation of that pairing is not the paired one again, whatever is called later: pairing
-- with the same peer included.
pub revoked_generation_is_gone :
    (first last : Publication) (joined : Bool) (remote transaction : Bytes) (identity : Identity)
    (calls : List Call)
    → identity.peer ≡ paired remote transaction
    → identity.generation + 1 < 2 ^ 64
    → IsRenamed first
    → paired_generation (run (unpair first joined last remote ∷ calls) identity)
      ≢ ok identity.generation
unfolding run call
revoked_generation_is_gone first last joined remote transaction identity calls at room done e =
    let after = (Store.unpair first joined last remote identity).1 in
    omega (
      arith,
      unpair-lt first last joined remote transaction identity at room done,
      run-le calls after,
      paired_generation-eq (run calls after) identity.generation e,
    )

-- the remote key of a peer
abbrev pub IsRemote : PeerState → Bytes → Type 0
IsRemote unpaired remote = ⊥
IsRemote (pending key _) remote = key ≡ remote
IsRemote (committing key _) remote = key ≡ remote
IsRemote (paired key _) remote = key ≡ remote
IsRemote (revoking key _) remote = key ≡ remote

abbrev IsRevoked : PeerState → Bytes → Type 0
IsRevoked unpaired remote = Unit {0}
IsRevoked (revoking key _) remote = key ≡ remote
IsRevoked _ remote = ⊥

-- What is left of a peer after each result of `unpair`.
abbrev pub Unpairs : Bytes → Identity → Stored (Unit {0}) → Type 0
Unpairs remote before (ok _, after) =
    IsRemote before.peer remote × (after.peer ≡ unpaired) × (before.generation ≤ after.generation)
Unpairs remote before (err revoked_recovery_required, after) =
    IsRemote before.peer remote × IsRevoked after.peer remote
Unpairs remote before (err e, after) = after ≡ before

-- The errors of a publication are those of files, not that of an unfinished revocation.
abbrev pub IsFileError : Publication → Type 0
IsFileError (failed revoked_recovery_required) = ⊥
IsFileError _ = Unit {0}

unpair_from :
    (first last : Publication) (joined : Bool) (remote : Bytes) (identity : Identity)
    (peer : PeerState)
    → identity.peer ≡ peer
    → IsFileError first
    → Unpairs remote identity (Store.unpair first joined last remote identity)
unfolding Store.unpair
unpair_from first last joined remote identity unpaired at file = ground arith
unpair_from first last joined remote identity (pending key transaction) at file =
    ground (arith, same_bytes_iff key remote)
unpair_from first last joined remote identity (committing key transaction) at file =
    ground (arith, same_bytes_iff key remote)
unpair_from first last joined remote identity (paired key transaction) at file =
    ground (arith, same_bytes_iff key remote)
unpair_from first last joined remote identity (revoking key transaction) at file =
    ground (arith, same_bytes_iff key remote)

-- Unpairing changes nothing unless it is asked for the peer in the file: then either that peer is
-- gone, or its revocation has replaced the file and the error says that it has to be completed, or
-- the error is another one and nothing has changed. That the first publication fails with the error
-- of an unfinished revocation, which is not one of files, is excluded.
pub unpair-Unpairs :
    (first last : Publication) (joined : Bool) (remote : Bytes) (identity : Identity)
    → IsFileError first
    → Unpairs remote identity (Store.unpair first joined last remote identity)
unpair-Unpairs first last joined remote identity file =
    unpair_from first last joined remote identity identity.peer refl file

left_over :
    (remote : Bytes) (before after : Identity)
    → Unpairs remote before (err revoked_recovery_required, after)
    → IsRevoked after.peer remote
left_over remote before after h = h.1

-- one more attempt to unpair: its two publications and what is joined between them
pub record Attempt : Type 0 where
  pub first : Publication
  pub joined : Bool
  pub last : Publication

abbrev pub attempts : List Attempt → Bytes → Identity → Identity
attempts [] remote identity = identity
attempts (a ∷ more) remote identity =
    attempts more remote (Store.unpair a.first a.joined a.last remote identity).1

-- the publication replaces the file
abbrev replaces : Publication → Bool
replaces (failed _) = false
replaces _ = true

abbrev pub any_replaces : List Attempt → Bool
any_replaces [] = false
any_replaces (a ∷ more) = replaces a.last || any_replaces more

abbrev pub forgotten : Identity → Identity
forgotten identity = record identity { peer = unpaired }

abbrev pub is_unpaired : PeerState → Bool
is_unpaired unpaired = true
is_unpaired _ = false

forgotten_self : (identity : Identity) → identity.peer ≡ unpaired → forgotten identity ≡ identity
forgotten_self identity e = ap (λ peer. record identity { peer = peer }) (sym e)

-- an attempt on what a revocation leaves
attempt_lem :
    (first last : Publication) (joined : Bool) (remote : Bytes) (identity : Identity)
    (peer : PeerState)
    → identity.peer ≡ peer
    → IsRevoked peer remote
    → (Store.unpair first joined last remote identity).1
      ≡ (if replaces last then forgotten identity else identity)
unfolding Store.unpair
attempt_lem first last joined remote identity unpaired e h =
    ground (arith, e, forgotten_self identity e)
attempt_lem first last joined remote identity (pending key transaction) e h = absurd h
attempt_lem first last joined remote identity (committing key transaction) e h = absurd h
attempt_lem first last joined remote identity (paired key transaction) e h = absurd h
attempt_lem first last joined remote identity (revoking key transaction) e h =
    ground (arith, e, h, same_bytes_iff key remote)

-- once forgotten, always forgotten
stays_forgotten :
    (later : List Attempt) (remote : Bytes) (identity : Identity)
    → identity.peer ≡ unpaired
    → attempts later remote identity ≡ identity
stays_forgotten [] remote identity e = refl
stays_forgotten (a ∷ later) remote identity e =
    let same : (Store.unpair a.first a.joined a.last remote identity).1 ≡ identity = ground (
      arith,
      attempt_lem a.first a.last a.joined remote identity unpaired e tt,
      forgotten_self identity e,
    ) in
    ap (attempts later remote) same ∙ stays_forgotten later remote identity e

attempts_lem :
    (later : List Attempt) (remote : Bytes) (identity : Identity)
    → IsRevoked identity.peer remote
    → attempts later remote identity ≡ (if any_replaces later then forgotten identity else identity)
attempts_lem [] remote identity h = refl
attempts_lem (a ∷ later) remote identity h =
    let once = attempt_lem a.first a.last a.joined remote identity identity.peer refl h in
    next (replaces a.last) once (attempts_lem later remote identity h)
  where
    next :
        (b : Bool)
        → (Store.unpair a.first a.joined a.last remote identity).1
          ≡ (if b then forgotten identity else identity)
        → attempts later remote identity
          ≡ (if any_replaces later then forgotten identity else identity)
        → attempts later remote (Store.unpair a.first a.joined a.last remote identity).1
          ≡ (if b || any_replaces later then forgotten identity else identity)
    next true e rest =
        ap (attempts later remote) e ∙ stays_forgotten later remote (forgotten identity) refl
    next false e rest = ap (attempts later remote) e ∙ rest

-- the attempt that succeeds
finish_lem :
    (first : Publication) (joined : Bool) (remote : Bytes) (identity : Identity) (peer : PeerState)
    → identity.peer ≡ peer
    → IsRevoked peer remote
    → Store.unpair first joined published remote identity
      ≡ ((if is_unpaired identity.peer then err peer_mismatch else ok tt), forgotten identity)
unfolding Store.unpair
finish_lem first joined remote identity unpaired e h = ground (arith, e, forgotten_self identity e)
finish_lem first joined remote identity (pending key transaction) e h = absurd h
finish_lem first joined remote identity (committing key transaction) e h = absurd h
finish_lem first joined remote identity (paired key transaction) e h = absurd h
finish_lem first joined remote identity (revoking key transaction) e h =
    ground (arith, e, h, same_bytes_iff key remote)

-- the file after some attempts
last_lem :
    (first : Publication) (joined b : Bool) (remote : Bytes) (after now : Identity)
    → now ≡ (if b then forgotten after else after)
    → IsRevoked after.peer remote
    → Store.unpair first joined published remote now
      ≡ ((if is_unpaired now.peer then err peer_mismatch else ok tt), forgotten after)
last_lem first joined true remote after now e h =
    finish_lem first joined remote now unpaired (ap (λ i. i.peer) e) tt
    ∙ ap (λ i. ((if is_unpaired now.peer then err peer_mismatch else ok tt), forgotten i)) e
last_lem first joined false remote after now e h =
    finish_lem first joined remote now after.peer (ap (λ i. i.peer) e) h
    ∙ ap (λ i. ((if is_unpaired now.peer then err peer_mismatch else ok tt), forgotten i)) e

-- However often unpairing is tried again after a revocation was left unfinished, whatever its
-- publications come to: the peer is gone as soon as the last publication of one attempt has replaced
-- the file, and until then the file stays as the first call left it. Whatever those attempts came to,
-- one more attempt whose last publication is complete leaves no peer, under the generation of the
-- revocation: it succeeds if the peer was still being revoked, and says that it is not the peer of the
-- file if an attempt, or the first call, had forgotten it already. That the first publication of the
-- first call fails with the error of an unfinished revocation, which is not one of files, is excluded.
pub unpair_again_completes :
    (first last again : Publication) (joined joins : Bool) (later : List Attempt) (remote : Bytes)
    (identity after : Identity)
    → IsFileError first
    → Store.unpair first joined last remote identity ≡ (err revoked_recovery_required, after)
    → let now = attempts later remote after in
      (now ≡ (if any_replaces later then forgotten after else after))
      × (Store.unpair again joins published remote now
          ≡ ((if is_unpaired now.peer then err peer_mismatch else ok tt), forgotten after))
unpair_again_completes first last again joined joins later remote identity after file h =
    let left =
      left_over remote identity after (
        subst (Unpairs remote identity) h
          (unpair-Unpairs first last joined remote identity file)) in
    let tried = attempts_lem later remote after left in
    (tried, last_lem again joins (any_replaces later) remote after _ tried left)
