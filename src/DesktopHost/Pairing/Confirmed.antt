-- ===== src/DesktopHost/Pairing/Confirmed.antt =====
-- What has been said by both sides when a peer is stored.
use deskkin.DesktopHost.Pairing.{
  Pairing, complete, store_committing, store_pending, ready, await_prepared, await_decision, decide,
  admit, pair_unpaired,
}
use deskkin.Prelude.{ap, ◌∙◌}
use deskkin.Protocol.{ContextId}
use deskkin.Prelude.{◌⊎◌, inl, inr, subst, sym}
use deskkin.DesktopHost.Identity.{Identity, Publication}
use deskkin.Prelude.{◌≡◌, refl, true, [], arith}
use deskkin.Prelude.Results.{Result, ok, err, lift, ◌>>=◌}
use deskkin.Prelude.Bytes.{Bytes, same_bytes_iff}
use deskkin.Protocol.{
  Message, TransactionId, pairing_begin, pairing_decision, pairing_prepared, pairing_commit,
  pairing_committed, hello, PairingDecision,
}
use deskkin.DesktopHost.{SessionError}
use deskkin.DesktopHost.Hex.{hex}
use deskkin.DesktopHost.Identity as Store
use deskkin.DesktopHost.Identity.{PeerState, unpaired, pending, committing, paired, revoking}
use deskkin.DesktopHost.Pairing.{
  Meets, Responder, decision_of, prepared_of, commit_of, committed_of, begin_of, session_of, trust,
  await_commit, pair_responder,
}

abbrev Names : Bytes → TransactionId → Bytes → Bytes → Type 0
Names remote transaction key text = (key ≡ remote) × (text ≡ hex transaction)

abbrev pub IsHello : Result SessionError Message → Type 0
IsHello (ok (hello _ _ _ _ _)) = Unit {0}
IsHello _ = ⊥

abbrev Agreed : Meets → TransactionId → Type 0
Agreed meets transaction =
    (meets.begin ≡ ok (pairing_begin transaction))
    × (meets.reserved ≡ true)
    × (meets.confirmed ≡ true)
    × (meets.decision ≡ ok (pairing_decision transaction PairingDecision.confirmed))
    × (meets.prepared ≡ ok (pairing_prepared transaction))

-- What has to be read before each state of the peer may be stored.
abbrev pub Justified : Meets → Bytes → TransactionId → PeerState → Type 0
Justified meets remote transaction unpaired = Unit {0}
Justified meets remote transaction (pending key text) =
    Names remote transaction key text × Agreed meets transaction
Justified meets remote transaction (committing key text) =
    Names remote transaction key text
    × Agreed meets transaction
    × (meets.commit ≡ ok (pairing_commit transaction))
Justified meets remote transaction (paired key text) =
    Names remote transaction key text
    × Agreed meets transaction
    × (meets.commit ≡ ok (pairing_commit transaction))
    × (meets.committed ≡ ok (pairing_committed transaction))
    × IsHello meets.greeting
Justified meets remote transaction (revoking _ _) = ⊥

commit_of-ok :
    (transaction : TransactionId) (m : Message) (u : Unit {0})
    → commit_of transaction m ≡ ok u
    → m ≡ pairing_commit transaction
unfolding commit_of
commit_of-ok transaction (pairing_commit t) u h = ground (arith, same_bytes_iff t transaction)
commit_of-ok transaction _ u h = cc

committed_of-ok :
    (transaction : TransactionId) (m : Message) (u : Unit {0})
    → committed_of transaction m ≡ ok u
    → m ≡ pairing_committed transaction
unfolding committed_of
committed_of-ok transaction (pairing_committed t) u h = ground (arith, same_bytes_iff t transaction)
committed_of-ok transaction _ u h = cc

prepared_of-ok :
    (transaction : TransactionId) (m : Message) (u : Unit {0})
    → prepared_of transaction m ≡ ok u
    → m ≡ pairing_prepared transaction
unfolding prepared_of
prepared_of-ok transaction (pairing_prepared t) u h = ground (arith, same_bytes_iff t transaction)
prepared_of-ok transaction _ u h = cc

decision_of-ok :
    (transaction : TransactionId) (m : Message) (u : Unit {0})
    → decision_of transaction m ≡ ok u
    → m ≡ pairing_decision transaction PairingDecision.confirmed
unfolding decision_of
decision_of-ok transaction (pairing_decision t PairingDecision.confirmed) u h =
    ground (arith, same_bytes_iff t transaction)
decision_of-ok transaction (pairing_decision t PairingDecision.rejected) u h =
    ground (arith, same_bytes_iff t transaction)
decision_of-ok transaction _ u h = cc

session_of-Hello : (m : Message) (session : ContextId) → session_of m ≡ ok session → IsHello (ok m)
unfolding session_of
session_of-Hello (hello _ _ _ _ _) session h = tt
session_of-Hello _ session h = ground arith

set_peer-cases :
    (publication : Publication) (peer : PeerState) (stored : Identity)
    → ((Store.set_peer publication peer stored).1.peer ≡ stored.peer)
      ⊎ ((Store.set_peer publication peer stored).1.peer ≡ peer)
unfolding Store.set_peer
set_peer-cases publication peer stored = ground arith

-- what holds when a result fails, and after it when it succeeds
lift-keeps :
    {A : Type 0} (P : Responder → Type 0) (result : Result SessionError A)
    (next : A → Pairing (Unit {0})) (r : Responder)
    → P r
    → ((a : A) → result ≡ ok a → P (next a r).1)
    → P ((lift result >>= next) r).1
lift-keeps P (ok a) next r before after = after a refl
lift-keeps P (err e) next r before after = before

module _ (meets : Meets) (remote : Bytes) (transaction : TransactionId) where
  -- storing a justified peer keeps the peer justified
  stored-Justified :
      (peer : PeerState) (stored : Identity)
      → Justified meets remote transaction stored.peer
      → Justified meets remote transaction peer
      → Justified meets remote transaction
          (Store.set_peer (meets.publication peer) peer stored).1.peer
  stored-Justified peer stored before now =
      elim (set_peer-cases (meets.publication peer) peer stored) [
        | inl same ↦ subst (Justified meets remote transaction) (sym same) before
        | inr next ↦ subst (Justified meets remote transaction) (sym next) now
      ]

  trust-Justified :
      (r : Responder)
      → Justified meets remote transaction r.stored.peer
      → Agreed meets transaction
      → meets.commit ≡ ok (pairing_commit transaction)
      → meets.committed ≡ ok (pairing_committed transaction)
      → Justified meets remote transaction (trust meets remote transaction r).1.stored.peer
  unfolding trust
  trust-Justified r before agreed asked answered =
      let peer = paired remote (hex transaction) in
      let kept : IsHello meets.greeting
          → Justified meets remote transaction
              (Store.set_peer (meets.publication peer) peer r.stored).1.peer =
        λ greeted.
          stored-Justified peer r.stored before ((refl, refl), agreed, asked, answered, greeted) in
      let greeted : (m : Message) (session : ContextId)
          → meets.greeting ≡ ok m
          → session_of m ≡ ok session
          → IsHello meets.greeting =
        λ m. λ session. λ e. λ k. subst IsHello (sym e) (session_of-Hello m session k) in
      grind (arith, kept, greeted)

  -- a part of the exchange after which the peer is justified if it was before
  abbrev KeepsJustified : (Meets → Bytes → TransactionId → Pairing (Unit {0})) → Type 0
  KeepsJustified part =
      (r : Responder)
      → Justified meets remote transaction r.stored.peer
      → Justified meets remote transaction (part meets remote transaction r).1.stored.peer

  complete-Justified :
      Agreed meets transaction
      → meets.commit ≡ ok (pairing_commit transaction)
      → KeepsJustified complete
  unfolding complete
  complete-Justified agreed asked r before =
      let answered : (m : Message) (u : Unit {0})
          → meets.committed ≡ ok m
          → committed_of transaction m ≡ ok u
          → meets.committed ≡ ok (pairing_committed transaction) =
        λ m. λ u. λ e. λ k. e ∙ ap ok (committed_of-ok transaction m u k) in
      let last : meets.committed ≡ ok (pairing_committed transaction) → KeepsJustified trust =
        λ e. λ later. λ now. trust-Justified later now agreed asked e in
      grind (arith, answered, last)

  store_committing-Justified :
      Agreed meets transaction
      → meets.commit ≡ ok (pairing_commit transaction)
      → KeepsJustified store_committing
  unfolding store_committing
  store_committing-Justified agreed asked r before =
      let peer = committing remote (hex transaction) in
      let kept = stored-Justified peer r.stored before ((refl, refl), agreed, asked) in
      let last = complete-Justified agreed asked in grind (arith, kept, last)

  await_commit-Justified : Agreed meets transaction → KeepsJustified await_commit
  unfolding await_commit
  await_commit-Justified agreed r before =
      let asked : (m : Message) (u : Unit {0})
          → meets.commit ≡ ok m
          → commit_of transaction m ≡ ok u
          → meets.commit ≡ ok (pairing_commit transaction) =
        λ m. λ u. λ e. λ k. e ∙ ap ok (commit_of-ok transaction m u k) in
      let last : meets.commit ≡ ok (pairing_commit transaction) → KeepsJustified store_committing =
        λ e. store_committing-Justified agreed e in
      grind (arith, asked, last)

  store_pending-Justified : Agreed meets transaction → KeepsJustified store_pending
  unfolding store_pending
  store_pending-Justified agreed r before =
      let peer = pending remote (hex transaction) in
      let kept = stored-Justified peer r.stored before ((refl, refl), agreed) in
      let last = await_commit-Justified agreed in grind (arith, kept, last)

  ready-Justified : Agreed meets transaction → KeepsJustified ready
  unfolding ready
  ready-Justified agreed r before = let last = store_pending-Justified agreed in grind (arith, last)

  module _ (begun : meets.begin ≡ ok (pairing_begin transaction)) where
    await_prepared-Justified :
        meets.reserved ≡ true
        → meets.confirmed ≡ true
        → meets.decision ≡ ok (pairing_decision transaction PairingDecision.confirmed)
        → KeepsJustified await_prepared
    unfolding await_prepared
    await_prepared-Justified reserved confirmed decision r before =
        let kept : Responder → Type 0 = λ x. Justified meets remote transaction x.stored.peer in
        lift-keeps kept meets.prepared _ r before (λ m. λ e.
          lift-keeps kept (prepared_of transaction m) _ r before (λ u. λ k.
            ready-Justified
              (begun, reserved, confirmed, decision, e ∙ ap ok (prepared_of-ok transaction m u k)) r
              before))

    await_decision-Justified :
        meets.reserved ≡ true → meets.confirmed ≡ true → KeepsJustified await_decision
    unfolding await_decision
    await_decision-Justified reserved confirmed r before =
        let decided : (m : Message) (u : Unit {0})
            → meets.decision ≡ ok m
            → decision_of transaction m ≡ ok u
            → meets.decision ≡ ok (pairing_decision transaction PairingDecision.confirmed) =
          λ m. λ u. λ e. λ k. e ∙ ap ok (decision_of-ok transaction m u k) in
        let last : meets.decision ≡ ok (pairing_decision transaction PairingDecision.confirmed)
            → KeepsJustified await_prepared =
          λ e. await_prepared-Justified reserved confirmed e in
        grind (arith, decided, last)

    decide-Justified : meets.reserved ≡ true → KeepsJustified decide
    unfolding decide
    decide-Justified reserved r before =
        let last : meets.confirmed ≡ true → KeepsJustified await_decision =
          λ e. await_decision-Justified reserved e in
        grind (arith, last)

    admit-Justified : KeepsJustified admit
    unfolding admit
    admit-Justified r before =
        let last : meets.reserved ≡ true → KeepsJustified decide = λ e. decide-Justified e in
        grind (arith, last)

-- the transaction that the other side began
abbrev pub transaction_of : Result SessionError Message → TransactionId
transaction_of (ok (pairing_begin transaction)) = transaction
transaction_of _ = []

module _ (meets : Meets) (remote : Bytes) where
  begun :
      (begin : Result SessionError Message) (r : Responder)
      → meets.begin ≡ begin
      → r.stored.peer ≡ unpaired
      → Justified meets remote (transaction_of begin) (pair_unpaired meets remote r).1.stored.peer
  unfolding pair_unpaired begin_of
  begun (ok (pairing_begin transaction)) r e free =
      let last =
        admit-Justified meets remote transaction e r
          (subst (Justified meets remote transaction) (sym free) tt) in
      simp e last
  begun _ r e free = simp (e, free) tt

  -- A responder that starts without a peer ends with none, or with one that has the key of the
  -- handshake and the transaction that the other side began: and it is pending only after the pairing
  -- window was reserved, both users have confirmed that transaction and the other side is prepared,
  -- committing only after the other side has asked to commit it, and paired only after the other side
  -- has committed it and said hello. This holds whatever is read, and wherever the exchange stops.
  pub pair_responder-Justified :
      (r : Responder)
      → r.stored.peer ≡ unpaired
      → Justified meets remote
          (transaction_of meets.begin)
          (pair_responder meets remote r).1.stored.peer
  unfolding pair_responder
  pair_responder-Justified r free = simp free (begun meets.begin r refl free)
