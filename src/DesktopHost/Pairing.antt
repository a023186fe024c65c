-- ===== src/DesktopHost/Pairing.antt =====
-- `pair_responder_stream_reserved_inner` of apps/desktop-host/src/lib.rs, from the first message
-- after the handshake: the host's half of a pairing. The authentication string, which is all that it
-- returns, and the diagnostics are left out.
pub mod Confirmed
use deskkin.Prelude.{
  ℕ, Bool, true, false, not, Option, none, some, List, [], ◌∷◌, ◌++◌, if◌then◌else◌,
}
use deskkin.Prelude.Results.{
  Result, ok, err, Method, pure, fail, lift, view, modify, map_err, ◌>>=◌, ◌>>◌,
}
use deskkin.Prelude.Bytes.{Bytes, same_bytes}
use deskkin.Protocol.{
  Message, TransactionId, ContextId, pairing_begin, pairing_decision, pairing_prepared,
  pairing_commit, pairing_committed, pairing_close, pairing_complete, hello, hello_reject,
  hello_ack, PairingDecision, PairingCloseReason, HelloRejectReason,
}
use deskkin.DesktopHost.{
  StoreError, SessionError, identity, protocol, pairing_timeout, incompatible, authorization_denied,
  session_busy, pairing_rejected, pairing_incomplete, store_failed,
}
use deskkin.DesktopHost.Hex.{hex}
use deskkin.DesktopHost.Identity as Store
use deskkin.DesktopHost.Identity.{
  Identity, PeerState, unpaired, pending, committing, paired, Publication,
}
use deskkin.DesktopHost.Session.Hello.{
  negotiate_hello, availability_read_v1, availability_read_permission,
}

-- what the host meets on the way: the messages that it reads, in order, or the errors of reading
-- them, the answers of its user and of its pairing window, the deadline at each check, the outcome of
-- each publication, and the error, if any, of sending a message
pub record Meets : Type 0 where
  pub begin : Result SessionError Message
  pub decision : Result SessionError Message
  pub prepared : Result SessionError Message
  pub commit : Result SessionError Message
  pub committed : Result SessionError Message
  pub greeting : Result SessionError Message
  pub reserved : Bool
  pub confirmed : Bool
  pub expired : ℕ → Bool
  pub publication : PeerState → Publication
  pub write_error : Message → Option SessionError

pub record Responder : Type 0 where
  pub stored : Identity
  pub sent : List Message

abbrev pub Pairing : Type 0 → Type 0
Pairing A = Method SessionError Responder A

abbrev transmit : Option SessionError → Message → Pairing (Unit {0})
transmit (some e) message = fail e
transmit none message = modify (λ r. record r { sent = r.sent ++ message ∷ [] })

-- `write_message(…)?`
abbrev write : Meets → Message → Pairing (Unit {0})
write meets message = transmit (meets.write_error message) message

-- `close_pairing`: an error of sending the message is dropped
abbrev pub close_pairing :
    {A : Type 0} → Meets → TransactionId → PairingCloseReason → SessionError → Pairing A
close_pairing meets transaction reason error r =
    (err error, (write meets (pairing_close transaction reason) r).1)

-- a check of the deadline
abbrev in_time : Meets → TransactionId → ℕ → Pairing (Unit {0})
in_time meets transaction check =
    if meets.expired check
    then close_pairing meets transaction PairingCloseReason.expired pairing_timeout
    else pure tt

abbrev stored_or_closed : Meets → TransactionId → Result StoreError (Unit {0}) → Pairing (Unit {0})
stored_or_closed meets transaction (ok _) = pure tt
stored_or_closed meets transaction (err _) =
    close_pairing meets transaction PairingCloseReason.store_failed store_failed

abbrev put_peer : Meets → PeerState → Responder → Result StoreError (Unit {0}) × Responder
put_peer meets peer r =
    let (result, stored) = Store.set_peer (meets.publication peer) peer r.stored in
    (result, record r { stored = stored })

-- `actor.set_peer(…).map_err(|_| close_pairing(…))?`
abbrev set_peer : Meets → TransactionId → PeerState → Pairing (Unit {0})
set_peer meets transaction peer r =
    let (result, after) = put_peer meets peer r in stored_or_closed meets transaction result after

unfoldable pub begin_of : Message → Result SessionError TransactionId
begin_of (pairing_begin transaction) = ok transaction
begin_of _ = err protocol

unfoldable pub decision_of : TransactionId → Message → Result SessionError (Unit {0})
decision_of transaction (pairing_decision t PairingDecision.confirmed) =
    if same_bytes t transaction then ok tt else err pairing_incomplete
decision_of transaction (pairing_decision t PairingDecision.rejected) =
    if same_bytes t transaction then err pairing_rejected else err pairing_incomplete
decision_of _ _ = err pairing_incomplete

unfoldable pub prepared_of : TransactionId → Message → Result SessionError (Unit {0})
prepared_of transaction (pairing_prepared t) =
    if same_bytes t transaction then ok tt else err protocol
prepared_of _ _ = err protocol

unfoldable pub commit_of : TransactionId → Message → Result SessionError (Unit {0})
commit_of transaction (pairing_commit t) = if same_bytes t transaction then ok tt else err protocol
commit_of _ _ = err protocol

unfoldable pub committed_of : TransactionId → Message → Result SessionError (Unit {0})
committed_of transaction (pairing_committed t) =
    if same_bytes t transaction then ok tt else err protocol
committed_of _ _ = err protocol

unfoldable pub session_of : Message → Result SessionError ContextId
session_of (hello session _ _ _ _) = ok session
session_of _ = err protocol

abbrev rejection_error : HelloRejectReason → SessionError
rejection_error HelloRejectReason.no_common_version = incompatible
rejection_error HelloRejectReason.required_feature_unsupported = incompatible
rejection_error HelloRejectReason.permission_denied = authorization_denied
rejection_error HelloRejectReason.session_busy = session_busy

-- after the peer is stored as paired: the hello is answered
answer_hello :
    Meets → ContextId → Result (ContextId × HelloRejectReason) ContextId → Pairing (Unit {0})
answer_hello meets session (ok _) =
    write meets (hello_ack session 1 availability_read_v1 availability_read_permission)
answer_hello meets session (err rejection) = do
  write meets (hello_reject session rejection.1)
  fail (rejection_error rejection.1)

-- from the hello on, with `complete_responder_trust`
unfoldable pub trust : Meets → Bytes → TransactionId → Pairing (Unit {0})
unfolding session_of answer_hello
trust meets remote transaction = do
  greeting ← lift meets.greeting
  session ← lift (session_of greeting)
  set_peer meets transaction (paired remote (hex transaction))
  answer_hello meets session (negotiate_hello greeting)

-- after the message that the commit is stored
unfoldable pub complete : Meets → Bytes → TransactionId → Pairing (Unit {0})
unfolding committed_of trust
complete meets remote transaction = do
  answered ← lift meets.committed
  lift (committed_of transaction answered)
  in_time meets transaction 4
  write meets (pairing_complete transaction)
  trust meets remote transaction

unfoldable pub store_committing : Meets → Bytes → TransactionId → Pairing (Unit {0})
unfolding complete
store_committing meets remote transaction = do
  set_peer meets transaction (committing remote (hex transaction))
  write meets (pairing_committed transaction)
  complete meets remote transaction

-- from the peer's commit on
unfoldable pub await_commit : Meets → Bytes → TransactionId → Pairing (Unit {0})
unfolding commit_of store_committing
await_commit meets remote transaction = do
  asked ← lift meets.commit
  lift (commit_of transaction asked)
  in_time meets transaction 3
  store_committing meets remote transaction

unfoldable pub store_pending : Meets → Bytes → TransactionId → Pairing (Unit {0})
unfolding await_commit
store_pending meets remote transaction = do
  set_peer meets transaction (pending remote (hex transaction))
  write meets (pairing_prepared transaction)
  await_commit meets remote transaction

unfoldable pub ready : Meets → Bytes → TransactionId → Pairing (Unit {0})
unfolding store_pending
ready meets remote transaction = do
  in_time meets transaction 2
  store_pending meets remote transaction

-- from the message that the other side is prepared on
unfoldable pub await_prepared : Meets → Bytes → TransactionId → Pairing (Unit {0})
unfolding prepared_of ready
await_prepared meets remote transaction = do
  prepared ← lift meets.prepared
  lift (prepared_of transaction prepared)
  ready meets remote transaction

-- from the decision of the other side's user on
unfoldable pub await_decision : Meets → Bytes → TransactionId → Pairing (Unit {0})
unfolding decision_of await_prepared
await_decision meets remote transaction = do
  decision ← lift meets.decision
  lift (decision_of transaction decision)
  await_prepared meets remote transaction

abbrev reserve : Meets → TransactionId → Pairing (Unit {0})
reserve meets transaction = if meets.reserved then pure tt else (do
  write meets (pairing_close transaction PairingCloseReason.pairing_busy)
  fail session_busy)

abbrev decided : Bool → PairingDecision
decided true = PairingDecision.confirmed
decided false = PairingDecision.rejected

abbrev confirm : Meets → Pairing (Unit {0})
confirm meets = if meets.confirmed then pure tt else fail pairing_rejected

abbrev start_at : PeerState → Pairing (Unit {0})
start_at unpaired = pure tt
start_at _ = fail identity

-- from the decision of the host's user on
unfoldable pub decide : Meets → Bytes → TransactionId → Pairing (Unit {0})
unfolding await_decision
decide meets remote transaction = do
  write meets (pairing_decision transaction (decided meets.confirmed))
  confirm meets
  in_time meets transaction 1
  await_decision meets remote transaction

unfoldable pub admit : Meets → Bytes → TransactionId → Pairing (Unit {0})
unfolding decide
admit meets remote transaction = do
  in_time meets transaction 0
  reserve meets transaction
  decide meets remote transaction

unfoldable pub pair_unpaired : Meets → Bytes → Pairing (Unit {0})
unfolding begin_of admit
pair_unpaired meets remote = do
  begin ← lift meets.begin
  transaction ← lift (begin_of begin)
  admit meets remote transaction

unfoldable pub pair_responder : Meets → Bytes → Pairing (Unit {0})
unfolding pair_unpaired
pair_responder meets remote = do
  peer ← view (λ r. r.stored.peer)
  start_at peer
  pair_unpaired meets remote
