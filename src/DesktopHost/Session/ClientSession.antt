-- ===== src/DesktopHost/Session/ClientSession.antt =====
-- `ClientSession::read_availability_inner` of apps/desktop-host/src/lib.rs: what a companion sends for a
-- read, and what it makes of the messages that come back before the deadline. That what it sends does
-- not fail is taken for granted.
use deskkin.Prelude.{ℕ, not, ◌&&◌, Option, none, some, List, [], ◌∷◌, ◌==◌, if◌then◌else◌}
use deskkin.Prelude.Results.{Result, ok, err, checked_add}
use deskkin.Prelude.Bytes.{same_bytes}
use deskkin.Protocol.{
  Message, ContextId, AvailabilityResult, read_availability, availability_result, ping, pong,
}
use deskkin.DesktopHost.{SessionError, protocol, identity}
use deskkin.DesktopHost.Identity.{Identity}
use deskkin.DesktopHost.Session.Reads.{still_paired}

pub record ClientSession : Type 0 where
  pub next_request_id : ℕ
  pub generation : ℕ

abbrev numbered : ContextId → Option ℕ → ClientSession → Result SessionError Message × ClientSession
numbered operation none client = (err protocol, client)
numbered operation (some request_id) client =
    (ok (read_availability request_id operation), record client { next_request_id = request_id })

-- the request of a read, up to its writing
unfoldable pub request :
    Identity → ContextId → ClientSession → Result SessionError Message × ClientSession
request stored operation client =
    if not (still_paired stored client.generation)
    then (err identity, client)
    else numbered operation (checked_add 32 client.next_request_id 1) client

-- The loop over the messages that arrive, and the error that ends them if they do not: of a socket, or
-- of the deadline. The last request id is that of the read.
unfoldable pub receive :
    Identity
    → SessionError
    → ContextId
    → ClientSession
    → List Message
    → Result SessionError AvailabilityResult
receive stored failure operation client [] = err failure
receive stored failure operation client (availability_result response_id o result ∷ messages) =
    if (response_id == client.next_request_id) && same_bytes o operation
    then (if still_paired stored client.generation then ok result else err identity)
    else err protocol
receive stored failure operation client (ping ∷ messages) =
    receive stored failure operation client messages
receive stored failure operation client (pong ∷ messages) =
    receive stored failure operation client messages
receive stored failure operation client (_ ∷ messages) = err protocol
