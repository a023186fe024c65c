-- ===== src/DesktopHost/Session/Reads/Linked.antt =====
-- A companion's adapter and its session, and the session of the host: they number the reads alike.
use deskkin.Prelude.{ℕ, suc, ◌+◌, ◌<◌, ◌^◌, ◌≡◌, refl, Option, none, some, List, [], ◌∷◌, arith}
use deskkin.Prelude.Results.{Result, ok, err}
use deskkin.Prelude.Bytes.{same_bytes_iff}
use deskkin.Protocol.{
  Message, ContextId, AvailabilityResult, read_availability, availability_result, pong, close,
}
use deskkin.ProtocolClient as Client
use deskkin.ProtocolClient.{
  ProtocolAdapter, ProtocolAdapterError, ProtocolEvent, availability_completed, value_of,
  authenticated,
}
use deskkin.HostCapabilities as Host
use deskkin.HostCapabilities.{ready}
use deskkin.DesktopHost.{SessionError, io}
use deskkin.DesktopHost.Identity.{Identity, paired_generation}
use deskkin.DesktopHost.Session.ClientSession.{ClientSession, request, receive}
use deskkin.DesktopHost.Session.Reads.{
  HostSession, Reaction, respond, send_pong, nothing, send_close, handle, host_availability,
}

-- the companion, and the host that it is connected to, each with its identity file
pub record Ends : Type 0 where
  pub adapter : ProtocolAdapter
  pub client : ClientSession
  pub host : HostSession

pub record Files : Type 0 where
  pub companion_file : Identity
  pub host_file : Identity
  pub host_generation : ℕ

-- between two reads, in this session, with n more reads to spare
pub record IsLinked (session : ContextId) (result : AvailabilityResult) (n : ℕ) (ends : Ends)
    : Type 0 where
  pub connected : ends.adapter.state ≡ authenticated
  pub session_is : ends.adapter.session ≡ some session
  pub no_read : ends.adapter.active ≡ none
  pub same_number : ends.host.last_request_id ≡ ends.client.next_request_id
  pub host_ready : ends.host.capabilities.state ≡ ready
  pub host_configured : ends.host.capabilities.availability ≡ host_availability result
  pub adapter_room : ends.adapter.request_id + n < 2 ^ 32
  pub client_room : ends.client.next_request_id + n < 2 ^ 32
  pub host_room : ends.host.capabilities.next_effect_id + n < 2 ^ 64

-- the messages that the host's reaction makes
abbrev messages_of : Result SessionError Reaction → List Message
messages_of (ok (respond message)) = message ∷ []
messages_of (ok send_pong) = pong ∷ []
messages_of (ok nothing) = []
messages_of (ok (send_close reason)) = close reason ∷ []
messages_of (err _) = []

-- what is left after a read, and its event, if it is completed
abbrev pub Outcome : Type 0
Outcome = Option ProtocolEvent × Ends

abbrev event_of : Result ProtocolAdapterError ProtocolEvent → Option ProtocolEvent
event_of (ok event) = some event
event_of (err _) = none

-- the runtime takes what its session has read, or the connection is lost
abbrev complete :
    ContextId → ℕ → ContextId → Ends → Result SessionError AvailabilityResult → Outcome
complete session number operation ends (ok result) =
    let taken = Client.result session number operation result ends.adapter in
    (event_of taken.0, record ends { adapter = taken.1 })
complete session number operation ends (err _) =
    (none, record ends { adapter = (Client.disconnect ends.adapter).1 })

-- the host handles a request, and the session of the companion what the host sends for it
abbrev serve : Files → ContextId → ℕ → ContextId → Ends → Result SessionError Message → Outcome
serve files session number operation ends (ok message) =
    let handled = handle files.host_file files.host_generation message ends.host in
    complete session number operation (record ends { host = handled.1 })
      (receive files.companion_file io operation ends.client (messages_of handled.0))
serve files session number operation ends (err e) = complete session number operation ends (err e)

abbrev ask : Files → ContextId → ContextId → Ends → Result ProtocolAdapterError ℕ → Outcome
ask files session operation ends (ok number) =
    let asked = request files.companion_file operation ends.client in
    serve files session number operation (record ends { client = asked.1 }) asked.0
ask files session operation ends (err _) = (none, ends)

-- One read: the adapter begins it, the session of the companion sends a request with its own number,
-- the host handles it, and what the host sends back is read by the session and handed to the adapter.
unfoldable pub exchange : Files → ContextId → ℕ → ContextId → Ends → Outcome
unfolding request receive handle
exchange files session effect_id operation ends =
    let begun = Client.begin_read effect_id operation ends.adapter in
    ask files session operation (record ends { adapter = begun.1 }) begun.0

module _ (files : Files) (session operation : ContextId) (result : AvailabilityResult)
    (effect_id : ℕ) where
  begins :
      (a : ProtocolAdapter)
      → 0 < effect_id
      → a.state ≡ authenticated
      → a.active ≡ none
      → a.request_id + 1 < 2 ^ 32
      → Client.begin_read effect_id operation a ≡ (
        ok (a.request_id + 1),
        record a {
          request_id = a.request_id + 1;
          active = some (record {
            operation = operation;
            request_id = a.request_id + 1;
            effect_id = effect_id;
          });
        },
      )
  unfolding Client.begin_read
  begins a some_effect connected no_read room = ground (arith, connected, no_read, room)

  requests :
      (client : ClientSession)
      → paired_generation files.companion_file ≡ ok client.generation
      → client.next_request_id + 1 < 2 ^ 32
      → request files.companion_file operation client ≡ (
        ok (read_availability (client.next_request_id + 1) operation),
        record client { next_request_id = client.next_request_id + 1 },
      )
  unfolding request
  requests client paired room = ground (arith, paired, room)

  answers :
      (host : HostSession) (number : ℕ)
      → host.last_request_id ≡ number
      → paired_generation files.host_file ≡ ok files.host_generation
      → host.capabilities.state ≡ ready
      → host.capabilities.availability ≡ host_availability result
      → number + 1 < 2 ^ 32
      → host.capabilities.next_effect_id + 1 < 2 ^ 64
      → handle files.host_file files.host_generation (read_availability (number + 1) operation) host
        ≡ (
          ok (respond (availability_result (number + 1) operation result)),
          record {
            capabilities = record host.capabilities {
              next_effect_id = host.capabilities.next_effect_id + 1;
            };
            last_request_id = number + 1;
          },
        )
  unfolding handle Host.invoke
  answers host number same paired is_ready configured room effects =
      ground (arith, same, paired, is_ready, configured, room, effects)

  receives :
      (client : ClientSession) (failure : SessionError)
      → paired_generation files.companion_file ≡ ok client.generation
      → receive files.companion_file failure operation client
          (availability_result client.next_request_id operation result ∷ [])
        ≡ ok result
  unfolding receive
  receives client failure paired = ground (arith, paired, same_bytes_iff operation operation)

  takes :
      (a : ProtocolAdapter)
      → a.state ≡ authenticated
      → a.session ≡ some session
      → a.active
        ≡ some (record { operation = operation; request_id = a.request_id; effect_id = effect_id })
      → Client.result session a.request_id operation result a ≡ (
        ok (availability_completed effect_id (value_of result)),
        record a { active = none; backoff_index = 0 },
      )
  unfolding Client.result
  takes a connected session_is reads =
      ground (arith, same_bytes_iff session session, same_bytes_iff operation operation)

  -- Between a companion and a host that are linked, with the pairing still in both files, a read with
  -- an effect id is completed with what the host is configured with; then they are linked again.
  pub exchange-completes :
      (n : ℕ) (ends : Ends)
      → 0 < effect_id
      → paired_generation files.companion_file ≡ ok ends.client.generation
      → paired_generation files.host_file ≡ ok files.host_generation
      → IsLinked session result (suc n) ends
      → let (event, done) = exchange files session effect_id operation ends in
        (event ≡ some (availability_completed effect_id (value_of result)))
        × (done.client.generation ≡ ends.client.generation)
        × IsLinked session result n done
  unfolding exchange
  exchange-completes n ends some_effect paired host_paired h =
      let number = ends.client.next_request_id in
      rw
        (
          begins ends.adapter some_effect h.connected h.no_read (omega (arith, h.adapter_room)),
          requests ends.client paired (omega (arith, h.client_room)),
          answers ends.host number h.same_number host_paired h.host_ready h.host_configured
              (omega (arith, h.client_room)) (omega (arith, h.host_room)),
          receives (record (ends.client) { next_request_id = number + 1 }) io paired,
          takes
              (record (ends.adapter) {
                request_id = ends.adapter.request_id + 1;
                active = some (record {
                  operation = operation;
                  request_id = ends.adapter.request_id + 1;
                  effect_id = effect_id;
                });
              })
              h.connected h.session_is refl,
        )
        (
          refl,
          refl,
          record {
            connected = h.connected;
            session_is = h.session_is;
            no_read = refl;
            same_number = refl;
            host_ready = h.host_ready;
            host_configured = h.host_configured;
            adapter_room = omega (arith, h.adapter_room);
            client_room = omega (arith, h.client_room);
            host_room = omega (arith, h.host_room);
          },
        )
