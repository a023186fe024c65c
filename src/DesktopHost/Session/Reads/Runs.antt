-- ===== src/DesktopHost/Session/Reads/Runs.antt =====
-- All reads of a session, from the first.
use deskkin.Prelude.{
  ℕ, ◌<◌, ◌^◌, ◌≡◌, refl, sym, ap, ap₂, ◌∙◌, Option, some, List, [], ◌∷◌, length, All, arith,
}
use deskkin.Prelude.Results.{ok}
use deskkin.Protocol.{ContextId, AvailabilityResult}
use deskkin.ProtocolClient as Client
use deskkin.ProtocolClient.{ProtocolAdapter, ProtocolEvent, availability_completed, value_of}
use deskkin.HostCapabilities as Host
use deskkin.DesktopHost.Identity.{paired_generation}
use deskkin.DesktopHost.Session.Reads.{start}
use deskkin.DesktopHost.Session.Reads.Linked.{Ends, Files, IsLinked, exchange, exchange-completes}

-- the adapter of a companion that has just been authenticated
unfoldable pub joined : ContextId → ProtocolAdapter
joined session = Client.authenticate session (Client.connect Client.new)

-- the companion and the host before the first read, under the companion's generation of the pairing
unfoldable pub starts : ContextId → AvailabilityResult → ℕ → Ends
unfolding joined start
starts session result generation = record {
  adapter = joined session;
  client = record { next_request_id = 0; generation = generation };
  host = start result;
}

start-IsLinked :
    (session : ContextId) (result : AvailabilityResult) (generation n : ℕ)
    → n < 2 ^ 32
    → IsLinked session result n (starts session result generation)
unfolding starts Client.authenticate Client.connect Client.new Host.lifecycle Host.new
start-IsLinked session result generation n h = record {
  connected = refl;
  session_is = refl;
  no_read = refl;
  same_number = refl;
  host_ready = refl;
  host_configured = refl;
  adapter_room = omega arith;
  client_room = omega arith;
  host_room = omega arith;
}

starts-generation :
    (session : ContextId) (result : AvailabilityResult) (generation : ℕ)
    → (starts session result generation).client.generation ≡ generation
unfolding starts
starts-generation session result generation = refl

-- one read: its effect id and its operation
pub record Read : Type 0 where
  pub effect_id : ℕ
  pub operation : ContextId

abbrev pub HasEffect : Read → Type 0
HasEffect read = 0 < read.effect_id

-- the events of these reads, one after the other; none is a read that was not completed
unfoldable pub events : Files → ContextId → List Read → Ends → List (Option ProtocolEvent)
events files session [] ends = []
events files session (read ∷ reads) ends =
    let (event, done) = exchange files session read.effect_id read.operation ends in
    event ∷ events files session reads done

unfoldable pub completions : AvailabilityResult → List Read → List (Option ProtocolEvent)
completions result [] = []
completions result (read ∷ reads) =
    some (availability_completed read.effect_id (value_of result)) ∷ completions result reads

linked_reads_complete :
    (files : Files) (session : ContextId) (result : AvailabilityResult) (reads : List Read)
    (ends : Ends)
    → paired_generation files.companion_file ≡ ok ends.client.generation
    → paired_generation files.host_file ≡ ok files.host_generation
    → All HasEffect reads
    → IsLinked session result (length reads) ends
    → events files session reads ends ≡ completions result reads
unfolding events completions
linked_reads_complete files session result [] ends paired host_paired some_effect h = refl
linked_reads_complete files session result (read ∷ reads) ends paired host_paired some_effect h =
    let (event, kept, linked) =
      exchange-completes files session read.operation result read.effect_id (length reads) ends
        some_effect.0 paired host_paired h in
    let done = (exchange files session read.effect_id read.operation ends).1 in
    ap₂ ◌∷◌ event (
      linked_reads_complete files session result reads done (paired ∙ ap ok (sym kept)) host_paired
        some_effect.1 linked)

-- After a companion has been authenticated and the host's session has started, any sequence of fewer
-- than 2 ^ 32 reads with effect ids, one after the other while the pairing stays in both files,
-- completes every one of them, in their order, with the result that the host is configured with. Each
-- goes all the way: the companion's session numbers the request, the host handles it, and the adapter
-- takes what the session makes of the host's answer.
pub every_read_completes :
    (files : Files) (generation : ℕ) (session : ContextId) (result : AvailabilityResult)
    (reads : List Read)
    → paired_generation files.companion_file ≡ ok generation
    → paired_generation files.host_file ≡ ok files.host_generation
    → All HasEffect reads
    → length reads < 2 ^ 32
    → events files session reads (starts session result generation) ≡ completions result reads
every_read_completes files generation session result reads paired host_paired some_effect few =
    linked_reads_complete files session result reads (starts session result generation)
      (paired ∙ ap ok (sym (starts-generation session result generation))) host_paired some_effect
      (start-IsLinked session result generation (length reads) few)
