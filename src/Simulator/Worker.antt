-- ===== src/Simulator/Worker.antt =====
-- The network worker of the companion, `run_network_worker`. A round of its loop is up to three calls,
-- between which the runtime may send: the worker looks for a control, waits for a command, and runs the
-- command. A socket is the generation of its session, and what the network and the identity file
-- answer in a call is an argument.
pub mod Revocation
pub mod Order
use deskkin.Prelude.{
  ℕ, Bool, true, false, not, ◌&&◌, Option, none, some, List, [], ◌∷◌, ◌++◌, if◌then◌else◌,
}
use deskkin.Prelude.Results.{Result, ok, err, is_ok}
use deskkin.Protocol.{ContextId, AvailabilityResult}
use deskkin.DesktopHost.{SessionError, io, noise, identity}
use deskkin.DesktopHost.Identity.{PeerState, unpaired}
use deskkin.Simulator.{
  NetworkCommand, pair, connect, read, NetworkControl, close, revoke, shutdown, NetworkEvent,
  paired, connected, read_completed, closed, worker_stopped,
}

-- where the worker is: at the head of its loop, after it has found no control, or with a command that
-- it has taken and not refused
pub data Phase : Type 0 where
  polls waits : Phase
  runs : NetworkCommand → Phase

-- `reached` is what was asked of the host: the connects, and the reads in a session. One that runs is
-- added when it is over.
pub record Worker : Type 0 where
  pub client : Option ℕ
  pub revoked : Bool
  pub stopped : Bool
  pub phase : Phase
  pub controls : List NetworkControl
  pub commands : List NetworkCommand
  pub events : List NetworkEvent
  pub reached : List NetworkCommand

-- whether the runtime receives events and holds its ends of the queues; the session that a connect
-- makes and the result of a read; for a pairing, a random context, the peer before and after it if the
-- file can be read, and its result
pub record Answers : Type 0 where
  pub listening : Bool
  pub attached : Bool
  pub connecting : Result SessionError ℕ
  pub reading : Result SessionError AvailabilityResult
  pub context : Option ContextId
  pub peer_before : Option PeerState
  pub peer_after : Option PeerState
  pub pairing : Result SessionError (Unit {0})

-- `let _ = events.send(…)`
abbrev post : Answers → NetworkEvent → Worker → Worker
post answers event worker =
    if answers.listening then record worker { events = worker.events ++ event ∷ [] } else worker

-- the end of the loop
abbrev finish : Answers → Worker → Worker
finish answers worker = record (post answers worker_stopped worker) {
  client = none;
  stopped = true;
  phase = polls;
}

-- `if events.send(…).is_err() { break; }`
abbrev send : Answers → NetworkEvent → Worker → Worker
send answers event worker =
    if answers.listening
    then record worker { events = worker.events ++ event ∷ [] }
    else finish answers worker

-- a rejected pairing is finished without an event
abbrev pub rejection : NetworkCommand → List NetworkEvent
rejection pair = []
rejection (connect session) = connected session (err identity) ∷ []
rejection (read session request_id operation) =
    read_completed session 0 request_id operation (err identity) ∷ []

unfoldable pub reject_revoked_command : Answers → NetworkCommand → Worker → Worker
reject_revoked_command answers command worker =
    if answers.listening
    then record worker { events = worker.events ++ rejection command }
    else worker

unfoldable pub drain_revoked_commands : Answers → List NetworkCommand → Worker → Worker
drain_revoked_commands answers [] worker = record worker { commands = [] }
drain_revoked_commands answers (c ∷ cs) worker =
    drain_revoked_commands answers cs (reject_revoked_command answers c worker)

abbrev is_unpaired : Option PeerState → Bool
is_unpaired (some unpaired) = true
is_unpaired _ = false

abbrev is_paired : Option PeerState → Bool
is_paired (some (PeerState.paired _ _)) = true
is_paired _ = false

-- a pairing that made an unpaired identity a paired one
abbrev pub trusted : Answers → Bool
trusted answers = is_unpaired answers.peer_before && is_paired answers.peer_after

abbrev pair_outcome : Answers → Result SessionError (Unit {0})
pair_outcome answers = elim answers.context [ none ↦ err noise | some _ ↦ answers.pairing ]

abbrev pair_result : Bool → Result SessionError (Unit {0}) → Result SessionError (Unit {0})
pair_result true (ok _) = ok tt
pair_result false (ok _) = err identity
pair_result _ (err e) = err e

unfoldable pub run_pair_command : Answers → NetworkEvent
run_pair_command answers =
    paired (trusted answers) (pair_result (trusted answers) (pair_outcome answers))

abbrev to_unit : {A : Type 0} → Result SessionError A → Result SessionError (Unit {0})
to_unit (ok _) = ok tt
to_unit (err e) = err e

abbrev to_client : Result SessionError ℕ → Option ℕ
to_client (ok generation) = some generation
to_client (err _) = none

abbrev is_pair : NetworkCommand → Bool
is_pair pair = true
is_pair _ = false

-- a read, with or without a session
abbrev read_in : Answers → ContextId → ℕ → ContextId → Option ℕ → Worker → Worker
read_in answers session request_id operation none worker =
    send answers (read_completed session 0 request_id operation (err io)) worker
read_in answers session request_id operation (some generation) worker =
    send answers (read_completed session generation request_id operation answers.reading)
      (record worker {
        client = if is_ok answers.reading then some generation else none;
        reached = worker.reached ++ read session request_id operation ∷ [];
      })

unfoldable pub run_command : Answers → NetworkCommand → Worker → Worker
unfolding run_pair_command
run_command answers pair worker =
    send answers (run_pair_command answers)
      (record worker { revoked = if trusted answers then false else worker.revoked })
run_command answers (connect session) worker =
    send answers (connected session (to_unit answers.connecting)) (record worker {
      client = to_client answers.connecting;
      reached = worker.reached ++ connect session ∷ [];
    })
run_command answers (read session request_id operation) worker =
    read_in answers session request_id operation worker.client worker

-- the worker has waited for a command: a time-out, the end of the queue, or the next one
abbrev take_command : Answers → List NetworkCommand → Worker → Worker
take_command answers [] worker =
    if answers.attached then record worker { phase = polls } else finish answers worker
take_command answers (command ∷ commands) worker =
    if worker.revoked && not (is_pair command)
    then reject_revoked_command answers command
        (record worker { phase = polls; commands = commands })
    else record worker { phase = runs command; commands = commands }

abbrev take_control : Answers → List NetworkControl → Worker → Worker
take_control answers [] worker =
    if answers.attached then record worker { phase = waits } else finish answers worker
take_control answers (close ∷ controls) worker =
    send answers closed (record worker { client = none; controls = controls })
take_control answers (revoke ∷ controls) worker = send answers closed (
    drain_revoked_commands answers worker.commands
      (record worker { client = none; revoked = true; controls = controls }))
take_control answers (shutdown ∷ controls) worker =
    finish answers (record worker { controls = controls })

abbrev go_on : Answers → Phase → Worker → Worker
go_on answers polls worker = take_control answers worker.controls worker
go_on answers waits worker = take_command answers worker.commands worker
go_on answers (runs command) worker = run_command answers command (record worker { phase = polls })

-- the worker goes on to its next phase
unfoldable pub turn : Answers → Worker → Worker
unfolding reject_revoked_command drain_revoked_commands run_command
turn answers worker = if worker.stopped then worker else go_on answers worker.phase worker

-- what happens to a worker: the runtime sends, and the worker goes on. Nothing is sent to one that ended.
pub data Step : Type 0 where
  sends_control : NetworkControl → Step
  sends_command : NetworkCommand → Step
  turns : Answers → Step

unfoldable pub step : Step → Worker → Worker
unfolding turn
step (sends_control control) worker =
    if worker.stopped then worker else record worker { controls = worker.controls ++ control ∷ [] }
step (sends_command command) worker =
    if worker.stopped then worker else record worker { commands = worker.commands ++ command ∷ [] }
step (turns answers) worker = turn answers worker

abbrev pub steps : List Step → Worker → Worker
steps [] worker = worker
steps (s ∷ ss) worker = steps ss (step s worker)
