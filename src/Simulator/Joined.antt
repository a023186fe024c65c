-- ===== src/Simulator/Joined.antt =====
-- The two threads of the companion: the runtime, which handles events, and its network worker, with
-- the queues between them.
pub mod Revocation
use deskkin.Prelude.{Bool, List, [], ◌∷◌, ◌++◌, if◌then◌else◌}
use deskkin.Simulator.{NetworkCommand, pair, NetworkEvent}
use deskkin.Simulator.Runtime.{
  ProtocolRuntime, System, Event, network, identity_revoked, refresh_due, reconnect_due, handle,
}
use deskkin.Simulator.Worker.{Worker, Answers, turn}

pub record Companion : Type 0 where
  pub runtime : ProtocolRuntime
  pub worker : Worker

-- what the runtime sent to the worker; nothing reaches one that ended
abbrev pub deliver : ProtocolRuntime → Worker → Worker
deliver runtime worker = if worker.stopped then worker else record worker {
  controls = worker.controls ++ runtime.controls;
  commands = worker.commands ++ runtime.commands;
}

-- the runtime before an event, with nothing sent
abbrev pub fresh : ProtocolRuntime → ProtocolRuntime
fresh runtime = record runtime { commands = []; controls = [] }

-- the runtime handles an event, and what it sends waits for the worker
unfoldable pub handles : System → Event → Companion → Companion
unfolding handle
handles system event companion =
    let after = handle system event (fresh companion.runtime) in
    record { runtime = after; worker = deliver after companion.worker }

-- the runtime takes an event of the worker
abbrev receive : System → List NetworkEvent → Companion → Companion
receive system [] companion = companion
receive system (event ∷ events) companion =
    handles system (network event)
      (record companion { worker = record (companion.worker) { events = events } })

-- what the runtime does: it takes an event of the worker, a timer fires, the owner reports a
-- revocation or starts a pairing; and the worker runs a round
pub data Move : Type 0 where
  receives refreshes reconnects revokes : System → Move
  pairs : Move
  works : Answers → Move

unfoldable pub move : Move → Companion → Companion
unfolding handles turn
move (receives system) c = receive system c.worker.events c
move (refreshes system) c = handles system refresh_due c
move (reconnects system) c = handles system reconnect_due c
move (revokes system) c = handles system identity_revoked c
move pairs c = record c {
  worker =
      if c.worker.stopped
      then c.worker
      else record (c.worker) { commands = c.worker.commands ++ pair ∷ [] };
}
move (works answers) c = record c { worker = turn answers c.worker }

abbrev pub moves : List Move → Companion → Companion
moves [] c = c
moves (m ∷ ms) c = moves ms (move m c)
