-- ===== src/Examples/Companion.antt =====
-- The companion's runtime, connected and waiting.
use deskkin.Prelude.{◌≡◌, ◌⊎◌, refl, true, false, none, some, List, [], ◌∷◌, replicate, arith}
use deskkin.Prelude.Results.{ok}
use deskkin.Features.Availability as Availability
use deskkin.Features.Availability.{waiting}
use deskkin.Features.Notice as Notice
use deskkin.Application as Application
use deskkin.Application.{Application, running}
use deskkin.Protocol as Protocol
use deskkin.Protocol.{ContextId}
use deskkin.ProtocolClient as Client
use deskkin.DesktopHost.Identity.{Identity, unpaired}
use deskkin.Simulator.{paired, connected, connect, read, revoke}
use deskkin.Simulator.Runtime.{
  ProtocolRuntime, System, sent, Event, refresh_due, identity_revoked, reconnect_due, network,
  handle,
}
use deskkin.Simulator.Runtime.Core.{timer_effect}
use deskkin.Simulator.Runtime.Served.{IsLinked, Works}
use deskkin.Simulator.Runtime.Keeps.{HasRoom}
use deskkin.Simulator.Runtime.Events.{handle-IsLinked}
use deskkin.Simulator.Runtime.Stuck.{IsStuck, after}
use deskkin.Simulator.Runtime.Lost.{revoked_refresh_is_lost}
use deskkin.Simulator.Worker.{Worker, Answers, polls, waits, Step, step, steps, turn, run_command}
use deskkin.Simulator.Worker.Order.{asked, answered_in_order}
use deskkin.Simulator.Joined.{Companion, Move, move, moves}
use deskkin.Simulator.Joined.Revocation.{IsPast, revocation_cuts_off}
use deskkin.Simulator.Worker.Revocation.{AtMostOne}

abbrev session : ContextId
session = replicate 16 7

abbrev stored : Identity
stored = record { local_private_key = []; local_public_key = []; generation = 0; peer = unpaired }

abbrev system : System
system = record { context = some session; timer_runs = true; sending = sent; stored = stored }

abbrev core : Application
core = record {
  state = running;
  availability = record {
    state = waiting 2;
    surface = Availability.Surface.available;
    next_effect_id = 2;
  };
  synthetic_notice = Notice.new;
  view = Application.empty;
}

-- a timer runs, and a connection stands
abbrev resting : ProtocolRuntime
resting = record {
  core = core;
  adapter = record {
    state = Client.authenticated;
    session = some session;
    request_id = 0;
    active = none;
    backoff_index = 0;
    terminal_reason = none;
  };
  connected = true;
  connecting = false;
  pending_session = none;
  refresh_timer = some (timer_effect 2);
  reconnect_timer = false;
  commands = [];
  controls = [];
}

system-Works : Works system
system-Works = record { context = refl; timers = refl }

resting-IsLinked : IsLinked resting
resting-IsLinked = ground arith

resting-HasRoom : HasRoom resting
resting-HasRoom = omega arith

handle-IsLinked_example : IsLinked (handle system refresh_due resting)
handle-IsLinked_example =
    handle-IsLinked system refresh_due resting system-Works resting-IsLinked resting-HasRoom
      (λ e. ground arith)

-- pairing and connecting again
abbrev recovery : List (System × Event)
recovery =
    (system, network (paired true (ok tt)))
    ∷ (system, reconnect_due)
    ∷ (system, network (connected session (ok tt)))
    ∷ []

revoked_refresh_is_lost_example :
    IsStuck 4 (after recovery (handle system refresh_due (handle system identity_revoked resting)))
revoked_refresh_is_lost_example =
    revoked_refresh_is_lost system recovery resting 2 refl refl refl refl (omega arith)

-- a host that can be reached
abbrev answers : Answers
answers = record {
  listening = true;
  attached = true;
  connecting = ok 3;
  reading = ok Protocol.available;
  context = some session;
  peer_before = some unpaired;
  peer_after = some unpaired;
  pairing = ok tt;
}

-- a worker in a session, with a connect and a read in its queue
abbrev busy : Worker
busy = record {
  client = some 3;
  revoked = false;
  stopped = false;
  phase = polls;
  controls = [];
  commands = connect session ∷ read session 1 session ∷ [];
  events = [];
  reached = [];
}

-- a command is taken, and is answered although the revocation comes before it is run
abbrev overlapping : List Step
overlapping =
    Step.turns answers
    ∷ Step.turns answers
    ∷ Step.sends_control revoke
    ∷ Step.turns answers
    ∷ Step.turns answers
    ∷ []

answered_in_order_example :
    asked (steps overlapping busy) ≡ connect session ∷ read session 1 session ∷ []
answered_in_order_example =
    answered_in_order overlapping busy (refl, (refl, (tt, (refl, (refl, tt)))))

-- a worker that has found no control, and is about to take the connect
abbrev both : Companion
both = record { runtime = resting; worker = record busy { phase = waits } }

-- the worker takes the connect and runs it
abbrev soon : List Move
soon = Move.works answers ∷ Move.works answers ∷ []

-- the worker finds the revocation, and the runtime learns of it and tries to connect
abbrev later : List Move
later =
    Move.works answers
    ∷ Move.receives system
    ∷ Move.receives system
    ∷ Move.reconnects system
    ∷ Move.works answers
    ∷ Move.works answers
    ∷ []

revocation_cuts_off_example :
    let mid = moves soon (move (Move.revokes system) both) in
    AtMostOne [] (moves later mid).worker.reached
    × (IsPast mid ⊎ ((moves later mid).worker.reached ≡ mid.worker.reached))
revocation_cuts_off_example =
    revocation_cuts_off system soon later both (refl, (refl, tt))
      (refl, (tt, (tt, (tt, (refl, (refl, tt))))))

-- one does reach the host, although the revocation was sent before it was taken
one_reaches_the_host :
    (steps
      (Step.sends_control revoke ∷ Step.turns answers ∷ Step.turns answers ∷ [])
      both.worker).reached
    ≡ connect session ∷ []
unfolding step turn run_command
one_reaches_the_host = refl

-- without the revocation, both reach the host
rounds_reach_the_host :
    (steps
      (Step.turns answers
        ∷ Step.turns answers
        ∷ Step.turns answers
        ∷ Step.turns answers
        ∷ Step.turns answers
        ∷ Step.turns answers
        ∷ [])
      busy).reached
    ≡ connect session ∷ read session 1 session ∷ []
unfolding step turn run_command
rounds_reach_the_host = refl
