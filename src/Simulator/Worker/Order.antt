-- ===== src/Simulator/Worker/Order.antt =====
-- The worker answers each connect and each read once, in the order in which they were sent.
use mathlib.Core.List.{append-nil, append_assoc}
use deskkin.Prelude.{
  Bool, true, false, if◌then◌else◌, ap₂, ◌≡◌, refl, sym, ap, ◌∙◌, true, none, List, [], ◌∷◌, ◌++◌,
  All, arith, if◌then◌else◌,
}
use deskkin.Simulator.{
  NetworkCommand, pair, connect, read, NetworkControl, close, revoke, shutdown, NetworkEvent,
  paired, closed, worker_stopped, connected, read_completed,
}
use deskkin.Simulator.Worker.{
  Worker, Answers, rejection, reject_revoked_command, drain_revoked_commands, run_command,
  run_pair_command, finish, Phase, polls, waits, runs, go_on, turn, take_command, take_control,
  Step, sends_control, sends_command, turns, step, steps,
}

-- the connects and reads among commands
abbrev pub requests : List NetworkCommand → List NetworkCommand
requests [] = []
requests (pair ∷ cs) = requests cs
requests (c ∷ cs) = c ∷ requests cs

-- what events answer
abbrev pub answered : List NetworkEvent → List NetworkCommand
answered [] = []
answered (connected session _ ∷ es) = connect session ∷ answered es
answered (read_completed session _ request_id operation _ ∷ es) =
    read session request_id operation ∷ answered es
answered (_ ∷ es) = answered es

-- the commands that a worker which runs is sent in a step
abbrev accepted : Step → Worker → List NetworkCommand
accepted (sends_command command) w = if w.stopped then [] else command ∷ []
accepted _ w = []

-- those of several steps
abbrev pub sent : List Step → Worker → List NetworkCommand
sent [] w = []
sent (s ∷ ss) w = accepted s w ++ sent ss (step s w)

-- the runtime receives events
abbrev pub Listens : Step → Type 0
Listens (turns answers) = answers.listening ≡ true
Listens _ = Unit {0}

requests-append : (cs ds : List NetworkCommand) → requests (cs ++ ds) ≡ requests cs ++ requests ds
requests-append [] ds = refl
requests-append (pair ∷ cs) ds = requests-append cs ds
requests-append (connect session ∷ cs) ds = ap (λ rs. connect session ∷ rs) (requests-append cs ds)
requests-append (read session request_id operation ∷ cs) ds =
    ap (λ rs. read session request_id operation ∷ rs) (requests-append cs ds)

answered-append : (es fs : List NetworkEvent) → answered (es ++ fs) ≡ answered es ++ answered fs
answered-append [] fs = refl
answered-append (connected session _ ∷ es) fs =
    ap (λ rs. connect session ∷ rs) (answered-append es fs)
answered-append (read_completed session _ request_id operation _ ∷ es) fs =
    ap (λ rs. read session request_id operation ∷ rs) (answered-append es fs)
answered-append (paired _ _ ∷ es) fs = answered-append es fs
answered-append (closed ∷ es) fs = answered-append es fs
answered-append (worker_stopped ∷ es) fs = answered-append es fs

-- the command that runs
abbrev pub running : Phase → List NetworkCommand
running (runs command) = command ∷ []
running _ = []

-- what was asked of a worker: what it has answered, what it runs, and what waits
abbrev pub asked : Worker → List NetworkCommand
asked w = answered w.events ++ (requests (running w.phase) ++ requests w.commands)

-- one more event
answered-post :
    (es fs : List NetworkEvent) (cs : List NetworkCommand)
    → answered (es ++ fs) ++ requests cs ≡ answered es ++ (answered fs ++ requests cs)
answered-post es fs cs =
    ap (λ rs. rs ++ requests cs) (answered-append es fs)
    ∙ append_assoc (answered es) (answered fs) (requests cs)

drain-asked :
    (answers : Answers) (cs : List NetworkCommand) (w : Worker)
    → answers.listening ≡ true
    → ((drain_revoked_commands answers cs w).commands ≡ [])
      × ((drain_revoked_commands answers cs w).phase ≡ w.phase)
      × (answered (drain_revoked_commands answers cs w).events ≡ answered w.events ++ requests cs)
unfolding drain_revoked_commands reject_revoked_command
drain-asked answers [] w listens = (refl, refl, sym (append-nil (answered w.events)))
drain-asked answers (c ∷ cs) w listens =
    let (none_wait, same, done) =
      drain-asked answers cs (reject_revoked_command answers c w) listens in
    grind (arith, none_wait, same, done, answered-post w.events (rejection c) cs)

-- a command that runs is answered
run-asked :
    (answers : Answers) (c : NetworkCommand) (w : Worker)
    → answers.listening ≡ true
    → w.phase ≡ polls
    → asked (run_command answers c w)
      ≡ answered w.events ++ (requests (c ∷ []) ++ requests w.commands)
unfolding run_command run_pair_command
run-asked answers pair w listens e =
    grind (arith, e, answered-post w.events (run_pair_command answers ∷ []) w.commands)
run-asked answers (connect session) w listens e =
    grind (arith, e, answered-append w.events, append_assoc)
run-asked answers (read session request_id operation) w listens e =
    grind (arith, e, answered-append w.events, append_assoc)

finish-asked :
    (answers : Answers) (w : Worker)
    → answers.listening ≡ true
    → asked (finish answers w) ≡ answered w.events ++ requests w.commands
finish-asked answers w listens =
    let told : Worker = record w { events = w.events ++ worker_stopped ∷ [] } in
    let ended = ap (λ b. if b then told else w) listens in
    ap₂ (λ es cs. answered es ++ requests cs) (ap (λ v. v.events) ended)
      (ap (λ v. v.commands) ended)
    ∙ answered-post w.events (worker_stopped ∷ []) w.commands

command-asked :
    (answers : Answers) (cs : List NetworkCommand) (w : Worker)
    → answers.listening ≡ true
    → w.commands ≡ cs
    → asked (take_command answers cs w) ≡ answered w.events ++ requests cs
unfolding reject_revoked_command
command-asked answers [] w listens e =
    let same = ap (λ cs. answered w.events ++ requests cs) e in go answers.attached ∙ same
  where
    go :
        (b : Bool)
        → asked (if b then record w { phase = polls } else finish answers w)
          ≡ answered w.events ++ requests w.commands
    go true = refl
    go false = finish-asked answers w listens
command-asked answers (pair ∷ cs) w listens e =
    grind (arith, answered-post w.events (rejection pair) cs)
command-asked answers (connect session ∷ cs) w listens e =
    grind (arith, answered-append w.events, append_assoc)
command-asked answers (read session request_id operation ∷ cs) w listens e =
    grind (arith, answered-append w.events, append_assoc)

control-asked :
    (answers : Answers) (cs : List NetworkControl) (w : Worker)
    → answers.listening ≡ true
    → w.phase ≡ polls
    → asked (take_control answers cs w) ≡ answered w.events ++ requests w.commands
control-asked answers [] w listens e =
    grind (arith, answered-post w.events (worker_stopped ∷ []) w.commands)
control-asked answers (close ∷ cs) w listens e =
    grind (arith, e, answered-post w.events (closed ∷ []) w.commands)
control-asked answers (revoke ∷ cs) w listens e =
    let start : Worker = record w { client = none; revoked = true; controls = cs } in
    let (none_wait, same, done) = drain-asked answers w.commands start listens in
    grind (arith, e, none_wait, same, done, answered-append, append-nil)
control-asked answers (shutdown ∷ cs) w listens e =
    grind (arith, answered-post w.events (worker_stopped ∷ []) w.commands)

phase-asked :
    (answers : Answers) (p : Phase) (w : Worker)
    → answers.listening ≡ true
    → w.phase ≡ p
    → asked (go_on answers p w) ≡ answered w.events ++ (requests (running p) ++ requests w.commands)
phase-asked answers polls w listens e = control-asked answers w.controls w listens e
phase-asked answers waits w listens e = command-asked answers w.commands w listens refl
phase-asked answers (runs c) w listens e =
    run-asked answers c (record w { phase = polls }) listens refl

step-asked :
    (s : Step) (w : Worker) → Listens s → asked (step s w) ≡ asked w ++ requests (accepted s w)
unfolding step turn
step-asked (sends_control control) w listens = grind (arith, append-nil (asked w))
step-asked (sends_command command) w listens =
    grind (arith, append-nil (asked w), requests-append w.commands (command ∷ []), append_assoc)
step-asked (turns answers) w listens =
    grind (arith, append-nil (asked w), phase-asked answers w.phase w listens refl)

-- Each connect and each read that is sent to a worker while it runs is answered once, in the order in
-- which they were sent, whatever else happens, revocations included, as long as the runtime receives
-- events: what was answered, followed by what runs and what still waits, is what was answered, ran or
-- waited before, followed by what was sent.
pub answered_in_order :
    (ss : List Step) (w : Worker)
    → All Listens ss
    → asked (steps ss w) ≡ asked w ++ requests (sent ss w)
answered_in_order [] w all = sym (append-nil (asked w))
answered_in_order (s ∷ ss) w (listens, all) =
    answered_in_order ss (step s w) all
    ∙ ap (λ rs. rs ++ requests (sent ss (step s w))) (step-asked s w listens)
    ∙ append_assoc (asked w) (requests (accepted s w)) (requests (sent ss (step s w)))
    ∙ ap (λ rs. asked w ++ rs) (sym (requests-append (accepted s w) (sent ss (step s w))))
