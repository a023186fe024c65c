-- ===== src/Simulator/Worker/Revocation.antt =====
-- A revocation cuts the worker off from the host.
use deskkin.Prelude.{
  sym, subst, Bool-cases, ◌≡◌, refl, Bool, true, false, ◌||◌, ℕ, Option, none, some, List, [], ◌∷◌,
  ◌++◌, ◌⊎◌, inl, inr, arith,
}
use deskkin.Protocol.{ContextId}
use deskkin.Simulator.{NetworkCommand, pair, connect, read, NetworkControl, close, revoke, shutdown}
use deskkin.Simulator.Worker.{
  Worker, Answers, trusted, reject_revoked_command, drain_revoked_commands, run_command, read_in,
  go_on, Phase, polls, waits, runs, turn, take_command, take_control, Step, sends_control,
  sends_command, turns, step,
}

abbrev pub has_revoke : List NetworkControl → Bool
has_revoke [] = false
has_revoke (revoke ∷ _) = true
has_revoke (_ ∷ cs) = has_revoke cs

pub has_revoke-append :
    (cs ds : List NetworkControl) → has_revoke (cs ++ ds) ≡ (has_revoke cs || has_revoke ds)
has_revoke-append [] ds = refl
has_revoke-append (revoke ∷ cs) ds = refl
has_revoke-append (close ∷ cs) ds = has_revoke-append cs ds
has_revoke-append (shutdown ∷ cs) ds = has_revoke-append cs ds

-- nothing that asks the host runs
abbrev IsIdle : Phase → Type 0
IsIdle polls = Unit {0}
IsIdle waits = Unit {0}
IsIdle (runs pair) = Unit {0}
IsIdle (runs _) = ⊥

-- a revocation waits and the worker will find it first, or it was taken and there is no session; or
-- the worker ended
abbrev pub IsCut : Worker → Type 0
IsCut w =
    (w.stopped ≡ true)
    ⊎ ((has_revoke w.controls ≡ true) × (w.phase ≡ polls))
    ⊎ ((w.revoked ≡ true) × (w.client ≡ none) × IsIdle w.phase)

abbrev pub AtMostOne : (before after : List NetworkCommand) → Type 0
AtMostOne before after =
    (after ≡ before) ⊎ ((command : NetworkCommand) × (after ≡ before ++ command ∷ []))

-- a revocation waits and nothing has reached the host since, or the worker is cut off and one command
-- has at most
abbrev pub Held : List NetworkCommand → Worker → Type 0
Held before w =
    ((has_revoke w.controls ≡ true) × (w.reached ≡ before)) ⊎ (IsCut w × AtMostOne before w.reached)

-- no call makes an unpaired identity a paired one
abbrev pub Distrusts : Step → Type 0
Distrusts (turns answers) = trusted answers ≡ false
Distrusts _ = Unit {0}

drain-others :
    (answers : Answers) (cs : List NetworkCommand) (w : Worker)
    → ((drain_revoked_commands answers cs w).reached ≡ w.reached)
      × ((drain_revoked_commands answers cs w).client ≡ w.client)
      × ((drain_revoked_commands answers cs w).revoked ≡ w.revoked)
      × ((drain_revoked_commands answers cs w).phase ≡ w.phase)
unfolding drain_revoked_commands reject_revoked_command
drain-others answers [] w = (refl, refl, refl, refl)
drain-others answers (c ∷ cs) w =
    let (a, b, d, e) = drain-others answers cs (reject_revoked_command answers c w) in
    ground (arith, a, b, d, e)

abbrev Stays : Worker → Worker → Type 0
Stays w after = IsCut after × (after.reached ≡ w.reached)

-- a worker that took a revocation rejects what it is sent
command-Stays :
    (answers : Answers) (cs : List NetworkCommand) (w : Worker)
    → w.revoked ≡ true
    → w.client ≡ none
    → Stays w (take_command answers cs w)
unfolding reject_revoked_command
command-Stays answers [] w cut gone = ground arith
command-Stays answers (pair ∷ cs) w cut gone = ground arith
command-Stays answers (connect session ∷ cs) w cut gone = ground arith
command-Stays answers (read session request_id operation ∷ cs) w cut gone = ground arith

pair-Stays :
    (answers : Answers) (w : Worker)
    → trusted answers ≡ false
    → w.revoked ≡ true
    → w.client ≡ none
    → Stays w (run_command answers pair (record w { phase = polls }))
unfolding run_command
pair-Stays answers w d cut gone = ground arith

-- at the head of the loop, by the controls that wait
control-Stays :
    (answers : Answers) (cs : List NetworkControl) (w : Worker)
    → w.phase ≡ polls
    → (has_revoke cs ≡ true) ⊎ ((w.revoked ≡ true) × (w.client ≡ none))
    → Stays w (take_control answers cs w)
control-Stays answers [] w e h = ground arith
control-Stays answers (close ∷ cs) w e h = ground arith
control-Stays answers (revoke ∷ cs) w e h =
    let start : Worker = record w { client = none; revoked = true; controls = cs } in
    let (same, gone, cut, phase) = drain-others answers w.commands start in
    ground (arith, same, gone, cut, phase)
control-Stays answers (shutdown ∷ cs) w e h = ground arith

revoked-Stays :
    (answers : Answers) (p : Phase) (w : Worker)
    → trusted answers ≡ false
    → w.phase ≡ p
    → w.revoked ≡ true
    → w.client ≡ none
    → IsIdle p
    → Stays w (go_on answers p w)
revoked-Stays answers polls w d e cut gone idle =
    control-Stays answers w.controls w e (inr (cut, gone))
revoked-Stays answers waits w d e cut gone idle = command-Stays answers w.commands w cut gone
revoked-Stays answers (runs pair) w d e cut gone idle = pair-Stays answers w d cut gone
revoked-Stays answers (runs (connect session)) w d e cut gone idle = absurd idle
revoked-Stays answers (runs (read session request_id operation)) w d e cut gone idle = absurd idle

turn_on :
    (answers : Answers) (w : Worker) → w.stopped ≡ false → turn answers w ≡ go_on answers w.phase w
unfolding turn
turn_on answers w runs_on = ground arith

turn-Stays :
    (answers : Answers) (w : Worker) → trusted answers ≡ false → IsCut w → Stays w (turn answers w)
unfolding turn
turn-Stays answers w d (inl over) = ground arith
turn-Stays answers w d (inr cut) = elim (Bool-cases w.stopped) [
  | inl over ↦ ground arith
  | inr on ↦ subst (Stays w) (sym (turn_on answers w on)) (goes cut)
]
  where
    goes :
        ((has_revoke w.controls ≡ true) × (w.phase ≡ polls))
          ⊎ ((w.revoked ≡ true) × (w.client ≡ none) × IsIdle w.phase)
        → Stays w (go_on answers w.phase w)
    goes (inl (waiting, head)) =
        subst (λ p. Stays w (go_on answers p w)) (sym head)
          (control-Stays answers w.controls w head (inl waiting))
    goes (inr (taken, gone, idle)) = revoked-Stays answers w.phase w d refl taken gone idle

-- a step of a worker that is cut off
pub step-IsCut : (s : Step) (w : Worker) → Distrusts s → IsCut w → Stays w (step s w)
unfolding step
step-IsCut (sends_control c) w d cut = grind (arith, has_revoke-append w.controls (c ∷ []))
step-IsCut (sends_command c) w d cut = ground arith
step-IsCut (turns answers) w d cut = turn-Stays answers w d cut

more_AtMostOne :
    (before now after : List NetworkCommand)
    → AtMostOne before now
    → after ≡ now
    → AtMostOne before after
more_AtMostOne before now after h e = subst (AtMostOne before) (sym e) h

-- a worker that waits for a command takes one at most before it finds the revocation
wait_Held :
    (answers : Answers) (cs : List NetworkCommand) (w : Worker)
    → has_revoke w.controls ≡ true
    → Held w.reached (take_command answers cs w)
unfolding reject_revoked_command
wait_Held answers [] w h = inr (ground arith, inl (ground arith))
wait_Held answers (pair ∷ cs) w h = ground arith
wait_Held answers (connect session ∷ cs) w h = ground arith
wait_Held answers (read session request_id operation ∷ cs) w h = ground arith

-- a read that runs when the revocation is sent
read_Held :
    (answers : Answers) (session : ContextId) (request_id : ℕ) (operation : ContextId)
    (client : Option ℕ) (w : Worker)
    → has_revoke w.controls ≡ true
    → Held w.reached
        (read_in answers session request_id operation client (record w { phase = polls }))
read_Held answers session request_id operation none w h = inr (ground arith, inl (ground arith))
read_Held answers session request_id operation (some generation) w h =
    inr (ground arith, inr (read session request_id operation, ground arith))

-- a worker at which a revocation waits, by its phase
Held-phase :
    (answers : Answers) (p : Phase) (w : Worker)
    → trusted answers ≡ false
    → w.phase ≡ p
    → has_revoke w.controls ≡ true
    → Held w.reached (go_on answers p w)
unfolding run_command reject_revoked_command
Held-phase answers polls w d e h =
    let (cut, same) = control-Stays answers w.controls w e (inl h) in inr (cut, inl same)
Held-phase answers waits w d e h = wait_Held answers w.commands w h
Held-phase answers (runs pair) w d e h = ground (arith, e, h)
Held-phase answers (runs (connect session)) w d e h =
    inr (ground arith, inr (connect session, ground arith))
Held-phase answers (runs (read session request_id operation)) w d e h =
    read_Held answers session request_id operation w.client w h

turn-Held :
    (answers : Answers) (w : Worker)
    → trusted answers ≡ false
    → has_revoke w.controls ≡ true
    → Held w.reached (turn answers w)
unfolding turn
turn-Held answers w d h = elim (Bool-cases w.stopped) [
  | inl over ↦ ground arith
  | inr on ↦
      subst (Held w.reached) (sym (turn_on answers w on)) (Held-phase answers w.phase w d refl h)
]

send-Held :
    (s : Step) (w : Worker) → has_revoke w.controls ≡ true → Distrusts s → Held w.reached (step s w)
unfolding step
send-Held (sends_control c) w h d = grind (arith, has_revoke-append w.controls (c ∷ []))
send-Held (sends_command c) w h d = ground arith
send-Held (turns answers) w h d = turn-Held answers w d h

-- a step of a worker at which a revocation waits, or that is cut off
pub step-Held :
    (before : List NetworkCommand) (s : Step) (w : Worker)
    → Distrusts s
    → Held before w
    → Held before (step s w)
step-Held before s w d (inl (waiting, same)) =
    subst (λ cs. Held cs (step s w)) same (send-Held s w waiting d)
step-Held before s w d (inr (cut, one)) =
    let (now, same) = step-IsCut s w d cut in
    inr (now, more_AtMostOne before w.reached (step s w).reached one same)

-- at the head of its loop, the worker is cut off
pub head-IsCut :
    (before : List NetworkCommand) (w : Worker) → w.phase ≡ polls → Held before w → IsCut w
head-IsCut before w head (inl (waiting, same)) = inr (inl (waiting, head))
head-IsCut before w head (inr (cut, one)) = cut

pub Held-AtMostOne :
    (before : List NetworkCommand) (w : Worker) → Held before w → AtMostOne before w.reached
Held-AtMostOne before w (inl (waiting, same)) = inl same
Held-AtMostOne before w (inr (cut, one)) = one
