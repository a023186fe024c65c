-- ===== src/Simulator/Joined/Revocation.antt =====
-- When the owner reports a revocation, the companion is cut off from the host.
use deskkin.Prelude.{
  ◌≢◌, ◌⊎◌, inl, inr, Bool-cases, subst, sym, ◌≡◌, refl, ◌∙◌, false, List, [], ◌∷◌, All, arith,
}
use deskkin.Simulator.{revoke, NetworkEvent, NetworkCommand}
use deskkin.Simulator.Runtime.{
  ProtocolRuntime, System, Event, network, identity_revoked, refresh_due, reconnect_due, handle,
}
use deskkin.Simulator.Runtime.Unlinked.{revoked-Unlinked}
use deskkin.Simulator.Worker.{
  Worker, Answers, trusted, step, turns, turn, Phase, polls, waits, runs,
}
use deskkin.Simulator.Worker.Revocation.{
  has_revoke-append, IsCut, step-IsCut, Held, AtMostOne, step-Held, head-IsCut, Held-AtMostOne,
}
use deskkin.Simulator.Joined.{
  Companion, fresh, deliver, handles, receive, Move, revokes, works, receives, refreshes,
  reconnects, pairs, move, moves,
}

-- no round of the worker makes an unpaired identity a paired one
abbrev pub Distrusts : Move → Type 0
Distrusts (works answers) = trusted answers ≡ false
Distrusts _ = Unit {0}

abbrev Stays : Companion → Companion → Type 0
Stays c after = IsCut after.worker × (after.worker.reached ≡ c.worker.reached)

deliver-IsCut :
    (r : ProtocolRuntime) (w : Worker)
    → IsCut w
    → IsCut (deliver r w) × ((deliver r w).reached ≡ w.reached)
deliver-IsCut r w cut = grind (arith, has_revoke-append w.controls r.controls)

handles-Stays :
    (system : System) (event : Event) (c : Companion)
    → IsCut c.worker
    → Stays c (handles system event c)
unfolding handles
handles-Stays system event c cut =
    deliver-IsCut (handle system event (fresh c.runtime)) c.worker cut

receive-Stays :
    (system : System) (events : List NetworkEvent) (c : Companion)
    → IsCut c.worker
    → Stays c (receive system events c)
receive-Stays system [] c cut = (cut, refl)
receive-Stays system (event ∷ events) c cut =
    handles-Stays system (network event)
      (record c { worker = record (c.worker) { events = events } }) cut

turn-Stays :
    (answers : Answers) (c : Companion)
    → trusted answers ≡ false
    → IsCut c.worker
    → Stays c (move (works answers) c)
unfolding move step
turn-Stays answers c d cut = step-IsCut (turns answers) c.worker d cut

move-Stays : (m : Move) (c : Companion) → Distrusts m → IsCut c.worker → Stays c (move m c)
unfolding move
move-Stays (receives system) c d cut = receive-Stays system c.worker.events c cut
move-Stays (refreshes system) c d cut = handles-Stays system refresh_due c cut
move-Stays (reconnects system) c d cut = handles-Stays system reconnect_due c cut
move-Stays (revokes system) c d cut = handles-Stays system identity_revoked c cut
move-Stays pairs c d cut = ground arith
move-Stays (works answers) c d cut = turn-Stays answers c d cut

moves-Stays :
    (ms : List Move) (c : Companion)
    → All Distrusts ms
    → IsCut c.worker
    → (moves ms c).worker.reached ≡ c.worker.reached
moves-Stays [] c all cut = refl
moves-Stays (m ∷ ms) c (d, all) cut =
    let (now, same) = move-Stays m c d cut in moves-Stays ms (move m c) all now ∙ same

deliver-Held :
    (before : List NetworkCommand) (r : ProtocolRuntime) (w : Worker)
    → Held before w
    → Held before (deliver r w)
deliver-Held before r w (inl (waiting, same)) =
    inl (grind (arith, has_revoke-append w.controls r.controls))
deliver-Held before r w (inr (cut, one)) =
    let (now, same) = deliver-IsCut r w cut in inr (now, subst (AtMostOne before) (sym same) one)

handles-Held :
    (before : List NetworkCommand) (system : System) (event : Event) (c : Companion)
    → Held before c.worker
    → Held before (handles system event c).worker
unfolding handles
handles-Held before system event c h =
    deliver-Held before (handle system event (fresh c.runtime)) c.worker h

receive-Held :
    (before : List NetworkCommand) (system : System) (events : List NetworkEvent) (c : Companion)
    → Held before c.worker
    → Held before (receive system events c).worker
receive-Held before system [] c h = h
receive-Held before system (event ∷ events) c h =
    handles-Held before system (network event)
      (record c { worker = record (c.worker) { events = events } }) h

turn-Held :
    (before : List NetworkCommand) (answers : Answers) (w : Worker)
    → trusted answers ≡ false
    → Held before w
    → Held before (turn answers w)
unfolding step
turn-Held before answers w d h = step-Held before (turns answers) w d h

move-Held :
    (before : List NetworkCommand) (m : Move) (c : Companion)
    → Distrusts m
    → Held before c.worker
    → Held before (move m c).worker
unfolding move
move-Held before (receives system) c d h = receive-Held before system c.worker.events c h
move-Held before (refreshes system) c d h = handles-Held before system refresh_due c h
move-Held before (reconnects system) c d h = handles-Held before system reconnect_due c h
move-Held before (revokes system) c d h = handles-Held before system identity_revoked c h
move-Held before pairs c d (inl h) = ground arith
move-Held before pairs c d (inr (cut, one)) = ground arith
move-Held before (works answers) c d h = turn-Held before answers c.worker d h

moves-Held :
    (before : List NetworkCommand) (ms : List Move) (c : Companion)
    → All Distrusts ms
    → Held before c.worker
    → Held before (moves ms c).worker
moves-Held before [] c all h = h
moves-Held before (m ∷ ms) c (d, all) h =
    moves-Held before ms (move m c) all (move-Held before m c d h)

sends-Held :
    (r : ProtocolRuntime) (w : Worker) → r.controls ≡ revoke ∷ [] → Held w.reached (deliver r w)
sends-Held r w told = elim (Bool-cases w.stopped) [
  | inl over ↦ ground arith
  | inr on ↦ inl (grind (arith, told, has_revoke-append w.controls (revoke ∷ [])))
]

revokes-Held :
    (system : System) (c : Companion) → Held c.worker.reached (move (revokes system) c).worker
unfolding move handles
revokes-Held system c =
    let (alone, told) = revoked-Unlinked system (fresh c.runtime) in
    sends-Held (handle system identity_revoked (fresh c.runtime)) c.worker told

-- the worker is past the head of its loop, with a command that it waits for or runs
abbrev pub IsPast : Companion → Type 0
IsPast c = c.worker.phase ≢ polls

past_or_head : (p : Phase) → (p ≢ polls) ⊎ (p ≡ polls)
past_or_head polls = inr refl
past_or_head waits = inl (λ e. ground arith)
past_or_head (runs c) = inl (λ e. ground arith)

-- Once the runtime has handled the owner's report of a revocation, whatever the state of both threads
-- and their queues was, and whatever events and timers follow, unless a pairing makes an unpaired
-- identity a paired one: at most one more connect or read reaches the host, the one that the worker was
-- about to take or ran already. And as soon as the worker is at the head of its loop,
-- nothing reaches the host any more.
pub revocation_cuts_off :
    (system : System) (first later : List Move) (c : Companion)
    → All Distrusts first
    → All Distrusts later
    → let mid = moves first (move (revokes system) c) in
      AtMostOne c.worker.reached (moves later mid).worker.reached
      × (IsPast mid ⊎ ((moves later mid).worker.reached ≡ mid.worker.reached))
revocation_cuts_off system first later c distrusts more =
    let mid = moves first (move (revokes system) c) in
    let before = c.worker.reached in
    let held =
      moves-Held before first (move (revokes system) c) distrusts (revokes-Held system c) in
    (
      Held-AtMostOne before (moves later mid).worker (moves-Held before later mid more held),
      elim (past_or_head mid.worker.phase) [
        | inl past ↦ inl past
        | inr head ↦ inr (moves-Stays later mid more (head-IsCut before mid.worker head held))
      ],
    )
