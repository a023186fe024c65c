-- ===== src/DesktopHost/Session/WriteQueue.antt =====
-- `SessionWriteQueue` of apps/desktop-host/src/lib.rs.
use deskkin.DesktopHost.{SessionError, queue_full}
use mathlib.Core.List.{append_assoc}
use deskkin.Prelude.{zero, sym, ap, ◌∙◌}
use deskkin.Prelude.{
  ℕ, suc, ◌<◌, ◌≤◌, ◌≡◌, refl, Bool, true, false, not, ◌&&◌, Option, none, some, List, [], ◌∷◌,
  ◌++◌, length, leb, if◌then◌else◌, arith, length-append,
}
use deskkin.Prelude.Results.{Result, ok, err}
use deskkin.Protocol.{Message, CloseReason}

pub record SessionWriteQueue : Type 0 where
  pub close : Option CloseReason
  pub pong : Bool
  pub ping : Bool
  pub application : List Message

unfoldable pub new : SessionWriteQueue
new = record { close = none; pong = false; ping = false; application = [] }

unfoldable pub enqueue_application :
    Message → SessionWriteQueue → Result SessionError (Unit {0}) × SessionWriteQueue
enqueue_application message queue =
    if leb 8 (length queue.application)
    then (err queue_full, queue)
    else (ok tt, record queue { application = queue.application ++ message ∷ [] })

unfoldable pub enqueue_close : CloseReason → SessionWriteQueue → SessionWriteQueue
enqueue_close reason queue = record queue { close = some reason }

unfoldable pub enqueue_pong : SessionWriteQueue → SessionWriteQueue
enqueue_pong queue = record queue { pong = true }

abbrev is_none {ℓ} : {A : Type ℓ} → Option A → Bool
is_none none = true
is_none (some _) = false

abbrev is_empty {ℓ} : {A : Type ℓ} → List A → Bool
is_empty [] = true
is_empty (_ ∷ _) = false

unfoldable pub enqueue_ping_if_idle : SessionWriteQueue → SessionWriteQueue
enqueue_ping_if_idle queue =
    if is_none queue.close && not queue.pong && is_empty queue.application
    then record queue { ping = true }
    else queue

abbrev pop_application : SessionWriteQueue → List Message → Option Message × SessionWriteQueue
pop_application queue [] = (none, queue)
pop_application queue (message ∷ rest) = (some message, record queue { application = rest })

abbrev pop_controls : Option CloseReason → SessionWriteQueue → Option Message × SessionWriteQueue
pop_controls (some reason) queue = (some (Message.close reason), record queue { close = none })
pop_controls none queue =
    if queue.pong
    then (some Message.pong, record queue { pong = false })
    else if queue.ping
    then (some Message.ping, record queue { ping = false })
    else pop_application queue queue.application

unfoldable pub pop : SessionWriteQueue → Option Message × SessionWriteQueue
pop queue = pop_controls queue.close queue

-- the messages that wait, in the order in which they are sent
abbrev of_close : Option CloseReason → List Message
of_close none = []
of_close (some reason) = Message.close reason ∷ []

abbrev when : Bool → Message → List Message
when true message = message ∷ []
when false message = []

unfoldable pub waiting : SessionWriteQueue → List Message
waiting queue =
    of_close queue.close
    ++ (when queue.pong Message.pong ++ (when queue.ping Message.ping ++ queue.application))

-- what `pop` takes off a list of messages
abbrev pub Takes : List Message → Option Message × SessionWriteQueue → Type 0
Takes before (none, after) = (before ≡ []) × (waiting after ≡ [])
Takes before (some message, after) = before ≡ message ∷ waiting after

-- The queue sends the close first, then the pong, the ping, and the messages of the application in
-- the order in which they came: `pop` takes the first message that waits, and nothing else.
pub pop-Takes : (queue : SessionWriteQueue) → Takes (waiting queue) (pop queue)
unfolding pop waiting
pop-Takes queue = ground arith

abbrev emit : Option Message → List Message → List Message
emit none rest = []
emit (some message) rest = message ∷ rest

-- all messages that `pop` gives, one after the other
unfoldable pub drain : ℕ → SessionWriteQueue → List Message
drain zero queue = []
drain (suc fuel) queue = emit (pop queue).0 (drain fuel (pop queue).1)

Takes-shorter :
    (fuel : ℕ) (before : List Message) (popped : Option Message × SessionWriteQueue)
    → Takes before popped
    → length before ≤ suc fuel
    → length (waiting popped.1) ≤ fuel
Takes-shorter fuel before (none, after) takes enough = omega (arith, ap length takes.1)
Takes-shorter fuel before (some message, after) takes enough = omega (arith, ap length takes)

emit-Takes :
    (before rest : List Message) (popped : Option Message × SessionWriteQueue)
    → Takes before popped
    → rest ≡ waiting popped.1
    → emit popped.0 rest ≡ before
emit-Takes before rest (none, after) takes e = sym takes.0
emit-Takes before rest (some message, after) takes e = ap (λ l. message ∷ l) e ∙ sym takes

empty : (messages : List Message) → length messages ≤ 0 → [] ≡ messages
empty [] h = refl
empty (message ∷ rest) h = absurd (omega arith)

-- Emptying the queue sends exactly the messages that wait, in their order.
pub drain-waiting :
    (fuel : ℕ) (queue : SessionWriteQueue)
    → length (waiting queue) ≤ fuel
    → drain fuel queue ≡ waiting queue
unfolding drain
drain-waiting zero queue enough = empty (waiting queue) enough
drain-waiting (suc fuel) queue enough =
    emit-Takes (waiting queue) (drain fuel (pop queue).1) (pop queue) (pop-Takes queue) (
      drain-waiting fuel (pop queue).1
        (Takes-shorter fuel (waiting queue) (pop queue) (pop-Takes queue) enough))

-- what `enqueue_application` does to the messages that wait
abbrev pub Enqueues :
    Message → SessionWriteQueue → Result SessionError (Unit {0}) × SessionWriteQueue → Type 0
Enqueues message before (ok _, after) =
    (length before.application < 8)
    × (length after.application ≤ 8)
    × (waiting after ≡ waiting before ++ message ∷ [])
Enqueues message before (err e, after) = (8 ≤ length before.application) × (after ≡ before)

waiting-append :
    (queue : SessionWriteQueue) (message : Message)
    → waiting (record queue { application = queue.application ++ message ∷ [] })
      ≡ waiting queue ++ message ∷ []
unfolding waiting
waiting-append queue message = simp append_assoc

-- A message of the application is queued behind all that wait, or, if eight of them wait already,
-- refused, and then nothing changes.
pub enqueue_application-Enqueues :
    (message : Message) (queue : SessionWriteQueue)
    → Enqueues message queue (enqueue_application message queue)
unfolding enqueue_application
enqueue_application-Enqueues message queue =
    ground (arith, waiting-append queue message, length-append queue.application (message ∷ []))
