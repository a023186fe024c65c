-- ===== src/Application/Runs.antt =====
-- Whole runs of the application: the inputs come in order, and the effects of every accepted input
-- are handed to the platform.
use deskkin.Prelude.{ℕ, ◌+◌, ◌-◌, ◌≡◌, Option, none, some, true, false, List, [], ◌∷◌, arith}
use deskkin.Prelude.Results.{Result, ok, err}
use deskkin.Features.Availability.Invariant as AvailabilityInvariant
use deskkin.Features.Notice
use deskkin.Features.Notice.Invariant as NoticeInvariant
use deskkin.Application.{
  Application, ApplicationInput, lifecycle, availability_effect, synthetic_notice_command,
  synthetic_notice_effect, Transition, ApplicationViews, Board, new, transition, current_views,
}
use deskkin.Application.Batch.{FeatureId, Effect, EffectBatch, TransitionError, get}
use deskkin.Application.Invariant.{IsValid, new-IsValid, transition-IsValid}

abbrev cons_some : Option Effect → List Effect → List Effect
cons_some none rest = rest
cons_some (some effect) rest = effect ∷ rest

-- the effects of a batch, in order
abbrev pub listed : EffectBatch → List Effect → List Effect
listed batch rest = cons_some (get batch 0) (cons_some (get batch 1) rest)

abbrev pub emitted : Result TransitionError Transition → List Effect → List Effect
emitted (ok t) rest = listed t.effects rest
emitted (err _) rest = rest

-- the application after the inputs
unfoldable pub after : Application → List ApplicationInput → Application
after application [] = application
after application (input ∷ inputs) = after (transition input application).1 inputs

-- the effects that the inputs caused
unfoldable pub effects : Application → List ApplicationInput → List Effect
effects application [] = []
effects application (input ∷ inputs) =
    emitted (transition input application).0 (effects (transition input application).1 inputs)

pub after-IsValid :
    (application : Application) (inputs : List ApplicationInput)
    → IsValid application
    → IsValid (after application inputs)
unfolding after
after-IsValid application [] h = h
after-IsValid application (input ∷ inputs) h =
    after-IsValid (transition input application).1 inputs (transition-IsValid application input h)

-- Whatever the inputs, the application is valid: its published views are those of its features, the
-- identity that a feature waits for is the last one that it gave out, and a stopped application has
-- no feature running.
pub run-IsValid : (inputs : List ApplicationInput) → IsValid (after new inputs)
run-IsValid inputs = after-IsValid new inputs new-IsValid

abbrev pub count_focus : {T : Type 0} → Option (Board T) → ℕ
count_focus none = 0
count_focus (some board) = elim board.focused [ true ↦ 1 | false ↦ 0 ]

abbrev pub boards : {T : Type 0} → Option (Board T) → ℕ
boards none = 0
boards (some _) = 1

-- A notice that is shown has the focus; the availability board has it exactly if no notice is shown.
abbrev pub IsFocused : ApplicationViews → Type 0
IsFocused views =
    (count_focus views.synthetic_notice ≡ boards views.synthetic_notice)
    × (count_focus views.availability ≡ boards views.availability - boards views.synthetic_notice)

current_views-IsFocused : (application : Application) → IsFocused (current_views application)
unfolding current_views
current_views-IsFocused application = ground arith

-- Whatever the inputs, at most one published board has the focus: the notice, if one is shown, and
-- the availability board otherwise.
pub run-IsFocused : (inputs : List ApplicationInput) → IsFocused (after new inputs).view
run-IsFocused inputs =
    rw ((run-IsValid inputs).published) (current_views-IsFocused (after new inputs))

-- A feature numbers its effects 1, 2, 3 and so on: `a` and `n` are the last numbers before the list.
abbrev pub Numbered : ℕ → ℕ → List Effect → Type 0
Numbered a n [] = Unit {0}
Numbered a n (effect ∷ rest) = elim effect.id.feature [
  | FeatureId.availability ↦ (effect.id.local ≡ a + 1) × Numbered (a + 1) n rest
  | FeatureId.synthetic_notice ↦ (effect.id.local ≡ n + 1) × Numbered a (n + 1) rest
]

emitted-Numbered :
    (application : Application) (input : ApplicationInput) (rest : List Effect)
    → let next = (transition input application).1 in
      Numbered next.availability.next_effect_id next.synthetic_notice.next_effect_id rest
      → Numbered application.availability.next_effect_id application.synthetic_notice.next_effect_id
          (emitted (transition input application).0 rest)
unfolding transition
emitted-Numbered application (lifecycle event) rest h = ground (
  arith,
  AvailabilityInvariant.lifecycle-Issues application.availability event,
  NoticeInvariant.lifecycle-Issues application.synthetic_notice event,
)
emitted-Numbered application (availability_effect id input) rest h =
    ground (arith, AvailabilityInvariant.transition-Issues application.availability input)
emitted-Numbered application (synthetic_notice_effect id input) rest h =
    ground (arith, NoticeInvariant.transition-Issues application.synthetic_notice input)
emitted-Numbered application (synthetic_notice_command command) rest h =
    ground (
      arith,
      NoticeInvariant.transition-Issues application.synthetic_notice (Notice.command command),
    )

effects-Numbered :
    (application : Application) (inputs : List ApplicationInput)
    → Numbered application.availability.next_effect_id application.synthetic_notice.next_effect_id
        (effects application inputs)
unfolding effects
effects-Numbered application [] = tt
effects-Numbered application (input ∷ inputs) =
    emitted-Numbered application input (effects (transition input application).1 inputs)
      (effects-Numbered (transition input application).1 inputs)

-- Whatever the inputs, accepted or not, the effects of a new application carry the numbers 1, 2, 3
-- and so on, counted for each feature: no identity is used twice and none is skipped.
pub run-Numbered : (inputs : List ApplicationInput) → Numbered 0 0 (effects new inputs)
unfolding new
run-Numbered inputs = effects-Numbered new inputs
