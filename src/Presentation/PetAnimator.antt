-- ===== src/Presentation/PetAnimator.antt =====
-- `PetAnimator` of crates/deskkin-presentation/src/lib.rs: which frame of a looping animation is
-- shown.
use deskkin.Prelude.{
  ℕ, ◌+◌, ◌*◌, ◌/◌, ◌%◌, ◌<◌, ◌≡◌, refl, subst, Bool, true, false, List, [], ◌∷◌, arith,
  if◌then◌else◌,
}

pub data PetAnimationState : Type 0 where
  idle move_right move_left attend : PetAnimationState

abbrev pub frame_count : PetAnimationState → ℕ
frame_count idle = 6
frame_count attend = 6
frame_count move_right = 8
frame_count move_left = 8

abbrev pub frame_period_ms : PetAnimationState → ℕ
frame_period_ms idle = 100
frame_period_ms attend = 100
frame_period_ms move_right = 50
frame_period_ms move_left = 50

pub record PetFrame : Type 0 where
  pub state : PetAnimationState
  pub index : ℕ

pub record PetAnimator : Type 0 where
  pub state : PetAnimationState
  pub index : ℕ
  pub elapsed_in_frame_ms : ℕ

unfoldable pub new : PetAnimator
new = record { state = idle; index = 0; elapsed_in_frame_ms = 0 }

abbrev pub frame : PetAnimator → PetFrame
frame animator = record { state = animator.state; index = animator.index }

-- `==` of the derived `PartialEq`
abbrev same_state : PetAnimationState → PetAnimationState → Bool
same_state idle idle = true
same_state move_right move_right = true
same_state move_left move_left = true
same_state attend attend = true
same_state _ _ = false

unfoldable pub set_state : PetAnimationState → PetAnimator → PetFrame × PetAnimator
set_state state animator =
    let next : PetAnimator =
      if same_state animator.state state
      then animator
      else (record { state = state; index = 0; elapsed_in_frame_ms = 0 }) in
    (frame next, next)

-- Neither conversion can fail: both numbers are below the period and the frame count.
unfoldable pub advance : ℕ → PetAnimator → PetFrame × PetAnimator
advance elapsed_ms animator =
    let period = frame_period_ms animator.state in
    let total = animator.elapsed_in_frame_ms + elapsed_ms in
    let next : PetAnimator = record {
      state = animator.state;
      index = (animator.index + total / period) % frame_count animator.state;
      elapsed_in_frame_ms = total % period;
    } in
    (frame next, next)

pub record IsValid (animator : PetAnimator) : Type 0 where
  pub index_in_range : animator.index < frame_count animator.state
  pub within_frame : animator.elapsed_in_frame_ms < frame_period_ms animator.state

-- the animator after ticks of these lengths
unfoldable pub ticks : List ℕ → PetAnimator → PetAnimator
ticks [] animator = animator
ticks (elapsed ∷ rest) animator = ticks rest (advance elapsed animator).1

abbrev pub sum : List ℕ → ℕ
sum [] = 0
sum (elapsed ∷ rest) = elapsed + sum rest

-- where a loop is that has run for some time, from its position at the start
abbrev pub position : PetAnimator → ℕ
position animator = animator.index * frame_period_ms animator.state + animator.elapsed_in_frame_ms

abbrev pub IsAt : PetAnimationState → ℕ → PetAnimator → Type 0
IsAt state time animator =
    (animator.state ≡ state)
    × (animator.index ≡ time / frame_period_ms state % frame_count state)
    × (animator.elapsed_in_frame_ms ≡ time % frame_period_ms state)

advance-IsAt :
    (animator : PetAnimator) (state : PetAnimationState) (time elapsed : ℕ)
    → IsAt state time animator
    → IsAt state (time + elapsed) (advance elapsed animator).1
unfolding advance
advance-IsAt animator idle time elapsed h = ground arith
advance-IsAt animator move_right time elapsed h = ground arith
advance-IsAt animator move_left time elapsed h = ground arith
advance-IsAt animator attend time elapsed h = ground arith

ticks-IsAt :
    (elapsed : List ℕ) (animator : PetAnimator) (state : PetAnimationState) (time : ℕ)
    → IsAt state time animator
    → IsAt state (time + sum elapsed) (ticks elapsed animator)
unfolding ticks
ticks-IsAt [] animator state time h = subst (λ (t : ℕ). IsAt state t animator) later h
  where
    later : time ≡ time + 0
    later = omega arith
ticks-IsAt (now ∷ rest) animator state time h =
    subst (λ (t : ℕ). IsAt state t (ticks rest (advance now animator).1)) later
      (ticks-IsAt rest (advance now animator).1 state (time + now)
        (advance-IsAt animator state time now h))
  where
    later : time + now + sum rest ≡ time + (now + sum rest)
    later = omega arith

position-IsAt :
    (animator : PetAnimator) (state : PetAnimationState)
    → animator.state ≡ state
    → IsValid animator
    → IsAt state (position animator) animator
position-IsAt animator idle e h = ground (arith, h.index_in_range, h.within_frame)
position-IsAt animator move_right e h = ground (arith, h.index_in_range, h.within_frame)
position-IsAt animator move_left e h = ground (arith, h.index_in_range, h.within_frame)
position-IsAt animator attend e h = ground (arith, h.index_in_range, h.within_frame)

-- However time is cut into ticks, an animation is where it would be after one tick of their sum: the
-- frame is that of the time since its loop began, and nothing is lost between two frames.
pub ticks-clock :
    (animator : PetAnimator) (elapsed : List ℕ)
    → IsValid animator
    → IsAt animator.state (position animator + sum elapsed) (ticks elapsed animator)
ticks-clock animator elapsed h =
    ticks-IsAt elapsed animator animator.state (position animator)
      (position-IsAt animator animator.state refl h)
