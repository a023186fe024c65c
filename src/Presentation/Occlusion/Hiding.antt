-- ===== src/Presentation/Occlusion/Hiding.antt =====
-- What `hides` leaves out.
use deskkin.Prelude.{
  ℕ, zero, suc, ◌+◌, ◌-◌, ◌/◌, ◌<◌, ◌≤◌, ◌≡◌, subst, Bool, false, lt-cases, inl, inr, arith,
}
use deskkin.Presentation.Occlusion.{
  viewport_width, viewport_height, ScreenTile, eight, sixteen, pixels, Occlusion, ℤ, pos, negsuc,
  ScreenRect, clamp, saturating_add, up, any_from, hides,
}
use deskkin.Presentation.Occlusion.Spans.{hides_at}

-- a pixel of the screen that is in so many from a first one on, which may be off the screen
abbrev pub Inside : ℤ → ℕ → ℕ → Type 0
Inside (pos a) size k = (a ≤ k) × (k < a + size)
Inside (negsuc a) size k = k + (a + 1) < size

Inside-clamped :
    (first : ℤ) (size k limit : ℕ)
    → limit ≤ viewport_width
    → k < limit
    → Inside first size k
    → (clamp first limit ≤ k) × (k < clamp (saturating_add first size) limit)
Inside-clamped (pos a) size k limit small h inside = (omega arith, omega arith)
Inside-clamped (negsuc a) size k limit small h inside = ground arith

Inside-tiles :
    (tile : ScreenTile) (a b k : ℕ)
    → a ≤ k
    → k < b
    → (a / pixels tile ≤ k / pixels tile) × (k / pixels tile < up tile b)
Inside-tiles eight a b k h j = (omega arith, omega arith)
Inside-tiles sixteen a b k h j = (omega arith, omega arith)

any_from-false :
    (test : ℕ → Bool) (count first k : ℕ)
    → any_from test count first ≡ false
    → first ≤ k
    → k < first + count
    → test k ≡ false
unfolding any_from
any_from-false test zero first k none h j = ground arith
any_from-false test (suc count) first k none h j = elim (lt-cases first k) [
  | inl later ↦ any_from-false test count (first + 1) k (ground arith) (omega arith) (omega arith)
  | inr here ↦ let same : first ≡ k = omega arith in subst (λ n. test n ≡ false) same (ground arith)
]

any_between-false :
    (test : ℕ → Bool) (first end k : ℕ)
    → any_from test (end - first) first ≡ false
    → first ≤ k
    → k < end
    → test k ≡ false
any_between-false test first end k none h j =
    any_from-false test (end - first) first k none h (omega arith)

-- When no tile that a board's rectangle touches is said to hide it, the board is hidden at no pixel of
-- the screen in its rectangle, wherever that lies: drawing it without asking again is right.
pub hides-false :
    (o : Occlusion) (r : ScreenRect) (index y x : ℕ)
    → y < viewport_height
    → x < viewport_width
    → Inside r.x r.width x
    → Inside r.y r.height y
    → hides o r index ≡ false
    → hides_at o index y x ≡ false
unfolding hides
hides-false o r index y x low narrow across down none =
    let (after_left, before_right) =
      Inside-clamped r.x r.width x viewport_width (omega arith) narrow across in
    let (after_top, before_bottom) =
      Inside-clamped r.y r.height y viewport_height (omega arith) low down in
    let (a, b) = Inside-tiles o.tile _ _ x after_left before_right in
    let (c, d) = Inside-tiles o.tile _ _ y after_top before_bottom in
    let row = any_between-false _ _ _ (y / pixels o.tile) none c d in
    any_between-false _ _ _ (x / pixels o.tile) row a b
