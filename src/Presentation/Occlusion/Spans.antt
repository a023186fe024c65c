-- ===== src/Presentation/Occlusion/Spans.antt =====
-- What `visible_span` and `has_visible_span` find.
use deskkin.Prelude.{
  ℕ, suc, ◌-◌, ◌<◌, ◌≤◌, ◌≡◌, refl, subst, Bool, true, false, not, Option, none, some, lt-cases,
  inl, inr, arith,
}
use deskkin.Presentation.Occlusion.{
  viewport_width, viewport_height, Occlusion, hidden, visible_span,
}
use deskkin.Presentation.Occlusion.Advance.{cutoff_at, IsWhole, Stops, advance-Stops}

-- whether a board is hidden at a pixel
abbrev pub hides_at : Occlusion → (index y x : ℕ) → Bool
hides_at o index y x = hidden index (cutoff_at o y x)

-- pixels of a row, all hidden or all visible
abbrev pub AllHide : Bool → Occlusion → (index y from to : ℕ) → Type 0
AllHide b o index y from to = (k : ℕ) → from ≤ k → k < to → hides_at o index y k ≡ b

-- no pixel is visible, or these are the first ones in a row
abbrev pub Visible : Occlusion → (index y x end : ℕ) → Option (ℕ × ℕ) → Type 0
Visible o index y x end none = AllHide true o index y x end
Visible o index y x end (some (start, stop)) =
    (x ≤ start)
    × (start < stop)
    × (stop ≤ end)
    × AllHide true o index y x start
    × AllHide false o index y start stop
    × (stop < end → hides_at o index y stop ≡ true)

not-true : {b : Bool} → not b ≡ true → b ≡ false
not-true {b = true} h = ground arith
not-true {b = false} h = refl

not-false : {b : Bool} → not b ≡ false → b ≡ true
not-false {b = true} h = refl
not-false {b = false} h = ground arith

module _ (o : Occlusion) (index : ℕ) (whole : IsWhole o) where
  -- a visible pixel starts a span of at least that pixel
  begins :
      {y x end : ℕ} (start stop : ℕ)
      → start < end
      → Stops (hidden index) o y x end start
      → Stops (λ cutoff. not (hidden index cutoff)) o y start end stop
      → start < stop
  begins {y} {x} {end} start stop more before after = elim (lt-cases start stop) [
    | inl h ↦ h
    | inr h ↦
        let same : stop ≡ start = omega (arith, after.after) in
        let hides =
          not-false
            (subst (λ n. not (hides_at o index y n) ≡ false) same (after.failed (omega arith))) in
        ground (arith, hides, before.failed more)
  ]

  -- Finding the next visible pixels of a row from a pixel on, on the screen, always ends without an
  -- access out of bounds: it gives none if all of them are hidden behind a board, and otherwise the
  -- first visible ones, from the first visible pixel up to the next hidden one or the end.
  pub visible_span-Visible :
      (y x end : ℕ)
      → y < viewport_height
      → x ≤ end
      → end ≤ viewport_width
      → (span : Option (ℕ × ℕ)) × (visible_span o y x end index ≡ some span)
        × Visible o index y x end span
  unfolding visible_span
  visible_span-Visible y x end on_screen ordered in_row =
      let (start, e, before) =
        advance-Stops (hidden index) o y end whole on_screen in_row (suc (end - x)) x ordered
          (omega arith) in
      let (stop, f, after) =
        advance-Stops (λ cutoff. not (hidden index cutoff)) o y end whole on_screen in_row
          (suc (end - start)) start before.within (omega arith) in
      elim (lt-cases start end) [
        | inl more ↦ (
          some (start, stop),
          ground (arith, e, f),
          (
            before.after,
            begins start stop more before after,
            after.within,
            before.passed,
            λ k. λ a. λ b. not-true (after.passed k a b),
            λ h. not-false (after.failed h),
          ),
        )
        | inr over ↦ (none, ground (arith, e), λ k. λ a. λ b. before.passed k a (omega arith))
      ]
