-- ===== src/Presentation/Occlusion/Regions.antt =====
-- What `has_visible_span` finds in a region of the screen.
use deskkin.Prelude.{
  ℕ, zero, suc, ◌+◌, ◌-◌, ◌*◌, ◌/◌, ◌<◌, ◌≤◌, ◌≡◌, ◌↔◌, refl, sym, ap, subst, Bool, true, false,
  Option, none, some, get_or, lt-cases, inl, inr, arith,
}
use deskkin.Presentation.Occlusion.{
  viewport_width, viewport_height, Occlusion, hidden, visible_span, has_visible_span, row_end,
  pixels, columns,
}
use deskkin.Presentation.Occlusion.Advance.{cutoff_at, IsWhole, same_tile, tile_ends_later}
use deskkin.Presentation.Occlusion.Spans.{hides_at, AllHide, Visible, visible_span-Visible}

-- a pixel of the region at which a board is visible
abbrev pub Seen : Occlusion → (index top bottom left right : ℕ) → Type 0
Seen o index top bottom left right =
    (y : ℕ) × (x : ℕ) × ((top ≤ y)
      × (y < bottom)
      × (left ≤ x)
      × (x < right)
      × (hides_at o index y x ≡ false))

module _ (o : Occlusion) (index : ℕ) (whole : IsWhole o) (bottom left right : ℕ)
    (on_screen : bottom ≤ viewport_height) (ordered : left ≤ right)
    (in_row : right ≤ viewport_width) where
  -- all rows of a tile are alike
  rows_alike :
      (row y x : ℕ) → row ≤ y → y < row_end o row bottom → cutoff_at o y x ≡ cutoff_at o row x
  rows_alike row y x h k =
      ap (λ n. get_or o.cutoffs (n * columns o + x / pixels o.tile) 0)
        (same_tile o.tile row y h (omega arith))

  row_end-gt : (row : ℕ) → row < bottom → row < row_end o row bottom
  row_end-gt row h = omega (arith, tile_ends_later o.tile row)

  abbrev Found : ℕ → Option Bool → Type 0
  Found row found =
      (b : Bool) × (found ≡ some b) × ((b ≡ true) ↔ Seen o index row bottom left right)

  -- nothing is seen above the end of a hidden row of tiles
  below-Seen :
      (row : ℕ)
      → row < bottom
      → AllHide true o index row left right
      → Seen o index row bottom left right
      → Seen o index (row_end o row bottom) bottom left right
  below-Seen row more hides (y, x, (above, low, a, b, shows)) =
      elim (lt-cases y (row_end o row bottom)) [
        | inl near ↦
            let hidden =
              subst (λ n. hidden index n ≡ true) (sym (rows_alike row y x above near))
                (hides x a b) in
            ground (arith, hidden, shows)
        | inr far ↦ (y, x, (far, low, a, b, shows))
      ]

  above-Seen :
      (row : ℕ)
      → row < bottom
      → Seen o index (row_end o row bottom) bottom left right
      → Seen o index row bottom left right
  above-Seen row more (y, x, (below, h, a, b, shows)) =
      (y, x, (omega (arith, row_end-gt row more, below), h, a, b, shows))

  round-Found :
      (fuel row : ℕ)
      → row < bottom
      → (span : Option (ℕ × ℕ)) → visible_span o row left right index ≡ some span
      → Visible o index row left right span
      → Found
          (row_end o row bottom)
          (has_visible_span o bottom left right index fuel (row_end o row bottom))
      → Found row (has_visible_span o bottom left right index (suc fuel) row)
  unfolding has_visible_span
  round-Found fuel row more none e hides (b, f, seen) = (
    b,
    ground (arith, e, f),
    (λ h. above-Seen row more (seen.0 h), λ h. seen.1 (below-Seen row more hides h)),
  )
  round-Found fuel row more (some (start, stop)) e (after, some_seen, within, before, shows, ends)
        below =
      (
        true,
        ground (arith, e),
        (
          λ h. (
            row,
            start,
            (omega arith, more, after, omega arith, shows start (omega arith) some_seen),
          ),
          λ h. refl,
        ),
      )

  empty_region : (top : ℕ) → bottom ≤ top → Seen o index top bottom left right → false ≡ true
  empty_region top over (y, x, (h, low, a, b, shows)) = ground arith

  -- Looking for a visible pixel in a region of the screen always ends without an access out of bounds,
  -- and says yes exactly if the board is visible at some pixel of the region, although it looks at one
  -- row only of each row of tiles.
  pub has_visible_span_iff :
      (fuel top : ℕ)
      → bottom - top < fuel
      → Found top (has_visible_span o bottom left right index fuel top)
  unfolding has_visible_span
  has_visible_span_iff zero top enough = ground arith
  has_visible_span_iff (suc fuel) top enough = elim (lt-cases top bottom) [
    | inl more ↦
        let (span, e, shown) =
          visible_span-Visible o index whole top left right (omega arith) ordered in_row in
        round-Found fuel top more span e shown
          (has_visible_span_iff fuel (row_end o top bottom) (omega (arith, row_end-gt top more)))
    | inr over ↦ (false, ground arith, (λ h. ground arith, λ s. empty_region top over s))
  ]
