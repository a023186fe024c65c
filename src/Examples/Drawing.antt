-- ===== src/Examples/Drawing.antt =====
-- Animations and scaled lines on concrete numbers.
use deskkin.Prelude.{
  ◌≡◌, ◌↔◌, ◌≤◌, refl, Bool, true, Option, some, List, [], ◌∷◌, length, replicate, arith, ℕ, ◌+◌,
}
use deskkin.Presentation.PetAnimator.{
  PetAnimator, move_left, IsAt, position, sum, ticks, ticks-clock,
}
use deskkin.Presentation.AxisStepper.{new, takes}
use deskkin.Presentation.AxisStepper.Exact.{floors, takes-floors}
use deskkin.Presentation.Occlusion.{
  Occlusion, sixteen, advance, visible_span, has_visible_span, background_spans,
}
use deskkin.Presentation.Occlusion.Advance.{IsWhole}
use deskkin.Presentation.Occlusion.Spans.{Visible, visible_span-Visible}
use deskkin.Presentation.Occlusion.Regions.{Seen, has_visible_span_iff}
use deskkin.Presentation.Occlusion.Background.{covered, background_spans-Paints}
use deskkin.Presentation.Masks.{
  SourceSize, is_binary, eighths, fill_bits, build_cutout_mask, all_from, build_opaque_mask, covers,
}
use deskkin.Presentation.Masks.Cutout.{Packs, build_cutout_mask-at}
use deskkin.Presentation.Masks.Opaque.{covers-opaque}
use deskkin.Prelude.Bytes.{Bytes}
use deskkin.Prelude.Results.{ok, is_ok}
use deskkin.Prelude.{get_or}
use deskkin.Presentation.Occlusion.{ScreenRect, pos, negsuc, hides, any_from}
use deskkin.Presentation.Occlusion.Spans.{hides_at}
use deskkin.Presentation.Occlusion.Hiding.{hides-false}
use deskkin.Prelude.{false}

abbrev walker : PetAnimator
walker = record { state = move_left; index = 7; elapsed_in_frame_ms = 49 }

abbrev uneven : List ℕ
uneven = 1 ∷ 120 ∷ 33 ∷ []

ticks-clock_example : IsAt move_left (position walker + sum uneven) (ticks uneven walker)
ticks-clock_example =
    ticks-clock walker uneven (record { index_in_range = omega arith; within_frame = omega arith })

takes-floors_example : takes 5 (new 24 17 2) ≡ floors 5 24 17 2
takes-floors_example =
    takes-floors 5 24 17 2 (omega arith) (omega arith) (omega arith) (omega arith)

-- the first tile hides all boards but the first, and the third all but three
abbrev screen : Occlusion
screen = record { tile = sixteen; cutoffs = 2 ∷ 0 ∷ 4 ∷ replicate 297 0 }

screen-IsWhole : IsWhole screen
screen-IsWhole = omega arith

visible_span-Visible_example :
    (span : Option (ℕ × ℕ)) × (visible_span screen 3 5 100 0 ≡ some span)
    × Visible screen 0 3 5 100 span
visible_span-Visible_example =
    visible_span-Visible screen 0 screen-IsWhole 3 5 100 (omega arith) (omega arith) (omega arith)

first_visible_span : visible_span screen 3 5 100 0 ≡ some (some (16, 32))
unfolding visible_span advance
first_visible_span = refl

has_visible_span_iff_example :
    (b : Bool) × (has_visible_span screen 16 0 16 0 20 2 ≡ some b)
    × ((b ≡ true) ↔ Seen screen 0 2 16 0 16)
has_visible_span_iff_example =
    has_visible_span_iff screen 0 screen-IsWhole 16 0 16 (omega arith) (omega arith) (omega arith)
      20 2 (omega arith)

background_spans-Paints_example :
    (covered 20 (background_spans screen 2 3) ≡ true) × (length (background_spans screen 2 3) ≤ 20)
background_spans-Paints_example =
    background_spans-Paints screen 2 3 20 screen-IsWhole (omega arith) (omega arith)
      (λ e. ground arith)

abbrev cutout : Bytes
cutout = 255 ∷ 0 ∷ 0 ∷ 255 ∷ 0 ∷ 0 ∷ 0 ∷ 0 ∷ 0 ∷ 255 ∷ []

abbrev old_bits : Bytes
old_bits = 7 ∷ 7 ∷ []

build_cutout_mask-at_example :
    ((is_ok (build_cutout_mask cutout old_bits).0 ≡ true)
      ↔ ((is_binary cutout ≡ true) × (length old_bits ≡ eighths (length cutout))))
    × Packs cutout old_bits (build_cutout_mask cutout old_bits)
build_cutout_mask-at_example = build_cutout_mask-at cutout old_bits

cutout_is_packed : build_cutout_mask cutout old_bits ≡ (ok tt, 9 ∷ 2 ∷ [])
unfolding build_cutout_mask fill_bits
cutout_is_packed = refl

abbrev white : Bytes
white = replicate 18 255

-- two blocks, the second one column wide
abbrev narrow : SourceSize
narrow = record { width = 9; height = 2 }

narrow-covered : covers narrow (build_opaque_mask narrow white (0 ∷ [])).1 3 0 8 1 ≡ true
unfolding covers build_opaque_mask fill_bits all_from
narrow-covered = refl

covers-opaque_example :
    ((build_opaque_mask narrow white (0 ∷ [])).0 ≡ ok tt) × (get_or white 17 0 ≡ 255)
covers-opaque_example =
    covers-opaque narrow white (0 ∷ []) 3 0 8 1 1 8 (omega arith) (omega arith) refl refl
      (omega arith) (omega arith) (omega arith, omega arith) (omega arith, omega arith)
      narrow-covered

-- a board that begins left of the screen
abbrev leftmost : ScreenRect
leftmost = record { x = negsuc 4; y = pos 2; width = 30; height = 5 }

leftmost-shown : hides screen leftmost 3 ≡ false
unfolding hides any_from
leftmost-shown = refl

hides-false_example : hides_at screen 3 3 20 ≡ false
hides-false_example =
    hides-false screen leftmost 3 3 20 (omega arith) (omega arith) (omega arith)
      (omega arith, omega arith) leftmost-shown
