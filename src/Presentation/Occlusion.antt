-- ===== src/Presentation/Occlusion.antt =====
-- crates/deskkin-presentation/src/occlusion.rs: which parts of a row are visible. A cutoff of a screen
-- tile is the index of the first board that hides what is behind it, plus one, and zero if none does.
-- An access out of bounds, which panics, and fuel that runs out both are none.
pub mod Advance
pub mod Spans
pub mod Regions
pub mod Hiding
pub mod Background
use deskkin.Prelude.{
  ℕ, zero, suc, ◌+◌, ◌-◌, ◌*◌, ◌/◌, ◌==◌, Bool, true, false, not, Option, none, some, List, [], ◌∷◌,
  get_elem?, get_or, ◌||◌, ◌^◌, take, drop, min, ltb, if◌then◌else◌,
}

abbrev pub viewport_width : ℕ
viewport_width = 320

abbrev pub viewport_height : ℕ
viewport_height = 240

pub data ScreenTile : Type 0 where
  eight sixteen : ScreenTile

abbrev pub pixels : ScreenTile → ℕ
pixels eight = 8
pixels sixteen = 16

abbrev pub cells : ScreenTile → ℕ
cells tile = (viewport_width / pixels tile) * (viewport_height / pixels tile)

pub record Occlusion : Type 0 where
  pub tile : ScreenTile
  pub cutoffs : List ℕ

abbrev pub columns : Occlusion → ℕ
columns occlusion = viewport_width / pixels occlusion.tile

abbrev pub row_end : Occlusion → ℕ → ℕ → ℕ
row_end occlusion y end = min ((y / pixels occlusion.tile + 1) * pixels occlusion.tile) end

abbrev bind : {A B : Type 0} → Option A → (A → Option B) → Option B
bind none next = none
bind (some a) next = next a

-- the cutoff of a tile decides whether to go on
abbrev decide : (ℕ → Bool) → Option ℕ → Option ℕ → Option ℕ → Option ℕ
decide test none next stop = none
decide test (some cutoff) next stop = if test cutoff then next else stop

-- `while x < end && test(cutoffs[row + x / tile]) { x = ((x / tile + 1) * tile).min(end); }`
unfoldable pub advance : (ℕ → Bool) → Occlusion → (row end : ℕ) → ℕ → ℕ → Option ℕ
advance test occlusion row end zero x = none
advance test occlusion row end (suc fuel) x =
    let next = advance test occlusion row end fuel (row_end occlusion x end) in
    if ltb x end
    then decide test (get_elem? occlusion.cutoffs (row + x / pixels occlusion.tile)) next (some x)
    else some x

-- `cutoff > index + 1`
abbrev pub hidden : ℕ → ℕ → Bool
hidden index cutoff = ltb (index + 1) cutoff

unfoldable pub visible_span : Occlusion → (y x end index : ℕ) → Option (Option (ℕ × ℕ))
unfolding advance
visible_span occlusion y x end index =
    let row = (y / pixels occlusion.tile) * columns occlusion in
    bind (advance (hidden index) occlusion row end (suc (end - x)) x) (λ start.
      if start == end
      then some none
      else bind
          (advance (λ cutoff. not (hidden index cutoff)) occlusion row end (suc (end - start))
            start)
          (λ stop. some (some (start, stop))))

abbrev is_span : Option (ℕ × ℕ) → Bool
is_span none = false
is_span (some _) = true

-- `has_visible_span`, from a row on
unfoldable pub has_visible_span : Occlusion → (bottom left right index : ℕ) → ℕ → ℕ → Option Bool
has_visible_span occlusion bottom left right index zero row = none
has_visible_span occlusion bottom left right index (suc fuel) row =
    let below =
      has_visible_span occlusion bottom left right index fuel (row_end occlusion row bottom) in
    if ltb row bottom
    then bind (visible_span occlusion row left right index)
        (λ span. if is_span span then some true else below)
    else some false

-- the spans of a row of tiles that nothing covers, in columns; `begun` is where the last one began
unfoldable pub open_spans : (begun : Option ℕ) → (column : ℕ) → List ℕ → List (ℕ × ℕ)
open_spans none column [] = []
open_spans (some start) column [] = (start, column) ∷ []
open_spans none column (cutoff ∷ cutoffs) =
    let opened = open_spans (some column) (column + 1) cutoffs in
    let skipped = open_spans none (column + 1) cutoffs in if cutoff == 0 then opened else skipped
open_spans (some start) column (cutoff ∷ cutoffs) =
    let kept = open_spans (some start) (column + 1) cutoffs in
    let closed = open_spans none (column + 1) cutoffs in
    if cutoff == 0 then kept else (start, column) ∷ closed

abbrev pub scale : ℕ → List (ℕ × ℕ) → List (ℕ × ℕ)
scale tile [] = []
scale tile ((start, stop) ∷ spans) = (start * tile, stop * tile) ∷ scale tile spans

-- the spans that `paint_background` fills in the rows of a band of tiles
unfoldable pub background_spans : Occlusion → (opaque_tiles band : ℕ) → List (ℕ × ℕ)
unfolding open_spans
background_spans occlusion opaque_tiles band =
    if opaque_tiles == 0
    then (0, viewport_width) ∷ []
    else scale (pixels occlusion.tile) (
        open_spans none 0 (
          take (columns occlusion)
            (drop (band / pixels occlusion.tile * columns occlusion) occlusion.cutoffs)))

pub data ℤ : Type 0 where
  pos negsuc : ℕ → ℤ

-- of a projected board, whose size is not negative
pub record ScreenRect : Type 0 where
  pub x : ℤ
  pub y : ℤ
  pub width : ℕ
  pub height : ℕ

-- `value.clamp(0, limit)`
abbrev pub clamp : ℤ → ℕ → ℕ
clamp (pos a) limit = min a limit
clamp (negsuc a) limit = 0

-- `value.saturating_add(size)`
abbrev pub saturating_add : ℤ → ℕ → ℤ
saturating_add (pos a) size = pos (min (a + size) (2 ^ 31 - 1))
saturating_add (negsuc a) size = if ltb a size then pos (size - (a + 1)) else negsuc (a - size)

-- `div_ceil`
abbrev pub up : ScreenTile → ℕ → ℕ
up tile n = (n + (pixels tile - 1)) / pixels tile

-- whether a test holds for one of so many numbers from the first on
unfoldable pub any_from : (ℕ → Bool) → (count first : ℕ) → Bool
any_from test zero first = false
any_from test (suc count) first = test first || any_from test count (first + 1)

unfoldable pub hides : Occlusion → ScreenRect → (index : ℕ) → Bool
unfolding any_from
hides occlusion r index =
    let left = clamp r.x viewport_width / pixels occlusion.tile in
    let top = clamp r.y viewport_height / pixels occlusion.tile in
    let right = up occlusion.tile (clamp (saturating_add r.x r.width) viewport_width) in
    let bottom = up occlusion.tile (clamp (saturating_add r.y r.height) viewport_height) in
    any_from
      (λ y.
        any_from (λ x. hidden index (get_or occlusion.cutoffs (y * columns occlusion + x) 0))
          (right - left) left)
      (bottom - top) top
