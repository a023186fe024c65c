-- ===== src/Presentation/Occlusion/Background.antt =====
-- The spans that `paint_background` fills: exactly the pixels that nothing covers.
use deskkin.Prelude.{
  ℕ, zero, suc, ◌+◌, ◌-◌, ◌*◌, ◌/◌, ◌<◌, ◌≤◌, ◌≡◌, ◌==◌, refl, sym, ap, subst, ◌∙◌, Bool, false,
  ◌&&◌, ◌||◌, Option, none, some, List, [], ◌∷◌, length, get_or, lt-cases, ltb, leb, inl, inr,
  arith, take, drop,
}
use deskkin.Presentation.Occlusion.{
  viewport_width, viewport_height, cells, ScreenTile, eight, sixteen, Occlusion, open_spans, scale,
  background_spans, pixels, columns,
}
use deskkin.Presentation.Occlusion.Advance.{cutoff_at, IsWhole}

-- whether a column is in one of the spans
abbrev pub covered : ℕ → List (ℕ × ℕ) → Bool
covered k [] = false
covered k ((start, stop) ∷ spans) = (leb start k && ltb k stop) || covered k spans

-- the columns before the current one that belong to the span that was begun, and the uncovered ones
abbrev begun_at : Option ℕ → (column k : ℕ) → Bool
begun_at none column k = false
begun_at (some start) column k = leb start k && ltb k column

abbrev uncovered : (column k : ℕ) → List ℕ → Bool
uncovered column k cutoffs =
    leb column k && ltb (k - column) (length cutoffs) && (get_or cutoffs (k - column) 1 == 0)

abbrev IsBegun : Option ℕ → ℕ → Type 0
IsBegun none column = Unit {0}
IsBegun (some start) column = start < column

-- the first column, and the later ones
get_or-here : (c : ℕ) (cs : List ℕ) (column k : ℕ) → k ≡ column → get_or (c ∷ cs) (k - column) 1 ≡ c
get_or-here c cs column k e =
    let none_left : k - column ≡ 0 = omega arith in ap (λ n. get_or (c ∷ cs) n 1) none_left

get_or-later :
    (c : ℕ) (cs : List ℕ) (column k : ℕ)
    → column < k
    → get_or (c ∷ cs) (k - column) 1 ≡ get_or cs (k - (column + 1)) 1
get_or-later c cs column k h =
    let more : k - column ≡ suc (k - (column + 1)) = omega arith in
    ap (λ n. get_or (c ∷ cs) n 1) more

uncovered-cons :
    (c : ℕ) (cs : List ℕ) (column k : ℕ)
    → uncovered column k (c ∷ cs) ≡ (((k == column) && (c == 0)) || uncovered (column + 1) k cs)
uncovered-cons c cs column k = elim (lt-cases column k) [
  | inl later ↦ ground (arith, get_or-later c cs column k later)
  | inr h ↦ elim (lt-cases k column) [
    | inl before ↦ ground arith
    | inr same ↦ ground (arith, get_or-here c cs column k (omega arith))
  ]
]

open_spans-covered :
    (cutoffs : List ℕ) (begun : Option ℕ) (column k : ℕ)
    → IsBegun begun column
    → covered k (open_spans begun column cutoffs)
      ≡ (begun_at begun column k || uncovered column k cutoffs)
unfolding open_spans
open_spans-covered [] none column k h = ground arith
open_spans-covered [] (some start) column k h = ground arith
open_spans-covered (c ∷ cs) none column k h =
    let a = open_spans-covered cs (some column) (column + 1) k (omega arith) in
    let b = open_spans-covered cs none (column + 1) k tt in
    ground (arith, a, b, uncovered-cons c cs column k)
open_spans-covered (c ∷ cs) (some start) column k h =
    let a = open_spans-covered cs (some start) (column + 1) k (omega arith) in
    let b = open_spans-covered cs none (column + 1) k tt in
    ground (arith, a, b, uncovered-cons c cs column k)

-- how many spans there are at most
abbrev at_most : Option ℕ → ℕ → ℕ
at_most none n = (n + 1) / 2
at_most (some _) n = n / 2 + 1

open_spans-le :
    (cutoffs : List ℕ) (begun : Option ℕ) (column : ℕ)
    → length (open_spans begun column cutoffs) ≤ at_most begun (length cutoffs)
unfolding open_spans
open_spans-le [] none column = omega arith
open_spans-le [] (some start) column = omega arith
open_spans-le (c ∷ cs) none column =
    let a = open_spans-le cs (some column) (column + 1) in
    let b = open_spans-le cs none (column + 1) in ground (arith, a, b)
open_spans-le (c ∷ cs) (some start) column =
    let a = open_spans-le cs (some start) (column + 1) in
    let b = open_spans-le cs none (column + 1) in ground (arith, a, b)

-- a row of tiles
length-slice : (m n : ℕ) (xs : List ℕ) → m + n ≤ length xs → length (take n (drop m xs)) ≡ n
length-slice zero zero xs h = refl
length-slice zero (suc n) [] h = ground arith
length-slice zero (suc n) (x ∷ xs) h = ap suc (length-slice zero n xs (omega arith))
length-slice (suc m) n [] h = ground arith
length-slice (suc m) n (x ∷ xs) h = length-slice m n xs (omega arith)

get_or-take :
    (n j : ℕ) (xs : List ℕ) → n ≤ length xs → j < n → get_or (take n xs) j 1 ≡ get_or xs j 0
get_or-take zero j xs h k = ground arith
get_or-take (suc n) j [] h k = ground arith
get_or-take (suc n) zero (x ∷ xs) h k = refl
get_or-take (suc n) (suc j) (x ∷ xs) h k = get_or-take n j xs (omega arith) (omega arith)

get_or-drop : (m j : ℕ) (xs : List ℕ) → get_or (drop m xs) j 0 ≡ get_or xs (m + j) 0
get_or-drop zero j xs = let same : j ≡ 0 + j = omega arith in ap (λ n. get_or xs n 0) same
get_or-drop (suc m) j [] = refl
get_or-drop (suc m) j (x ∷ xs) =
    let same : suc (m + j) ≡ suc m + j = omega arith in
    get_or-drop m j xs ∙ ap (λ n. get_or (x ∷ xs) n 0) same

length-drop : (m : ℕ) (xs : List ℕ) → length (drop m xs) ≡ length xs - m
length-drop zero xs = omega arith
length-drop (suc m) [] = omega arith
length-drop (suc m) (x ∷ xs) = omega (arith, length-drop m xs)

get_or-slice :
    (m n j : ℕ) (xs : List ℕ)
    → m + n ≤ length xs
    → j < n
    → get_or (take n (drop m xs)) j 1 ≡ get_or xs (m + j) 0
get_or-slice m n j xs h k =
    get_or-take n j (drop m xs) (omega (arith, length-drop m xs)) k ∙ get_or-drop m j xs

row_exists :
    (tile : ScreenTile) (y : ℕ)
    → y < viewport_height
    → (y / pixels tile) * (viewport_width / pixels tile) + viewport_width / pixels tile ≤ cells tile
row_exists eight y h = omega arith
row_exists sixteen y h = omega arith

column_exists :
    (tile : ScreenTile) (x : ℕ)
    → x < viewport_width
    → x / pixels tile < viewport_width / pixels tile
column_exists eight x h = omega arith
column_exists sixteen x h = omega arith

at_most-columns : (tile : ScreenTile) → at_most none (viewport_width / pixels tile) ≤ 20
at_most-columns eight = omega arith
at_most-columns sixteen = omega arith

covered-scale :
    (tile : ScreenTile) (x : ℕ) (spans : List (ℕ × ℕ))
    → covered x (scale (pixels tile) spans) ≡ covered (x / pixels tile) spans
covered-scale tile x [] = refl
covered-scale eight x ((start, stop) ∷ spans) = ground (arith, covered-scale eight x spans)
covered-scale sixteen x ((start, stop) ∷ spans) = ground (arith, covered-scale sixteen x spans)

length-scale : (n : ℕ) (spans : List (ℕ × ℕ)) → length (scale n spans) ≡ length spans
length-scale n [] = refl
length-scale n (s ∷ spans) = ap suc (length-scale n spans)

background_spans-opaque :
    (o : Occlusion) (n band : ℕ)
    → background_spans o (suc n) band
      ≡ scale
          (pixels o.tile)
          (open_spans none 0 (take (columns o) (drop (band / pixels o.tile * columns o) o.cutoffs)))
unfolding background_spans
background_spans-opaque o n band = ground arith

-- On a screen with one cutoff for each tile, which are all zero in a row if the count of opaque tiles
-- is zero: the background is painted at exactly the pixels of a row that no board covers, in at most
-- twenty spans, as many as there is room for.
pub background_spans-Paints :
    (o : Occlusion) (opaque_tiles band x : ℕ)
    → IsWhole o
    → band < viewport_height
    → x < viewport_width
    → (opaque_tiles ≡ 0 → cutoff_at o band x ≡ 0)
    → (covered x (background_spans o opaque_tiles band) ≡ (cutoff_at o band x == 0))
      × (length (background_spans o opaque_tiles band) ≤ 20)
unfolding background_spans
background_spans-Paints o zero band x whole on_screen in_row counts = ground (arith, counts refl)
background_spans-Paints o (suc n) band x whole on_screen in_row counts =
    let before = (band / pixels o.tile) * columns o in
    let cutoffs = take (columns o) (drop before o.cutoffs) in
    let enough : before + columns o ≤ length o.cutoffs =
      subst (λ n. before + columns o ≤ n) (sym whole) (row_exists o.tile band on_screen) in
    let column = x / pixels o.tile in
    let inside = column_exists o.tile x in_row in
    let long = length-slice before (columns o) o.cutoffs enough in
    let found = get_or-slice before (columns o) column o.cutoffs enough inside in
    let first : column - 0 ≡ column = omega arith in
    let right : uncovered 0 column cutoffs ≡ (cutoff_at o band x == 0) =
      ground (arith, inside, long, found, first) in
    let paints : covered x (scale (pixels o.tile) (open_spans none 0 cutoffs))
        ≡ (cutoff_at o band x == 0) =
      covered-scale o.tile x (open_spans none 0 cutoffs)
      ∙ open_spans-covered cutoffs none 0 column tt
      ∙ right in
    let few : length (scale (pixels o.tile) (open_spans none 0 cutoffs)) ≤ 20 = omega (
      arith,
      length-scale (pixels o.tile) (open_spans none 0 cutoffs),
      open_spans-le cutoffs none 0,
      long,
      at_most-columns o.tile,
    ) in
    let same = background_spans-opaque o n band in
    (ap (covered x) same ∙ paints, subst (λ spans. length spans ≤ 20) (sym same) few)
