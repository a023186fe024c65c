-- ===== src/Presentation/Occlusion/Advance.antt =====
-- The loop of `visible_span`: where it stops.
use deskkin.Prelude.{
  ℕ, zero, suc, ◌+◌, ◌-◌, ◌*◌, ◌/◌, ◌<◌, ◌≤◌, ◌≡◌, refl, sym, subst, Bool, true, false, some, List,
  [], ◌∷◌, get_elem?, get_or, length, Bool-cases, lt-cases, ◌⊎◌, inl, inr, arith,
}
use deskkin.Presentation.Occlusion.{
  viewport_width, viewport_height, ScreenTile, eight, sixteen, pixels, cells, Occlusion, columns,
  row_end, advance,
}

-- the cutoff of a pixel
abbrev pub cutoff_at : Occlusion → (y x : ℕ) → ℕ
cutoff_at o y x = get_or o.cutoffs ((y / pixels o.tile) * columns o + x / pixels o.tile) 0

-- there is one cutoff for each tile, as `Occlusion::new` checks
abbrev pub IsWhole : Occlusion → Type 0
IsWhole o = length o.cutoffs ≡ cells o.tile

get_elem?-in_range : (xs : List ℕ) (i : ℕ) → i < length xs → get_elem? xs i ≡ some (get_or xs i 0)
get_elem?-in_range [] i h = ground arith
get_elem?-in_range (x ∷ xs) zero h = refl
get_elem?-in_range (x ∷ xs) (suc i) h = get_elem?-in_range xs i (omega arith)

pub cell_exists :
    (tile : ScreenTile) (y x : ℕ)
    → y < viewport_height
    → x < viewport_width
    → (y / pixels tile) * (viewport_width / pixels tile) + x / pixels tile < cells tile
cell_exists eight y x hy hx = omega arith
cell_exists sixteen y x hy hx = omega arith

-- the pixels up to the end of a tile are in the tile
pub same_tile :
    (tile : ScreenTile) (x k : ℕ)
    → x ≤ k
    → k < (x / pixels tile + 1) * pixels tile
    → k / pixels tile ≡ x / pixels tile
same_tile eight x k h j = omega arith
same_tile sixteen x k h j = omega arith

pub tile_ends_later : (tile : ScreenTile) (x : ℕ) → x < (x / pixels tile + 1) * pixels tile
tile_ends_later eight x = omega arith
tile_ends_later sixteen x = omega arith

-- the loop stops at the end or at the first pixel whose tile fails the test
pub record Stops (test : ℕ → Bool) (o : Occlusion) (y x end stop : ℕ) : Type 0 where
  pub after : x ≤ stop
  pub within : stop ≤ end
  pub passed : (k : ℕ) → x ≤ k → k < stop → test (cutoff_at o y k) ≡ true
  pub failed : stop < end → test (cutoff_at o y stop) ≡ false

module _ (test : ℕ → Bool) (o : Occlusion) (y end : ℕ) (whole : IsWhole o)
    (on_screen : y < viewport_height) (in_row : end ≤ viewport_width) where
  abbrev row : ℕ
  row = (y / pixels o.tile) * columns o

  read-cutoff :
      (x : ℕ) → x < end → get_elem? o.cutoffs (row + x / pixels o.tile) ≡ some (cutoff_at o y x)
  read-cutoff x h = get_elem?-in_range o.cutoffs _ (
      subst (λ n. row + x / pixels o.tile < n) (sym whole)
        (cell_exists o.tile y x on_screen (omega arith)))

  here-Stops : (x : ℕ) → x < end → test (cutoff_at o y x) ≡ false → Stops test o y x end x
  here-Stops x h fails = record {
    after = omega arith;
    within = omega arith;
    passed = λ k. λ a. λ b. ground arith;
    failed = λ a. fails;
  }

  end-Stops : Stops test o y end end end
  end-Stops = record {
    after = omega arith;
    within = omega arith;
    passed = λ k. λ a. λ b. ground arith;
    failed = λ a. ground arith;
  }

  row_end-gt : (x : ℕ) → x < end → x < row_end o x end
  row_end-gt x h = omega (arith, tile_ends_later o.tile x)

  -- the test passes in the whole tile of a pixel that passes
  tile_passes :
      (x k : ℕ)
      → test (cutoff_at o y x) ≡ true
      → x ≤ k
      → k < row_end o x end
      → test (cutoff_at o y k) ≡ true
  tile_passes x k passes a b =
      let same = same_tile o.tile x k a (omega arith) in
      subst (λ n. test (get_or o.cutoffs (row + n) 0) ≡ true) (sym same) passes

  later-Stops :
      (x stop : ℕ)
      → x < end
      → test (cutoff_at o y x) ≡ true
      → Stops test o y (row_end o x end) end stop
      → Stops test o y x end stop
  later-Stops x stop h passes later = record {
    after = omega (arith, later.after, row_end-gt x h);
    within = later.within;
    passed = λ k. λ a. λ b. passed_later k a b;
    failed = later.failed;
  }
    where
      passed_later : (k : ℕ) → x ≤ k → k < stop → test (cutoff_at o y k) ≡ true
      passed_later k a b = elim (lt-cases k (row_end o x end)) [
        | inl near ↦ tile_passes x k passes a near
        | inr far ↦ later.passed k far b
      ]

  at_end-Stops : (x : ℕ) → end ≡ x → Stops test o y x end x
  at_end-Stops x e = subst (λ n. Stops test o y n end n) e end-Stops

  -- what the loop returns, and that it stops there
  abbrev Ends : ℕ → ℕ → Type 0
  Ends fuel x = (stop : ℕ) × (advance test o row end fuel x ≡ some stop) × Stops test o y x end stop

  -- one round
  advance-Ends :
      (fuel x : ℕ) → x ≤ end → (x < end → Ends fuel (row_end o x end)) → Ends (suc fuel) x
  unfolding advance
  advance-Ends fuel x h later = elim (lt-cases x end) [
    | inl more ↦ go more (Bool-cases (test (cutoff_at o y x)))
    | inr over ↦ (x, ground arith, at_end-Stops x (omega arith))
  ]
    where
      go :
          x < end
          → (test (cutoff_at o y x) ≡ true) ⊎ (test (cutoff_at o y x) ≡ false)
          → Ends (suc fuel) x
      go more (inr fails) = (x, ground (arith, read-cutoff x more), here-Stops x more fails)
      go more (inl passes) =
          let (stop, e, rest) = later more in
          (stop, ground (arith, read-cutoff x more, e), later-Stops x stop more passes rest)

  pub advance-Stops : (fuel x : ℕ) → x ≤ end → end - x < fuel → Ends fuel x
  advance-Stops zero x h enough = ground arith
  advance-Stops (suc fuel) x h enough = advance-Ends fuel x h (λ more.
      advance-Stops fuel (row_end o x end) (omega arith) (omega (arith, row_end-gt x more)))
