-- ===== src/Presentation/Masks/Opaque.antt =====
-- The mask of the opaque blocks says nothing that is not so.
use native.Mathlib.Nat.{
  mul-add-div_right, mul-add-mod_self_right, div-eq_of_lt, mod-eq_of_lt, mul-le-mul_right, mul_comm,
}
use deskkin.Prelude.{
  ℕ, suc, ◌+◌, ◌*◌, ◌/◌, ◌%◌, ◌<◌, ◌≤◌, ◌==◌, ◌≡◌, sym, ap, ◌∙◌, subst, Bool, true, false, not,
  ◌||◌, ◌&&◌, length, get_or, length-replicate, replicate, leb, ltb, min, arith, if◌then◌else◌,
  ==_iff,
}
use deskkin.Prelude.Results.{ok, err}
use deskkin.Prelude.Bytes.{Bytes}
use deskkin.Presentation.Masks.{
  SourceSize, invalid_mask, has_bit, fill_bits, is_opaque, build_opaque_mask, covers, eighths,
  bytes_for,
}
use deskkin.Presentation.Masks.Filling.{has_bit-fill_bits, has_bit-replicate, all_between_iff}

-- the number of a block is its row and its column
row_of : (stride y x : ℕ) → x < stride → (y * stride + x) / stride ≡ y
row_of stride y x h =
    let rest = div-eq_of_lt h in
    let positive : 0 < stride = omega arith in omega (arith, mul-add-div_right positive y x, rest)

column_of : (stride y x : ℕ) → x < stride → (y * stride + x) % stride ≡ x
column_of stride y x h = mul-add-mod_self_right y stride x ∙ mod-eq_of_lt h

block_exists : (stride rows y x : ℕ) → x < stride → y < rows → y * stride + x < stride * rows
block_exists stride rows y x h k =
    let more : suc y * stride ≤ rows * stride = mul-le-mul_right stride (omega arith) in
    omega (arith, more, mul_comm rows stride)

-- a texel of an opaque block
opaque_texel :
    (size : SourceSize) (alpha : Bytes) (y x : ℕ)
    → y < size.height
    → x < size.width
    → is_opaque size alpha (y / 8) (x / 8) ≡ true
    → get_or alpha (y * size.width + x) 0 ≡ 255
opaque_texel size alpha y x low narrow h =
    let row =
      (all_between_iff ((y / 8) * 8) (min ((y / 8 + 1) * 8) size.height) _).0 h y (omega arith)
        (omega arith) in
    let texel =
      (all_between_iff (y * size.width + (x / 8) * 8)
          (y * size.width + min ((x / 8 + 1) * 8) size.width) _).0
        row (y * size.width + x) (omega arith) (omega arith) in
    (==_iff (get_or alpha (y * size.width + x) 0) 255).0 texel

-- every block counts
abbrev opaque_bits : SourceSize → Bytes → Bytes → Bytes
opaque_bits size alpha bits =
    fill_bits (λ bit. is_opaque size alpha (bit / eighths size.width) (bit % eighths size.width))
      (eighths size.width * eighths size.height) 0 (replicate (length bits) 0)

tested :
    (i n : ℕ) (b c : Bool) → c ≡ false → ((leb 0 i && ltb i (0 + n) && b) || c) ≡ true → b ≡ true
tested i n b c e h = ground arith

-- a bit of the mask
marked_block :
    (size : SourceSize) (alpha bits : Bytes) (by bx : ℕ)
    → length bits ≡ bytes_for size
    → by < eighths size.height
    → bx < eighths size.width
    → has_bit (opaque_bits size alpha bits) (by * eighths size.width + bx) ≡ true
    → is_opaque size alpha by bx ≡ true
marked_block size alpha bits by bx fits low narrow h =
    let stride = eighths size.width in
    let bit = by * stride + bx in
    let clear : Bytes = replicate (length bits) 0 in
    let long : length clear ≡ length bits = length-replicate (length bits) 0 in
    let test = λ (n : ℕ). is_opaque size alpha (n / stride) (n % stride) in
    let inside : bit < stride * eighths size.height =
      block_exists stride (eighths size.height) by bx narrow low in
    let there =
      has_bit-fill_bits test (stride * eighths size.height) 0 bit clear
        (omega (arith, long, fits, inside)) in
    let opaque : test bit ≡ true =
      tested bit (stride * eighths size.height) _ _ (has_bit-replicate (length bits) bit)
        (sym there ∙ h) in
    subst (λ n. is_opaque size alpha n bx ≡ true) (row_of stride by bx narrow)
      (subst (λ n. is_opaque size alpha (bit / stride) n ≡ true) (column_of stride by bx narrow)
        opaque)

built :
    (size : SourceSize) (alpha bits : Bytes)
    → 0 < size.width
    → 0 < size.height
    → length alpha ≡ size.width * size.height
    → length bits ≡ bytes_for size
    → build_opaque_mask size alpha bits ≡ (ok tt, opaque_bits size alpha bits)
unfolding build_opaque_mask
built size alpha bits wide tall whole fits =
    let accepted : ((size.width == 0)
          || (size.height == 0)
          || not (length alpha == size.width * size.height)
          || not (length bits == bytes_for size))
        ≡ false =
      ground (arith, wide, tall, whole, fits) in
    ap (λ b. if b then (err invalid_mask, bits) else (ok tt, opaque_bits size alpha bits)) accepted

-- The mask of the opaque blocks of a plane of alpha values is built, and when it covers a rectangle of
-- the texture then each texel of the rectangle is opaque, also in the blocks at the borders.
pub covers-opaque :
    (size : SourceSize) (alpha bits : Bytes) (left top right bottom y x : ℕ)
    → 0 < size.width
    → 0 < size.height
    → length alpha ≡ size.width * size.height
    → length bits ≡ bytes_for size
    → right < size.width
    → bottom < size.height
    → (left ≤ x) × (x ≤ right)
    → (top ≤ y) × (y ≤ bottom)
    → covers size (build_opaque_mask size alpha bits).1 left top right bottom ≡ true
    → ((build_opaque_mask size alpha bits).0 ≡ ok tt) × (get_or alpha (y * size.width + x) 0 ≡ 255)
unfolding covers
covers-opaque size alpha bits left top right bottom y x wide tall whole fits narrow low across down
      h =
    let done = built size alpha bits wide tall whole fits in
    let (after_left, before_right) = across in
    let (after_top, before_bottom) = down in
    let row =
      (all_between_iff (top / 8) (bottom / 8 + 1) _).0 h (y / 8) (omega arith) (omega arith) in
    let bit =
      (all_between_iff (left / 8) (right / 8 + 1) _).0 row (x / 8) (omega arith) (omega arith) in
    let marked =
      subst (λ mask. has_bit mask (y / 8 * eighths size.width + x / 8) ≡ true) (ap (λ p. p.1) done)
        bit in
    (
      ap (λ p. p.0) done,
      opaque_texel size alpha y x (omega arith) (omega arith)
          (marked_block size alpha bits (y / 8) (x / 8) fits (omega arith) (omega arith) marked),
    )
