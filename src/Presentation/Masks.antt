-- ===== src/Presentation/Masks.antt =====
-- crates/deskkin-presentation/src/occlusion.rs: masks of one bit per texel or per block of 8 x 8 texels,
-- the least significant bit first. An index that is out of bounds reads as zero here; the theorems
-- are about indices within.
pub mod Digits
pub mod Filling
pub mod Cutout
pub mod Opaque
use deskkin.Prelude.{
  ℕ, zero, suc, ◌+◌, ◌-◌, ◌*◌, ◌/◌, ◌%◌, ◌^◌, ◌==◌, Bool, true, false, not, ◌&&◌, ◌||◌, List, [],
  ◌∷◌, length, get_or, set, replicate, min, if◌then◌else◌,
}
use deskkin.Prelude.Results.{Result, ok, err}
use deskkin.Prelude.Bytes.{Bytes}
use Prim.Native.Nat.{bit_and, bit_or}

pub data RasterError : Type 0 where
  invalid_mask : RasterError

pub record SourceSize : Type 0 where
  pub width : ℕ
  pub height : ℕ

-- `div_ceil(8)`; 8 is also TILE
abbrev pub eighths : ℕ → ℕ
eighths n = (n + 7) / 8

abbrev pub bytes_for : SourceSize → ℕ
bytes_for size = eighths (eighths size.width * eighths size.height)

-- `bits[bit / 8] & (1 << (bit % 8)) != 0`
abbrev pub has_bit : Bytes → ℕ → Bool
has_bit bits bit = not (bit_and (get_or bits (bit / 8) 0) (2 ^ (bit % 8)) == 0)

-- `bits[bit / 8] |= 1 << (bit % 8)`
abbrev pub set_bit : ℕ → Bytes → Bytes
set_bit bit bits = set bits (bit / 8) (bit_or (get_or bits (bit / 8) 0) (2 ^ (bit % 8)))

-- set the bits at which a test holds, for so many from the first on
unfoldable pub fill_bits : (ℕ → Bool) → (count first : ℕ) → Bytes → Bytes
fill_bits test zero first bits = bits
fill_bits test (suc count) first bits =
    fill_bits test count (first + 1) (if test first then set_bit first bits else bits)

abbrev pub is_binary : Bytes → Bool
is_binary [] = true
is_binary (a ∷ alpha) = (a == 0 || a == 255) && is_binary alpha

unfoldable pub build_cutout_mask : Bytes → Bytes → Result RasterError (Unit {0}) × Bytes
unfolding fill_bits
build_cutout_mask alpha bits =
    if not (length bits == eighths (length alpha)) || not (is_binary alpha)
    then (err invalid_mask, bits)
    else (
      ok tt,
      fill_bits (λ index. get_or alpha index 0 == 255) (length alpha) 0 (replicate (length bits) 0),
    )

-- `Coverage::at` of a cutout
abbrev pub at : Bytes → ℕ → ℕ
at bits index = if has_bit bits index then 255 else 0

-- whether a test holds for so many numbers from the first on
unfoldable pub all_from : (ℕ → Bool) → (count first : ℕ) → Bool
all_from test zero first = true
all_from test (suc count) first = test first && all_from test count (first + 1)

-- `(first..end).all(test)`
abbrev pub all_between : (first end : ℕ) → (ℕ → Bool) → Bool
all_between first end test = all_from test (end - first) first

-- the block in row `by` and column `bx`
abbrev pub is_opaque : SourceSize → Bytes → (by bx : ℕ) → Bool
is_opaque size alpha by bx = all_between (by * 8) (min ((by + 1) * 8) size.height) (λ y.
    all_between (y * size.width + bx * 8) (y * size.width + min ((bx + 1) * 8) size.width)
      (λ i. get_or alpha i 0 == 255))

-- the loops over the rows and columns of blocks, in the order of their bits
unfoldable pub build_opaque_mask :
    SourceSize → Bytes → Bytes → Result RasterError (Unit {0}) × Bytes
unfolding fill_bits all_from
build_opaque_mask size alpha bits =
    let stride = eighths size.width in
    if (size.width == 0)
      || (size.height == 0)
      || not (length alpha == size.width * size.height)
      || not (length bits == bytes_for size)
    then (err invalid_mask, bits)
    else (
      ok tt,
      fill_bits (λ bit. is_opaque size alpha (bit / stride) (bit % stride))
          (stride * eighths size.height) 0 (replicate (length bits) 0),
    )

-- `Mask8::covers`
unfoldable pub covers : SourceSize → Bytes → (left top right bottom : ℕ) → Bool
unfolding all_from
covers size bits left top right bottom =
    all_between (top / 8) (bottom / 8 + 1)
      (λ y. all_between (left / 8) (right / 8 + 1) (λ x. has_bit bits (y * eighths size.width + x)))
