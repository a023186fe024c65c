-- ===== src/Presentation/Masks/Cutout.antt =====
-- A binary plane is not changed by packing it.
use deskkin.Prelude.{
  ℕ, zero, suc, ◌+◌, ◌<◌, ◌==◌, ◌≡◌, refl, ap, ◌∙◌, Bool, true, false, not, ◌||◌, ◌&&◌, [], ◌∷◌,
  length, get_or, length-replicate, replicate, leb, ltb, arith, if◌then◌else◌, ℕ_discrete,
  Bool-cases, ◌↔◌, sym, subst, inl, inr,
}
use deskkin.Prelude.Results.{Result, ok, err, is_ok}
use deskkin.Prelude.Bytes.{Bytes}
use deskkin.Presentation.Masks.{
  RasterError, invalid_mask, has_bit, set_bit, fill_bits, is_binary, build_cutout_mask, at, eighths,
}
use deskkin.Presentation.Masks.Filling.{length-set_bit, has_bit-fill_bits, has_bit-replicate}

-- a byte of a binary plane
binary_byte :
    (alpha : Bytes) (i : ℕ)
    → is_binary alpha ≡ true
    → (if get_or alpha i 0 == 255 then 255 else 0) ≡ get_or alpha i 0
binary_byte [] i h = refl
binary_byte (a ∷ alpha) zero h = ground arith
binary_byte (a ∷ alpha) (suc i) h = binary_byte alpha i (ground arith)

abbrev filled : (alpha bits : Bytes) → Bytes
filled alpha bits =
    fill_bits (λ index. get_or alpha index 0 == 255) (length alpha) 0 (replicate (length bits) 0)

plain : (i n : ℕ) (b c : Bool) → i < n → c ≡ false → ((leb 0 i && ltb i (0 + n) && b) || c) ≡ b
plain i n b c h e = ground arith

filled-at :
    (alpha bits : Bytes) (i : ℕ)
    → is_binary alpha ≡ true
    → length bits ≡ eighths (length alpha)
    → i < length alpha
    → at (filled alpha bits) i ≡ get_or alpha i 0
filled-at alpha bits i binary fits inside =
    let clear : Bytes = replicate (length bits) 0 in
    let long : length clear ≡ length bits = length-replicate (length bits) 0 in
    let there : has_bit (filled alpha bits) i ≡ (get_or alpha i 0 == 255) =
      has_bit-fill_bits (λ index. get_or alpha index 0 == 255) (length alpha) 0 i clear
        (omega (arith, long))
      ∙ plain i (length alpha) _ _ inside (has_bit-replicate (length bits) i) in
    ap (λ b. if b then 255 else 0) there ∙ binary_byte alpha i binary

packed :
    (alpha bits : Bytes)
    → is_binary alpha ≡ true
    → length bits ≡ eighths (length alpha)
    → build_cutout_mask alpha bits ≡ (ok tt, filled alpha bits)
unfolding build_cutout_mask
packed alpha bits binary fits =
    let accepted : (not (length bits == eighths (length alpha)) || not (is_binary alpha)) ≡ false =
      ground (arith, binary, fits) in
    ap (λ b. if b then (err invalid_mask, bits) else (ok tt, filled alpha bits)) accepted

refused :
    (alpha bits : Bytes)
    → (not (length bits == eighths (length alpha)) || not (is_binary alpha)) ≡ true
    → build_cutout_mask alpha bits ≡ (err invalid_mask, bits)
unfolding build_cutout_mask
refused alpha bits bad =
    ap (λ b. if b then (err invalid_mask, bits) else (ok tt, filled alpha bits)) bad

-- a mask that reads as the plane, or the mask as it was
abbrev pub Packs : (alpha bits : Bytes) → Result RasterError (Unit {0}) × Bytes → Type 0
Packs alpha bits (ok _, mask) =
    (length mask ≡ length bits) × ((i : ℕ) → i < length alpha → at mask i ≡ get_or alpha i 0)
Packs alpha bits (err _, mask) = mask ≡ bits

length-fill_bits :
    (test : ℕ → Bool) (count first : ℕ) (bits : Bytes)
    → length (fill_bits test count first bits) ≡ length bits
unfolding fill_bits
length-fill_bits test zero first bits = refl
length-fill_bits test (suc count) first bits =
    length-fill_bits test count (first + 1) (if test first then set_bit first bits else bits)
    ∙ one (test first)
  where
    one : (b : Bool) → length (if b then set_bit first bits else bits) ≡ length bits
    one true = length-set_bit first bits
    one false = refl

packed-Packs :
    (alpha bits : Bytes)
    → is_binary alpha ≡ true
    → length bits ≡ eighths (length alpha)
    → Packs alpha bits (ok tt, filled alpha bits)
packed-Packs alpha bits binary fits =
    let clear : Bytes = replicate (length bits) 0 in
    (
      length-fill_bits (λ index. get_or alpha index 0 == 255) (length alpha) 0 clear
          ∙ length-replicate (length bits) 0,
      λ i. λ inside. filled-at alpha bits i binary fits inside,
    )

-- Packing a plane of alpha values succeeds exactly if all of them are 0 or 255 and the mask has a bit
-- for each and no byte more. If it succeeds, then each reads from the mask as it was, and otherwise
-- nothing is written.
pub build_cutout_mask-at :
    (alpha bits : Bytes)
    → ((is_ok (build_cutout_mask alpha bits).0 ≡ true)
        ↔ ((is_binary alpha ≡ true) × (length bits ≡ eighths (length alpha))))
      × Packs alpha bits (build_cutout_mask alpha bits)
build_cutout_mask-at alpha bits = elim (Bool-cases (is_binary alpha)) [
  | inl binary ↦ elim (ℕ_discrete (length bits) (eighths (length alpha))) [
    | yes fits ↦
        let done = packed alpha bits binary fits in
        (
          (λ h. (binary, fits), λ h. ap (λ p. is_ok p.0) done),
          subst (Packs alpha bits) (sym done) (packed-Packs alpha bits binary fits),
        )
    | no n ↦
        let none = refused alpha bits (ground arith) in
        (
          (λ h. ground (arith, ap (λ p. is_ok p.0) none), λ h. absurd (n h.1)),
          subst (Packs alpha bits) (sym none) refl,
        )
  ]
  | inr other ↦
      let none = refused alpha bits (ground arith) in
      (
        (λ h. ground (arith, ap (λ p. is_ok p.0) none), λ h. ground arith),
        subst (Packs alpha bits) (sym none) refl,
      )
]
