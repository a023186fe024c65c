-- ===== src/Prelude/Bytes.antt =====
-- Byte strings as lists of numbers, and big-endian integers of a fixed number of bytes.
use mathlib.Core.List.{append-nil, append_assoc}
use native.Mathlib.Nat.{pow-suc}
use deskkin.Prelude.{
  Bool, true, false, ◌==◌, ◌&&◌, ◌↔◌, ℕ, zero, suc, ◌+◌, ◌*◌, ◌/◌, ◌%◌, ◌^◌, ◌<◌, ◌≤◌, ◌≡◌, refl,
  sym, ap, List, [], ◌∷◌, ◌++◌, length, All, All-append, length-append, arith, ap₂, ◌∙◌,
}

abbrev pub Bytes : Type 0
Bytes = List ℕ

abbrev pub IsByte : ℕ → Type 0
IsByte b = b < 256

abbrev pub AreBytes : Bytes → Type 0
AreBytes = All IsByte

-- `[u8; n]`
abbrev pub IsArray : ℕ → Bytes → Type 0
IsArray n xs = (length xs ≡ n) × AreBytes xs

-- `from_be_bytes`: the first byte is the most significant.
unfoldable pub from_be : ℕ → Bytes → ℕ
from_be acc [] = acc
from_be acc (b ∷ bs) = from_be (acc * 256 + b) bs

-- `to_be_bytes` of an integer of `n` bytes.
unfoldable pub to_be : ℕ → ℕ → Bytes
to_be zero v = []
to_be (suc n) v = to_be n (v / 256) ++ (v % 256) ∷ []

pub length-to_be : (n v : ℕ) → length (to_be n v) ≡ n
unfolding to_be
length-to_be zero v = refl
length-to_be (suc n) v =
    omega (arith, length-append (to_be n (v / 256)) ((v % 256) ∷ []), length-to_be n (v / 256))

pub to_be-AreBytes : (n v : ℕ) → AreBytes (to_be n v)
unfolding to_be
to_be-AreBytes zero v = tt
to_be-AreBytes (suc n) v =
    All-append IsByte (to_be n (v / 256)) ((v % 256) ∷ []) (to_be-AreBytes n (v / 256))
      (omega arith)

pub from_be-append :
    (acc : ℕ) (xs ys : Bytes) → from_be acc (xs ++ ys) ≡ from_be (from_be acc xs) ys
unfolding from_be
from_be-append acc [] ys = refl
from_be-append acc (x ∷ xs) ys = from_be-append (acc * 256 + x) xs ys

pub from_be-to_be : (n v acc : ℕ) → v < 256 ^ n → from_be acc (to_be n v) ≡ acc * 256 ^ n + v
unfolding from_be to_be
from_be-to_be zero v acc h = omega arith
from_be-to_be (suc n) v acc h =
    from_be-append acc (to_be n (v / 256)) ((v % 256) ∷ [])
    ∙ omega (
      arith,
      ap (λ (t : ℕ). acc * t) (pow-suc 256 n),
      pow-suc 256 n,
      from_be-to_be n (v / 256) acc (omega (arith, pow-suc 256 n)),
    )

pub to_be-append : (n v b : ℕ) → b < 256 → to_be (suc n) (v * 256 + b) ≡ to_be n v ++ b ∷ []
unfolding to_be
to_be-append n v b h =
    ap₂ (λ (q r : ℕ). to_be n q ++ r ∷ []) {x = (v * 256 + b) / 256} {y = v} (omega arith)
      (omega arith)

-- Bytes that are read as a number are the bytes of that number.
to_be-from_be_from :
    (n acc : ℕ) (xs : Bytes)
    → AreBytes xs
    → to_be (n + length xs) (from_be acc xs) ≡ to_be n acc ++ xs
unfolding from_be
to_be-from_be_from n acc [] h =
    ap (λ (k : ℕ). to_be k acc) {x = n + 0} {y = n} (omega arith) ∙ sym (append-nil (to_be n acc))
to_be-from_be_from n acc (x ∷ xs) h =
    ap (λ (k : ℕ). to_be k (from_be (acc * 256 + x) xs)) {x = n + suc (length xs)}
      {y = suc n + length xs} (omega arith)
    ∙ to_be-from_be_from (suc n) (acc * 256 + x) xs h.1
    ∙ ap (λ l. l ++ xs) (to_be-append n acc x h.0)
    ∙ append_assoc (to_be n acc) (x ∷ []) xs

mul_mono : (a b p : ℕ) → a ≤ b → a * p ≤ b * p
mul_mono a b p h = grind arith

pub from_be-lt : (acc : ℕ) (xs : Bytes) → AreBytes xs → from_be acc xs < (acc + 1) * 256 ^ length xs
unfolding from_be
from_be-lt acc [] h = omega arith
from_be-lt acc (x ∷ xs) h = omega (
  arith,
  from_be-lt (acc * 256 + x) xs h.1,
  pow-suc 256 (length xs),
  ap (λ (t : ℕ). (acc + 1) * t) (pow-suc 256 (length xs)),
  mul_mono (acc * 256 + x + 1) ((acc + 1) * 256) (256 ^ length xs) (omega (arith, h.0)),
)

-- `to_be` undoes `from_be` on as many bytes as were read.
pub to_be-from_be : (n : ℕ) (xs : Bytes) → length xs ≡ n → AreBytes xs → to_be n (from_be 0 xs) ≡ xs
unfolding to_be
to_be-from_be n xs len h =
    ap (λ (k : ℕ). to_be k (from_be 0 xs)) {x = n} {y = 0 + length xs} (omega arith)
    ∙ to_be-from_be_from 0 0 xs h

-- `==` on arrays
unfoldable pub same_bytes : Bytes → Bytes → Bool
same_bytes [] [] = true
same_bytes (x ∷ xs) (y ∷ ys) = x == y && same_bytes xs ys
same_bytes _ _ = false

pub same_bytes_iff : (xs ys : Bytes) → (same_bytes xs ys ≡ true) ↔ (xs ≡ ys)
unfolding same_bytes
same_bytes_iff [] [] = ground arith
same_bytes_iff [] (y ∷ ys) = ground arith
same_bytes_iff (x ∷ xs) [] = ground arith
same_bytes_iff (x ∷ xs) (y ∷ ys) = ground (arith, same_bytes_iff xs ys)
