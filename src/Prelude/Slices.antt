-- ===== src/Prelude/Slices.antt =====
-- `&bytes[at..at + n]`, and how slices of a string make it up.
use mathlib.Core.List.{append-nil}
use native.Mathlib.Nat.{suc-add}
use deskkin.Prelude.{
  ℕ, zero, suc, ◌+◌, ◌<◌, ◌≤◌, ◌≡◌, refl, sym, ap, ◌∙◌, List, [], ◌∷◌, ◌++◌, length, take, drop,
  get_or, All, arith,
}

module _ {ℓ} {A : Type ℓ} where
  unfoldable pub slice : ℕ → ℕ → List A → List A
  slice at n xs = take n (drop at xs)

  pub slice-here : (n : ℕ) (xs ys : List A) → length xs ≡ n → slice 0 n (xs ++ ys) ≡ xs
  unfolding slice
  slice-here zero [] ys h = refl
  slice-here zero (x ∷ xs) ys h = absurd (omega arith)
  slice-here (suc n) [] ys h = absurd (omega arith)
  slice-here (suc n) (x ∷ xs) ys h = ap (λ l. x ∷ l) (slice-here n xs ys (omega arith))

  pub slice-past :
      (k at n : ℕ) (xs ys : List A) → length xs ≡ k → slice (k + at) n (xs ++ ys) ≡ slice at n ys
  unfolding slice
  slice-past k at n [] ys h = ap (λ (i : ℕ). take n (drop i ys)) (omega arith)
  slice-past zero at n (x ∷ xs) ys h = absurd (omega arith)
  slice-past (suc k) at n (x ∷ xs) ys h =
      ap (λ (i : ℕ). take n (drop i (x ∷ (xs ++ ys)))) (suc-add k at)
      ∙ slice-past k at n xs ys (omega arith)

  pub drop-here : (n : ℕ) (xs ys : List A) → length xs ≡ n → drop n (xs ++ ys) ≡ ys
  drop-here zero [] ys h = refl
  drop-here zero (x ∷ xs) ys h = absurd (omega arith)
  drop-here (suc n) [] ys h = absurd (omega arith)
  drop-here (suc n) (x ∷ xs) ys h = drop-here n xs ys (omega arith)

  pub slice-all : (n : ℕ) (xs : List A) → length xs ≡ n → slice 0 n xs ≡ xs
  slice-all n xs h = ap (slice 0 n) (sym (append-nil xs)) ∙ slice-here n xs [] h

  take-nil : (n : ℕ) → take {A = A} n [] ≡ []
  take-nil zero = refl
  take-nil (suc n) = refl

  drop-nil : (n : ℕ) → drop {A = A} n [] ≡ []
  drop-nil zero = refl
  drop-nil (suc n) = refl

  take-plus : (n k : ℕ) (xs : List A) → take (n + k) xs ≡ take n xs ++ take k (drop n xs)
  take-plus zero k xs = ap (λ (i : ℕ). take i xs) (omega arith)
  take-plus (suc n) k [] = take-nil (suc n + k) ∙ sym (take-nil k)
  take-plus (suc n) k (x ∷ xs) =
      ap (λ (i : ℕ). take i (x ∷ xs)) (suc-add n k) ∙ ap (λ l. x ∷ l) (take-plus n k xs)

  drop-plus : (n k : ℕ) (xs : List A) → drop (n + k) xs ≡ drop k (drop n xs)
  drop-plus zero k xs = ap (λ (i : ℕ). drop i xs) (omega arith)
  drop-plus (suc n) k [] = drop-nil (suc n + k) ∙ sym (drop-nil k)
  drop-plus (suc n) k (x ∷ xs) = ap (λ (i : ℕ). drop i (x ∷ xs)) (suc-add n k) ∙ drop-plus n k xs

  -- a slice is its first part and the rest
  pub slice-plus :
      (at n k : ℕ) (xs : List A) → slice at (n + k) xs ≡ slice at n xs ++ slice (at + n) k xs
  unfolding slice
  slice-plus at n k xs =
      take-plus n k (drop at xs)
      ∙ ap (λ l. take n (drop at xs) ++ take k l) (sym (drop-plus at n xs))

  pub slice-one :
      (at : ℕ) (xs : List A) (d : A) → at < length xs → slice at 1 xs ≡ get_or xs at d ∷ []
  unfolding slice
  slice-one at [] d h = elim h [ ]
  slice-one zero (x ∷ xs) d h = refl
  slice-one (suc at) (x ∷ xs) d h = slice-one at xs d (omega arith)

  pub get_or-append :
      (at : ℕ) (xs ys : List A) (y d : A) → length xs ≡ at → get_or (xs ++ y ∷ ys) at d ≡ y
  get_or-append zero [] ys y d h = refl
  get_or-append zero (x ∷ xs) ys y d h = absurd (omega arith)
  get_or-append (suc at) [] ys y d h = absurd (omega arith)
  get_or-append (suc at) (x ∷ xs) ys y d h = get_or-append at xs ys y d (omega arith)

  pub get_or-past :
      (k at : ℕ) (xs ys : List A) (d : A)
      → length xs ≡ k
      → get_or (xs ++ ys) (k + at) d ≡ get_or ys at d
  get_or-past k at [] ys d h = ap (λ (i : ℕ). get_or ys i d) {x = k + at} {y = at} (omega arith)
  get_or-past zero at (x ∷ xs) ys d h = absurd (omega arith)
  get_or-past (suc k) at (x ∷ xs) ys d h =
      ap (λ (i : ℕ). get_or (x ∷ (xs ++ ys)) i d) (suc-add k at)
      ∙ get_or-past k at xs ys d (omega arith)

  pub length-slice : (at n : ℕ) (xs : List A) → at + n ≤ length xs → length (slice at n xs) ≡ n
  unfolding slice
  length-slice zero zero xs h = refl
  length-slice zero (suc n) [] h = absurd (omega arith)
  length-slice zero (suc n) (x ∷ xs) h = ap suc (length-slice zero n xs (omega arith))
  length-slice (suc at) zero xs h = refl
  length-slice (suc at) (suc n) [] h = absurd (omega arith)
  length-slice (suc at) (suc n) (x ∷ xs) h = length-slice at (suc n) xs (omega arith)

module _ {ℓ κ} {A : Type ℓ} where
  All-take : (P : A → Type κ) (n : ℕ) (xs : List A) → All P xs → All P (take n xs)
  All-take P zero xs h = tt
  All-take P (suc n) [] h = tt
  All-take P (suc n) (x ∷ xs) h = (h.0, All-take P n xs h.1)

  All-drop : (P : A → Type κ) (n : ℕ) (xs : List A) → All P xs → All P (drop n xs)
  All-drop P zero xs h = h
  All-drop P (suc n) [] h = tt
  All-drop P (suc n) (x ∷ xs) h = All-drop P n xs h.1

  pub All-slice : (P : A → Type κ) (at n : ℕ) (xs : List A) → All P xs → All P (slice at n xs)
  unfolding slice
  All-slice P at n xs h = All-take P n (drop at xs) (All-drop P at xs h)

  pub All-get_or :
      (P : A → Type κ) (at : ℕ) (xs : List A) (d : A) → All P xs → P d → P (get_or xs at d)
  All-get_or P at [] d h hd = hd
  All-get_or P zero (x ∷ xs) d h hd = h.0
  All-get_or P (suc at) (x ∷ xs) d h hd = All-get_or P at xs d h.1 hd
