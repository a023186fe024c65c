-- ===== src/Prelude/Results.antt =====
-- `Result`, and methods with `&mut self`: what a method wrote before it failed stays in the state
-- that it returns, so a caller that wants no partial update has to discard that state.
use Prim.Native.Nat.{ℕ, ◌+◌, ◌^◌}
use mathlib.Core.Bool.{Bool, true, false}
use mathlib.Core.Option.{Option, none, some}
use mathlib.Core.Path.{◌≡◌, refl}
use deskkin.Prelude.Tests.{ltb, if◌then◌else◌}

pub data Result {ℓ κ} (E : Type ℓ) (A : Type κ) : Type (ℓ ⊔ κ) where
  ok : A → Result E A
  err : E → Result E A

-- `Option::ok_or`
abbrev pub ok_or {ℓ κ} : {E : Type ℓ} {A : Type κ} → Option A → E → Result E A
ok_or none e = err e
ok_or (some a) e = ok a

-- `Result::map_err`
abbrev pub map_err {ℓ κ} : {E F : Type ℓ} {A : Type κ} → (E → F) → Result E A → Result F A
map_err f (ok a) = ok a
map_err f (err e) = err (f e)

abbrev pub is_ok {ℓ κ} : {E : Type ℓ} {A : Type κ} → Result E A → Bool
is_ok (ok _) = true
is_ok (err _) = false

-- `checked_add` on a w-bit integer
abbrev pub checked_add : ℕ → ℕ → ℕ → Option ℕ
checked_add w a b = if ltb (a + b) (2 ^ w) then some (a + b) else none

abbrev pub Method {ℓ} : Type ℓ → Type ℓ → Type ℓ → Type ℓ
Method E S A = S → Result E A × S

module _ {ℓ} {E S A : Type ℓ} where
  abbrev pub pure : A → Method E S A
  pure a s = (ok a, s)

  abbrev pub fail : E → Method E S A
  fail e s = (err e, s)

  -- a call that reads no state
  abbrev pub lift : Result E A → Method E S A
  lift r s = (r, s)

  abbrev pub view : (S → A) → Method E S A
  view f s = (ok (f s), s)

module _ {ℓ} {E S : Type ℓ} where
  abbrev pub modify : (S → S) → Method E S (Unit {ℓ})
  modify f s = (ok tt, f s)

module _ {ℓ} {E S A B : Type ℓ} where
  abbrev pub proceed : (A → Method E S B) → Result E A → Method E S B
  proceed f (ok a) s = f a s
  proceed f (err e) s = (err e, s)

  infixl 5 ◌>>=◌ ◌>>◌
  -- `?`: an error ends the method
  abbrev pub ◌>>=◌ : Method E S A → (A → Method E S B) → Method E S B
  ◌>>=◌ m f s = proceed f (m s).0 (m s).1

  abbrev pub ◌>>◌ : Method E S A → Method E S B → Method E S B
  m >> n = m >>= λ _. n

module _ {ℓ} {E S A : Type ℓ} where
  -- keep the candidate's state only if its method succeeded
  abbrev pub settle : S → Result E A × S → Result E A × S
  settle before (ok a, after) = (ok a, after)
  settle before (err e, after) = (err e, before)

-- a method that succeeds, taken apart
pub >>=-eq-ok {ℓ} :
    {E S A B : Type ℓ} (m : Method E S A) (f : A → Method E S B) (s after : S) (b : B)
    → (m >>= f) s ≡ (ok b, after)
    → (a : A) × (mid : S) × (m s ≡ (ok a, mid)) × (f a mid ≡ (ok b, after))
>>=-eq-ok {E = E} {S = S} {A = A} {B = B} m f s after b h = split (m s) refl h
  where
    split :
        (r : Result E A × S)
        → m s ≡ r
        → proceed f r.0 r.1 ≡ (ok b, after)
        → (a : A) × (mid : S) × (m s ≡ (ok a, mid)) × (f a mid ≡ (ok b, after))
    split (ok a, mid) e k = (a, mid, e, k)
    split (err x, mid) e k = absurd (cc)

-- what holds after a method, and still after the next one if it succeeds, holds after both
pub >>=-keeps {ℓ κ} :
    {E S A B : Type ℓ} (P : S → Type κ) (m : Method E S A) (f : A → Method E S B) (s : S)
    → P (m s).1
    → ((a : A) → (m s).0 ≡ ok a → P (f a (m s).1).1)
    → P ((m >>= f) s).1
>>=-keeps {E = E} {A = A} P m f s h next = split (m s).0 refl
  where
    split : (r : Result E A) → (m s).0 ≡ r → P (proceed f r (m s).1).1
    split (ok a) e = next a e
    split (err x) e = h
