-- ===== src/Presentation/Masks/Filling.antt =====
-- What a mask holds after bits were set, and what a bounded loop of tests says.
use Prim.Native.Nat.{bit_and, bit_or}
use deskkin.Prelude.{
  ℕ, zero, suc, ◌+◌, ◌-◌, ◌/◌, ◌%◌, ◌^◌, ◌<◌, ◌≤◌, ◌==◌, ◌≡◌, ◌↔◌, refl, sym, ap, ◌∙◌, subst, Bool,
  true, false, not, ◌||◌, ◌&&◌, length, get_or, length-set, get_or-set_self, get_or-set_ne,
  get_or-replicate, replicate, leb, ltb, lt-cases, ne→==-false, ℕ_discrete, inl, inr, arith,
  if◌then◌else◌,
}
use deskkin.Prelude.Bytes.{Bytes}
use deskkin.Presentation.Masks.{has_bit, set_bit, fill_bits, all_from, all_between}
use deskkin.Presentation.Masks.Digits.{reads_or, none_set}

pub length-set_bit : (bit : ℕ) (bits : Bytes) → length (set_bit bit bits) ≡ length bits
length-set_bit bit bits = length-set bits (bit / 8) _

-- the byte of a bit after another was set
byte_after :
    (i bit : ℕ) (bits : Bytes)
    → i / 8 < length bits
    → i / 8 ≡ bit / 8
    → get_or (set_bit bit bits) (i / 8) 0 ≡ bit_or (get_or bits (i / 8) 0) (2 ^ (bit % 8))
byte_after i bit bits inside e =
    ap (λ n. get_or (set_bit bit bits) n 0) e
    ∙ get_or-set_self bits (bit / 8) _ 0 (omega arith)
    ∙ ap (λ n. bit_or (get_or bits n 0) (2 ^ (bit % 8))) (sym e)

same_bit : (i bit : ℕ) → i / 8 ≡ bit / 8 → (i % 8 == bit % 8) ≡ (i == bit)
same_bit i bit e = ground arith

pub has_bit-set_bit :
    (i bit : ℕ) (bits : Bytes)
    → i / 8 < length bits
    → has_bit (set_bit bit bits) i ≡ ((i == bit) || has_bit bits i)
has_bit-set_bit i bit bits inside = elim (ℕ_discrete (i / 8) (bit / 8)) [
  | yes e ↦
      ap (λ n. not (bit_and n (2 ^ (i % 8)) == 0)) (byte_after i bit bits inside e)
      ∙ reads_or (i % 8) (bit % 8) (get_or bits (i / 8) 0)
      ∙ ap (λ b. b || has_bit bits i) (same_bit i bit e)
  | no n ↦
      ap (λ m. not (bit_and m (2 ^ (i % 8)) == 0))
        (get_or-set_ne bits (bit / 8) (i / 8) _ 0 (λ e. n (sym e)))
      ∙ ap (λ b. b || has_bit bits i) (sym (ne→==-false i bit (λ e. n (ap (λ m. m / 8) e))))
]

pub has_bit-fill_bits :
    (test : ℕ → Bool) (count first i : ℕ) (bits : Bytes)
    → i / 8 < length bits
    → has_bit (fill_bits test count first bits) i
      ≡ ((leb first i && ltb i (first + count) && test i) || has_bit bits i)
unfolding fill_bits
has_bit-fill_bits test zero first i bits inside = ground arith
has_bit-fill_bits test (suc count) first i bits inside =
    let next = if test first then set_bit first bits else bits in
    let later = has_bit-fill_bits test count (first + 1) i next (kept_length inside) in
    ground (arith, later, has_bit-set_bit i first bits inside)
  where
    kept_length :
        i / 8 < length bits → i / 8 < length (if test first then set_bit first bits else bits)
    kept_length h = ground (arith, length-set_bit first bits)

pub has_bit-replicate : (n i : ℕ) → has_bit (replicate n 0) i ≡ false
has_bit-replicate n i =
    ap (λ m. not (bit_and m (2 ^ (i % 8)) == 0)) (get_or-replicate n (i / 8) 0)
    ∙ ap not (none_set (i % 8))

pub all_from_iff :
    (test : ℕ → Bool) (count first : ℕ)
    → (all_from test count first ≡ true) ↔ ((k : ℕ) → first ≤ k → k < first + count → test k ≡ true)
unfolding all_from
all_from_iff test zero first = (λ h. λ k. λ a. λ b. ground arith, λ h. refl)
all_from_iff test (suc count) first = (
  λ h. λ k. λ a. λ b. elim (lt-cases first k) [
    | inl later ↦
        (all_from_iff test count (first + 1)).0 (ground arith) k (omega arith) (omega arith)
    | inr here ↦
        let same : first ≡ k = omega arith in subst (λ n. test n ≡ true) same (ground arith)
  ],
  λ h.
      let now = h first (omega arith) (omega arith) in
      let rest =
        (all_from_iff test count (first + 1)).1 (λ k. λ a. λ b. h k (omega arith) (omega arith)) in
      ground (arith, now, rest),
)

pub all_between_iff :
    (first end : ℕ) (test : ℕ → Bool)
    → (all_between first end test ≡ true) ↔ ((k : ℕ) → first ≤ k → k < end → test k ≡ true)
all_between_iff first end test =
    let (to, back) = all_from_iff test (end - first) first in
    (λ h. λ k. λ a. λ b. to h k a (omega arith), λ h. back (λ k. λ a. λ b. h k a (omega arith)))
