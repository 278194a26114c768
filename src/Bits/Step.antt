-- ===== src/Bits/Step.antt =====
-- The lowest digit of `bit_xor`, and what is left above it.
use Prim.Native.Nat.{
  ℕ, zero, suc, ◌+◌, ◌*◌, ◌/◌, ◌%◌, ◌≤◌, differ, digits, bit_xor, bit_xor-bitwise,
}
use mathlib.Core.Path.{◌≡◌, refl, sym, ◌∙◌}
use native.Mathlib.Omega.{arith}

-- The count of digits to go does not matter once it is large enough.
module _ (rest : ℕ → ℕ) (op : ℕ → ℕ → ℕ) where
  digits-zero : (count b : ℕ) → digits rest op count 0 b ≡ rest b
  digits-zero zero b = refl
  digits-zero (suc count) b = refl

  same_digits :
      (a b count count' : ℕ)
      → a ≤ count
      → a ≤ count'
      → digits rest op count a b ≡ digits rest op count' a b
  same_digits zero b count count' h h' = digits-zero count b ∙ sym (digits-zero count' b)
  same_digits (suc a) b zero count' h h' = absurd (omega arith)
  same_digits (suc a) b (suc count) zero h h' = absurd (omega arith)
  same_digits (suc a) b (suc count) (suc count') h h' =
      rw (same_digits (suc a / 2) (b / 2) count count' (omega arith) (omega arith))

differ-zero : (b : ℕ) → differ 0 (b % 2) ≡ (0 + b) % 2
differ-zero b = omega arith

bit_of : (b : ℕ) → b % 2 ≤ 1
bit_of b = omega arith

differ-sum : (x y : ℕ) → x ≤ 1 → y ≤ 1 → differ x y ≡ (x + y) % 2
differ-sum zero y p q = omega arith
differ-sum (suc zero) zero p q = refl
differ-sum (suc zero) (suc zero) p q = refl
differ-sum (suc zero) (suc (suc y)) p q = absurd (omega arith)
differ-sum (suc (suc x)) y p q = absurd (omega arith)

pub bit_xor_step : (a b : ℕ) → bit_xor a b ≡ bit_xor (a / 2) (b / 2) * 2 + (a + b) % 2
bit_xor_step zero b = simp bit_xor-bitwise (omega (arith, differ-zero b))
bit_xor_step (suc a) b = omega (
  arith,
  bit_xor-bitwise (suc a) b,
  bit_xor-bitwise (suc a / 2) (b / 2),
  differ-sum (suc a % 2) (b % 2) (bit_of (suc a)) (bit_of b),
  same_digits (λ y. y) differ (suc a / 2) (b / 2) a (suc a / 2) (omega arith) (omega arith),
)

pub bit_xor-half : (a b : ℕ) → bit_xor a b / 2 ≡ bit_xor (a / 2) (b / 2)
bit_xor-half a b = omega (arith, bit_xor_step a b)

pub bit_xor-low : (a b : ℕ) → bit_xor a b % 2 ≡ (a + b) % 2
bit_xor-low a b = omega (arith, bit_xor_step a b)
