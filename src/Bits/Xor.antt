-- ===== src/Bits/Xor.antt =====
-- The algebra of `bit_xor`, by induction on a bound of the numbers.
use Prim.Native.Nat.{ℕ, zero, suc, ◌+◌, ◌*◌, ◌/◌, ◌%◌, ◌^◌, ◌≤◌, ◌<◌, bit_xor, bit_xor-bitwise}
use mathlib.Core.Path.{◌≡◌, refl, sym, ap, ◌∙◌}
use native.Mathlib.Nat.{pow-suc}
use native.Mathlib.Omega.{arith}
use sidp_client.Bits.Step.{bit_xor_step, bit_xor-half, bit_xor-low}

pub zero-bit_xor : (b : ℕ) → bit_xor 0 b ≡ b
zero-bit_xor b = bit_xor-bitwise 0 b

-- Two numbers are equal if their halves and their lowest digits are.
eq_of_half : (a b : ℕ) → a / 2 ≡ b / 2 → a % 2 ≡ b % 2 → a ≡ b
eq_of_half a b p q = omega arith

comm_below : (n a b : ℕ) → a ≤ n → b ≤ n → bit_xor a b ≡ bit_xor b a
comm_below zero zero zero p q = refl
comm_below zero (suc a) b p q = absurd (omega arith)
comm_below zero zero (suc b) p q = absurd (omega arith)
comm_below (suc n) a b p q = omega (
  arith,
  bit_xor_step a b,
  bit_xor_step b a,
  comm_below n (a / 2) (b / 2) (omega arith) (omega arith),
)

pub bit_xor_comm : (a b : ℕ) → bit_xor a b ≡ bit_xor b a
bit_xor_comm a b = comm_below (a + b) a b (omega arith) (omega arith)

pub bit_xor-zero : (a : ℕ) → bit_xor a 0 ≡ a
bit_xor-zero a = bit_xor_comm a 0 ∙ zero-bit_xor a

assoc_below : (n a b c : ℕ) → a ≤ n → bit_xor (bit_xor a b) c ≡ bit_xor a (bit_xor b c)
assoc_below n zero b c h = ap (λ t. bit_xor t c) (zero-bit_xor b) ∙ sym (zero-bit_xor (bit_xor b c))
assoc_below zero (suc a) b c h = absurd (omega arith)
assoc_below (suc n) (suc a) b c h =
    eq_of_half _ _
      (bit_xor-half (bit_xor (suc a) b) c
        ∙ ap (λ t. bit_xor t (c / 2)) (bit_xor-half (suc a) b)
        ∙ assoc_below n (suc a / 2) (b / 2) (c / 2) (omega arith)
        ∙ ap (bit_xor (suc a / 2)) (sym (bit_xor-half b c))
        ∙ sym (bit_xor-half (suc a) (bit_xor b c)))
      (omega (
        arith,
        bit_xor-low (bit_xor (suc a) b) c,
        bit_xor-low (suc a) b,
        bit_xor-low (suc a) (bit_xor b c),
        bit_xor-low b c,
      ))

pub bit_xor_assoc : (a b c : ℕ) → bit_xor (bit_xor a b) c ≡ bit_xor a (bit_xor b c)
bit_xor_assoc a b c = assoc_below a a b c (omega arith)

-- The four terms of two sums, regrouped.
pub bit_xor_regroup :
    (a b c d : ℕ) → bit_xor (bit_xor a b) (bit_xor c d) ≡ bit_xor (bit_xor a c) (bit_xor b d)
bit_xor_regroup a b c d =
    bit_xor_assoc a b (bit_xor c d)
    ∙ ap (bit_xor a)
        (sym (bit_xor_assoc b c d) ∙ ap (λ t. bit_xor t d) (bit_xor_comm b c) ∙ bit_xor_assoc c b d)
    ∙ sym (bit_xor_assoc a c (bit_xor b d))

pub bit_xor_self : (n a : ℕ) → a ≤ n → bit_xor a a ≡ 0
bit_xor_self n zero h = zero-bit_xor 0
bit_xor_self zero (suc a) h = absurd (omega arith)
bit_xor_self (suc n) (suc a) h =
    omega (arith, bit_xor_step (suc a) (suc a), bit_xor_self n (suc a / 2) (omega arith))

-- A width that holds both numbers holds their exclusive or.
pub bit_xor-lt : (k a b : ℕ) → a < 2 ^ k → b < 2 ^ k → bit_xor a b < 2 ^ k
bit_xor-lt zero zero zero p q = omega (arith, zero-bit_xor 0)
bit_xor-lt zero (suc a) b p q = absurd (omega arith)
bit_xor-lt zero zero (suc b) p q = absurd (omega arith)
bit_xor-lt (suc k) a b p q = omega (
  arith,
  bit_xor_step a b,
  pow-suc 2 k,
  bit_xor-lt k (a / 2) (b / 2) (omega (arith, pow-suc 2 k)) (omega (arith, pow-suc 2 k)),
)

double_shift : (q k : ℕ) → q * 2 ^ suc k ≡ 2 * (q * 2 ^ k)
double_shift q k = omega (arith, ap (λ (t : ℕ). q * t) (pow-suc 2 k))

-- Numbers in separate digits add up.
pub bit_xor_fields : (k q r : ℕ) → r < 2 ^ k → bit_xor (q * 2 ^ k) r ≡ q * 2 ^ k + r
bit_xor_fields zero q zero h = omega (arith, bit_xor-zero (q * 1))
bit_xor_fields zero q (suc r) h = absurd (omega arith)
bit_xor_fields (suc k) q r h =
    let halved : q * 2 ^ suc k / 2 ≡ q * 2 ^ k = omega (arith, double_shift q k) in
    let fits : r / 2 < 2 ^ k = omega (arith, pow-suc 2 k) in
    omega (
      arith,
      double_shift q k,
      bit_xor_step (q * 2 ^ suc k) r,
      ap (λ t. bit_xor t (r / 2)) halved,
      bit_xor_fields k q (r / 2) fits,
    )
