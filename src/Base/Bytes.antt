-- ===== src/Base/Bytes.antt =====
-- Byte buffers: a write at an offset (`memcpy` into a buffer, which keeps its size), a read of a
-- range, and little-endian fields, the wire layout of the packed structs of include/sidp_defs.hpp.
use Prim.Native.Nat.{ℕ, zero, suc, ◌+◌, ◌*◌, ◌/◌, ◌%◌, ◌^◌, ◌≤◌, ◌<◌}
use mathlib.Core.Path.{◌≡◌, refl, ap}
use mathlib.Core.List.{List, [], ◌∷◌}
use native.Mathlib.Omega.{arith}
use native.Mathlib.Nat.{pow-suc}
use sidp_client.Base.Lists.{length, take, drop}

-- What does not fit the buffer is not written.
unfoldable pub store {ℓ} : {A : Type ℓ} → List A → ℕ → List A → List A
store [] off bs = []
store (x ∷ xs) zero [] = x ∷ xs
store (x ∷ xs) zero (b ∷ bs) = b ∷ store xs zero bs
store (x ∷ xs) (suc off) bs = x ∷ store xs off bs

abbrev pub slice {ℓ} : {A : Type ℓ} → List A → ℕ → ℕ → List A
slice buf off n = take n (drop off buf)

unfoldable pub le_bytes : ℕ → ℕ → List ℕ
le_bytes zero v = []
le_bytes (suc n) v = v % 256 ∷ le_bytes n (v / 256)

unfoldable pub from_le : List ℕ → ℕ
from_le [] = 0
from_le (b ∷ bs) = b + 256 * from_le bs

-- The field of `n` bytes at an offset.
abbrev pub field : List ℕ → ℕ → ℕ → ℕ
field buf off n = from_le (slice buf off n)

module _ {ℓ} {A : Type ℓ} where
  pub length-store : (xs : List A) (off : ℕ) (bs : List A) → length (store xs off bs) ≡ length xs
  unfolding store
  length-store [] off bs = refl
  length-store (x ∷ xs) zero [] = refl
  length-store (x ∷ xs) zero (b ∷ bs) = ap suc (length-store xs zero bs)
  length-store (x ∷ xs) (suc off) bs = ap suc (length-store xs off bs)

  store-nil : (xs : List A) → store xs 0 [] ≡ xs
  unfolding store
  store-nil [] = refl
  store-nil (x ∷ xs) = refl

  take-store_self :
      (xs : List A) (bs : List A) → length bs ≤ length xs → take (length bs) (store xs 0 bs) ≡ bs
  unfolding store
  take-store_self xs [] h = refl
  take-store_self [] (b ∷ bs) h = absurd (omega arith)
  take-store_self (x ∷ xs) (b ∷ bs) h = ap (λ t. b ∷ t) (take-store_self xs bs (omega arith))

  -- What was written is read back.
  pub slice-store_self :
      (xs : List A) (off : ℕ) (bs : List A)
      → off + length bs ≤ length xs
      → slice (store xs off bs) off (length bs) ≡ bs
  unfolding store
  slice-store_self xs zero bs h = take-store_self xs bs (omega arith)
  slice-store_self [] (suc off) [] h = refl
  slice-store_self [] (suc off) (b ∷ bs) h = absurd (omega arith)
  slice-store_self (x ∷ xs) (suc off) bs h = slice-store_self xs off bs (omega arith)

  pub take-store_below :
      (xs : List A) (n off : ℕ) (bs : List A) → n ≤ off → take n (store xs off bs) ≡ take n xs
  unfolding store
  take-store_below [] n off bs h = refl
  take-store_below (x ∷ xs) zero off bs h = refl
  take-store_below (x ∷ xs) (suc n) zero bs h = absurd (omega arith)
  take-store_below (x ∷ xs) (suc n) (suc off) bs h =
      ap (λ t. x ∷ t) (take-store_below xs n off bs (omega arith))

  -- A write above a range leaves the range.
  pub slice-store_below :
      (xs : List A) (i n off : ℕ) (bs : List A)
      → i + n ≤ off
      → slice (store xs off bs) i n ≡ slice xs i n
  unfolding store
  slice-store_below xs zero n off bs h = take-store_below xs n off bs (omega arith)
  slice-store_below [] (suc i) n off bs h = refl
  slice-store_below (x ∷ xs) (suc i) n zero bs h = absurd (omega arith)
  slice-store_below (x ∷ xs) (suc i) n (suc off) bs h =
      slice-store_below xs i n off bs (omega arith)

  drop-store_start :
      (xs : List A) (i : ℕ) (bs : List A) → length bs ≤ i → drop i (store xs 0 bs) ≡ drop i xs
  unfolding store
  drop-store_start [] i bs h = refl
  drop-store_start (x ∷ xs) i [] h = refl
  drop-store_start (x ∷ xs) zero (b ∷ bs) h = absurd (omega arith)
  drop-store_start (x ∷ xs) (suc i) (b ∷ bs) h = drop-store_start xs i bs (omega arith)

  pub drop-store_above :
      (xs : List A) (i off : ℕ) (bs : List A)
      → off + length bs ≤ i
      → drop i (store xs off bs) ≡ drop i xs
  unfolding store
  drop-store_above xs i zero bs h = drop-store_start xs i bs (omega arith)
  drop-store_above [] i (suc off) bs h = refl
  drop-store_above (x ∷ xs) zero (suc off) bs h = absurd (omega arith)
  drop-store_above (x ∷ xs) (suc i) (suc off) bs h = drop-store_above xs i off bs (omega arith)

  -- So does a write below it.
  pub slice-store_above :
      (xs : List A) (i n off : ℕ) (bs : List A)
      → off + length bs ≤ i
      → slice (store xs off bs) i n ≡ slice xs i n
  slice-store_above xs i n off bs h = ap (take n) (drop-store_above xs i off bs h)

  -- A range below the cut is not changed by cutting the buffer.
  pub slice-take : (xs : List A) (i n k : ℕ) → i + n ≤ k → slice (take k xs) i n ≡ slice xs i n
  slice-take xs zero zero k h = refl
  slice-take [] zero (suc n) zero h = refl
  slice-take [] zero (suc n) (suc k) h = refl
  slice-take (x ∷ xs) zero (suc n) zero h = absurd (omega arith)
  slice-take (x ∷ xs) zero (suc n) (suc k) h =
      ap (λ t. x ∷ t) (slice-take xs zero n k (omega arith))
  slice-take xs (suc i) n zero h = absurd (omega arith)
  slice-take [] (suc i) n (suc k) h = refl
  slice-take (x ∷ xs) (suc i) n (suc k) h = slice-take xs i n k (omega arith)

pub length-le_bytes : (n v : ℕ) → length (le_bytes n v) ≡ n
unfolding le_bytes
length-le_bytes zero v = refl
length-le_bytes (suc n) v = ap suc (length-le_bytes n (v / 256))

-- A little-endian field holds the value that was written into it, cut to its width.
pub from_le-le_bytes : (n v : ℕ) → v < 256 ^ n → from_le (le_bytes n v) ≡ v
unfolding le_bytes from_le
from_le-le_bytes zero v h = omega arith
from_le-le_bytes (suc n) v h =
    omega (arith, from_le-le_bytes n (v / 256) (omega (arith, pow-suc 256 n)))
