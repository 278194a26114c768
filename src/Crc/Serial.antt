-- ===== src/Crc/Serial.antt =====
-- The table of `crc32_hasher` against the shift register of CRC-32/ISO-HDLC, which takes in one bit
-- of the message at a time, the lowest of each byte first.
use sidp_client.Base.{
  ℕ, zero, suc, ◌+◌, ◌*◌, ◌/◌, ◌%◌, ◌^◌, ◌<◌, ◌≡◌, refl, sym, ap, ap₂, ◌∙◌, ◌⊎◌, inl, inr, List, [],
  ◌∷◌, arith, get_or, bit_xor,
}
use native.Mathlib.Nat.{pow-suc}
use sidp_client.Bits.{
  bit_xor-half, bit_xor-low, bit_xor_regroup, bit_xor_comm, bit_xor_assoc, bit_xor-zero,
  zero-bit_xor, bit_xor_self, bit_xor_fields,
}
use sidp_client.Crc.{
  polynomial, table_step, table_bits, table_from, make_table, update_byte, update_with, update,
}

-- One bit: the bit shifted out of the register, with the message's, decides on the polynomial.
abbrev pub feedback : ℕ → ℕ
feedback bit = bit % 2 * polynomial

pub shift_in : ℕ → ℕ → ℕ
shift_in state bit = bit_xor (state / 2) (feedback (state + bit))

-- The lowest `count` bits of a number.
pub shift_bits : ℕ → ℕ → ℕ → ℕ
shift_bits zero state bits = state
shift_bits (suc count) state bits = shift_bits count (shift_in state (bits % 2)) (bits / 2)

pub register : ℕ → List ℕ → ℕ
register state [] = state
register state (byte ∷ bytes) = register (shift_bits 8 state byte) bytes

abbrev pub IsByte : ℕ → Type 0
IsByte b = b < 256

abbrev pub AllBytes : List ℕ → Type 0
AllBytes [] = Unit
AllBytes (b ∷ bytes) = IsByte b × AllBytes bytes

table_step_lem : (value : ℕ) → table_step value ≡ bit_xor (value / 2) (feedback value)
unfolding table_step
table_step_lem value = elim (cases value) [
  | inl e ↦ ground (arith, bit_xor-zero (value / 2))
  | inr e ↦ ground arith
]
  where
    cases : (n : ℕ) → (n % 2 ≡ 0) ⊎ (n % 2 ≡ 1)
    cases n = omega arith

feedback-sum : (a b : ℕ) → feedback (bit_xor a b) ≡ bit_xor (feedback a) (feedback b)
feedback-sum a b = elim (parities a b) [
  | inl p ↦
      rw (bit_xor-low a b) (ground (arith, zero-bit_xor (feedback b), bit_xor-zero (feedback a)))
  | inr p ↦ rw (bit_xor-low a b) (ground (arith, bit_xor_self polynomial polynomial))
]
  where
    parities : (a b : ℕ) → ((a % 2 ≡ 0) ⊎ (b % 2 ≡ 0)) ⊎ ((a % 2 ≡ 1) × (b % 2 ≡ 1))
    parities a b = ground arith

-- The division of the table's entries is linear.
table_step-bit_xor : (a b : ℕ) → table_step (bit_xor a b) ≡ bit_xor (table_step a) (table_step b)
table_step-bit_xor a b =
    table_step_lem (bit_xor a b)
    ∙ ap₂ bit_xor (bit_xor-half a b) (feedback-sum a b)
    ∙ bit_xor_regroup (a / 2) (b / 2) (feedback a) (feedback b)
    ∙ ap₂ bit_xor (sym (table_step_lem a)) (sym (table_step_lem b))

table_bits-bit_xor :
    (n a b : ℕ) → table_bits n (bit_xor a b) ≡ bit_xor (table_bits n a) (table_bits n b)
unfolding table_bits
table_bits-bit_xor zero a b = refl
table_bits-bit_xor (suc n) a b =
    ap (table_bits n) (table_step-bit_xor a b) ∙ table_bits-bit_xor n (table_step a) (table_step b)

double_shift : (q n : ℕ) → q * 2 ^ suc n ≡ 2 * (q * 2 ^ n)
double_shift q n = omega (arith, ap (λ (t : ℕ). q * t) (pow-suc 2 n))

-- Zeroes are only shifted out.
table_bits-shift : (n q : ℕ) → table_bits n (q * 2 ^ n) ≡ q
unfolding table_bits
table_bits-shift zero q = omega arith
table_bits-shift (suc n) q = ap (table_bits n) halved ∙ table_bits-shift n q
  where
    halved : table_step (q * 2 ^ suc n) ≡ q * 2 ^ n
    halved =
        let even : q * 2 ^ suc n % 2 ≡ 0 = omega (arith, double_shift q n) in
        let half : q * 2 ^ suc n / 2 ≡ q * 2 ^ n = omega (arith, double_shift q n) in
        table_step_lem (q * 2 ^ suc n)
        ∙ ap₂ bit_xor half (ap (λ (t : ℕ). t * polynomial) even)
        ∙ bit_xor-zero (q * 2 ^ n)

-- So the register needs the table at its lowest byte only.
table_bits_split : (x : ℕ) → table_bits 8 x ≡ bit_xor (table_bits 8 (x % 256)) (x / 256)
table_bits_split x =
    ap (table_bits 8) parts
    ∙ table_bits-bit_xor 8 (x / 256 * 2 ^ 8) (x % 256)
    ∙ ap (λ t. bit_xor t (table_bits 8 (x % 256))) (table_bits-shift 8 (x / 256))
    ∙ bit_xor_comm (x / 256) (table_bits 8 (x % 256))
  where
    parts : x ≡ bit_xor (x / 256 * 2 ^ 8) (x % 256)
    parts = omega (arith, bit_xor_fields 8 (x / 256) (x % 256) (omega arith))

-- Taking the bits in one at a time is adding them first.
shift_bits-eq-table_bits :
    (n state bits : ℕ) → bits < 2 ^ n → shift_bits n state bits ≡ table_bits n (bit_xor state bits)
unfolding shift_bits table_bits shift_in
shift_bits-eq-table_bits zero state zero h = sym (bit_xor-zero state)
shift_bits-eq-table_bits zero state (suc bits) h = absurd (omega arith)
shift_bits-eq-table_bits (suc n) state bits h =
    shift_bits-eq-table_bits n (shift_in state (bits % 2)) (bits / 2) (omega (arith, pow-suc 2 n))
    ∙ ap (table_bits n) (sym step)
  where
    parity : (state + bits) % 2 ≡ (state + bits % 2) % 2
    parity = omega arith

    swap_last : (a b c : ℕ) → bit_xor (bit_xor a b) c ≡ bit_xor (bit_xor a c) b
    swap_last a b c =
        bit_xor_assoc a b c ∙ ap (bit_xor a) (bit_xor_comm b c) ∙ sym (bit_xor_assoc a c b)

    step : table_step (bit_xor state bits) ≡ bit_xor (shift_in state (bits % 2)) (bits / 2)
    step =
        table_step_lem (bit_xor state bits)
        ∙ ap₂ bit_xor (bit_xor-half state bits)
            (ap (λ (t : ℕ). t * polynomial) (bit_xor-low state bits ∙ parity))
        ∙ swap_last (state / 2) (bits / 2) (feedback (state + bits % 2))

get_or-table_from :
    (n index j : ℕ) → j < n → get_or (table_from n index) j 0 ≡ table_bits 8 (index + j)
unfolding table_from
get_or-table_from zero index j h = absurd (omega arith)
get_or-table_from (suc n) index zero h = ap (table_bits 8) (omega arith)
get_or-table_from (suc n) index (suc j) h =
    get_or-table_from n (index + 1) j (omega arith) ∙ ap (table_bits 8) (omega arith)

-- The quotient by a byte of an exclusive or with a byte.
bit_xor-byte : (state byte : ℕ) → IsByte byte → bit_xor state byte / 256 ≡ state / 256
bit_xor-byte state byte h =
    eight_halves (bit_xor state byte)
    ∙ halved
    ∙ ap (bit_xor (state / 2 / 2 / 2 / 2 / 2 / 2 / 2 / 2)) small
    ∙ bit_xor-zero (state / 2 / 2 / 2 / 2 / 2 / 2 / 2 / 2)
    ∙ sym (eight_halves state)
  where
    eight_halves : (x : ℕ) → x / 256 ≡ x / 2 / 2 / 2 / 2 / 2 / 2 / 2 / 2
    eight_halves x = omega arith

    small : byte / 2 / 2 / 2 / 2 / 2 / 2 / 2 / 2 ≡ 0
    small = omega arith

    halved :
        bit_xor state byte / 2 / 2 / 2 / 2 / 2 / 2 / 2 / 2
        ≡ bit_xor (state / 2 / 2 / 2 / 2 / 2 / 2 / 2 / 2) (byte / 2 / 2 / 2 / 2 / 2 / 2 / 2 / 2)
    halved = simp bit_xor-half

pub update_byte-eq-shift_bits :
    (state byte : ℕ) → IsByte byte → update_byte make_table state byte ≡ shift_bits 8 state byte
unfolding update_byte make_table
update_byte-eq-shift_bits state byte h =
    ap (bit_xor (get_or make_table (mixed % 256) 0)) (sym (bit_xor-byte state byte h))
    ∙ ap (λ t. bit_xor t (mixed / 256)) entry
    ∙ sym (table_bits_split mixed)
    ∙ sym (shift_bits-eq-table_bits 8 state byte h)
  where
    mixed : ℕ
    mixed = bit_xor state byte

    entry : get_or make_table (mixed % 256) 0 ≡ table_bits 8 (mixed % 256)
    entry = get_or-table_from 256 0 (mixed % 256) (omega arith) ∙ ap (table_bits 8) (omega arith)

update_with-eq-register :
    (state : ℕ) (bytes : List ℕ)
    → AllBytes bytes
    → update_with make_table state bytes ≡ register state bytes
unfolding update_with register
update_with-eq-register state [] h = refl
update_with-eq-register state (byte ∷ bytes) h =
    ap (λ t. update_with make_table t bytes) (update_byte-eq-shift_bits state byte h.0)
    ∙ update_with-eq-register (shift_bits 8 state byte) bytes h.1

-- `update` over the table of 256 entries is the shift register that takes in the bytes bit by bit,
-- from any state and for any bytes.
pub update-eq-register :
    (state : ℕ) (bytes : List ℕ) → AllBytes bytes → update state bytes ≡ register state bytes
unfolding update
update-eq-register state bytes h = update_with-eq-register state bytes h
