-- ===== src/Crc/Messages.antt =====
-- The checksum field of a message.
use sidp_client.Base.{
  ℕ, zero, suc, ◌+◌, ◌/◌, ◌%◌, ◌^◌, ◌≤◌, ◌<◌, ◌≡◌, sym, ap, ap₂, ◌∙◌, ◌⊎◌, inl, inr, true, none,
  some, List, [], ◌∷◌, arith, get_or, bit_xor, length, take, drop, slice, store, field, from_le,
  le_bytes, length-store, length-le_bytes, from_le-le_bytes, slice-store_self, take-store_below,
  drop-store_above,
}
use sidp_client.Bits.{bit_xor-lt}
use sidp_client.Crc.{
  table_step, table_bits, table_from, make_table, update_byte, update_with, update, finalize,
  is_valid_message_size, message_crc, calculate_message, set_message_crc, verify_message_crc,
  initial_value,
}

table_step-lt : (value : ℕ) → value < 2 ^ 32 → table_step value < 2 ^ 32
unfolding table_step
table_step-lt value h =
    ground (arith, bit_xor-lt 32 (value / 2) 0xedb8_8320 (omega arith) (omega arith))

table_bits-lt : (n value : ℕ) → value < 2 ^ 32 → table_bits n value < 2 ^ 32
unfolding table_bits
table_bits-lt zero value h = h
table_bits-lt (suc n) value h = table_bits-lt n (table_step value) (table_step-lt value h)

get_or-table_from-lt :
    (n index j : ℕ) → index + n ≤ 2 ^ 32 → get_or (table_from n index) j 0 < 2 ^ 32
unfolding table_from
get_or-table_from-lt zero index j h = omega arith
get_or-table_from-lt (suc n) index zero h = table_bits-lt 8 index (omega arith)
get_or-table_from-lt (suc n) index (suc j) h = get_or-table_from-lt n (index + 1) j (omega arith)

update_with-lt :
    (state : ℕ) (bytes : List ℕ) → state < 2 ^ 32 → update_with make_table state bytes < 2 ^ 32
unfolding update_with make_table update_byte
update_with-lt state [] h = h
update_with-lt state (byte ∷ bytes) h = update_with-lt (update_byte make_table state byte) bytes (
    bit_xor-lt 32 _ (state / 256)
      (get_or-table_from-lt 256 0 (bit_xor state byte % 256) (omega arith)) (omega arith))

pub message_crc-lt : (message : List ℕ) → message_crc message < 2 ^ 32
unfolding message_crc update finalize
message_crc-lt message =
    bit_xor-lt 32 _ 0xffff_ffff
      (update_with-lt (update initial_value (take 8 message)) (drop 12 message)
        (update_with-lt initial_value (take 8 message) (omega arith)))
      (omega arith)

-- The checksum does not depend on its own field.
message_crc-store :
    (message : List ℕ) (crc : ℕ)
    → message_crc (store message 8 (le_bytes 4 crc)) ≡ message_crc message
unfolding message_crc
message_crc-store message crc =
    ap₂ (λ head tail. finalize (update (update initial_value head) tail))
      (take-store_below message 8 8 (le_bytes 4 crc) (omega arith))
      (drop-store_above message 12 8 (le_bytes 4 crc) (omega (arith, length-le_bytes 4 crc)))

-- The two outcomes of `set_message_crc`.
pub set_message_crc_cases :
    (message : List ℕ)
    → ((is_valid_message_size (length message) ≡ true)
        × (set_message_crc message ≡ some (store message 8 (le_bytes 4 (message_crc message)))))
      ⊎ (set_message_crc message ≡ none)
unfolding set_message_crc calculate_message
set_message_crc_cases message = ground arith

valid_size : (n : ℕ) → is_valid_message_size n ≡ true → (12 ≤ n) × (n ≤ 8192)
unfolding is_valid_message_size
valid_size n h = ground arith

verify_of_parts :
    (message : List ℕ)
    → is_valid_message_size (length message) ≡ true
    → field message 8 4 ≡ message_crc message
    → verify_message_crc message ≡ true
unfolding verify_message_crc calculate_message
verify_of_parts message h e = ground arith

verify-store :
    (message : List ℕ)
    → is_valid_message_size (length message) ≡ true
    → verify_message_crc (store message 8 (le_bytes 4 (message_crc message))) ≡ true
verify-store message h =
    verify_of_parts (store message 8 (le_bytes 4 (message_crc message)))
      (ap is_valid_message_size (length-store message 8 (le_bytes 4 (message_crc message))) ∙ h)
      (stored ∙ sym (message_crc-store message (message_crc message)))
  where
    crc : ℕ
    crc = message_crc message

    fits : 8 + length (le_bytes 4 crc) ≤ length message
    fits = omega (arith, valid_size (length message) h, length-le_bytes 4 crc)

    stored : field (store message 8 (le_bytes 4 crc)) 8 4 ≡ crc
    stored =
        ap (λ n. from_le (slice (store message 8 (le_bytes 4 crc)) 8 n))
          (sym (length-le_bytes 4 crc))
        ∙ ap from_le (slice-store_self message 8 (le_bytes 4 crc) fits)
        ∙ from_le-le_bytes 4 crc (message_crc-lt message)

-- A message that `set_message_crc` has filled in passes `verify_message_crc`, and keeps its length.
pub verify-set :
    (message : List ℕ) {filled : List ℕ}
    → set_message_crc message ≡ some filled
    → (verify_message_crc filled ≡ true) × (length filled ≡ length message)
verify-set message h = elim (set_message_crc_cases message) [
  | inl (valid, e) ↦
      ground (
        arith,
        verify-store message valid,
        length-store message 8 (le_bytes 4 (message_crc message)),
      )
  | inr e ↦ absurd (cc)
]
