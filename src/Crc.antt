-- ===== src/Crc.antt =====
-- `crc32_hasher` of sidp_transport.cpp: the checksum of a message, by a table of 256 entries. The
-- shifts and the exclusive or stay within 32 bits, so no cast cuts anything off.
pub mod Serial
pub mod Messages
mod Tests
use sidp_client.Base.{
  ℕ, zero, suc, ◌+◌, ◌/◌, ◌%◌, ◌≡◌, refl, Bool, false, Option, none, some, List, [], ◌∷◌, ◌&&◌,
  if◌then◌else◌, leb, ◌==◌, length, take, drop, get_or, store, field, le_bytes, bit_xor,
}
use sidp_client.Defs.Limits

abbrev pub initial_value : ℕ
initial_value = 0xffff_ffff

abbrev pub xor_out : ℕ
xor_out = 0xffff_ffff

abbrev pub polynomial : ℕ
polynomial = 0xedb8_8320

-- One bit of the loop in `make_table`.
unfoldable pub table_step : ℕ → ℕ
table_step value = if value % 2 == 1 then bit_xor (value / 2) polynomial else value / 2

unfoldable pub table_bits : ℕ → ℕ → ℕ
table_bits zero value = value
table_bits (suc n) value = table_bits n (table_step value)

-- The entries from `index` on.
unfoldable pub table_from : ℕ → ℕ → List ℕ
unfolding table_bits table_step
table_from zero index = []
table_from (suc n) index = table_bits 8 index ∷ table_from n (index + 1)

unfoldable pub make_table : List ℕ
unfolding table_from
make_table = table_from 256 0

-- The loop body of `update`, over the table.
unfoldable pub update_byte : List ℕ → ℕ → ℕ → ℕ
update_byte lookup_table state byte =
    bit_xor (get_or lookup_table (bit_xor state byte % 256) 0) (state / 256)

unfoldable pub update_with : List ℕ → ℕ → List ℕ → ℕ
unfolding update_byte
update_with lookup_table state [] = state
update_with lookup_table state (byte ∷ bytes) =
    update_with lookup_table (update_byte lookup_table state byte) bytes

unfoldable pub update : ℕ → List ℕ → ℕ
unfolding make_table update_with
update state bytes = update_with make_table state bytes

unfoldable pub finalize : ℕ → ℕ
finalize state = bit_xor state xor_out

unfoldable pub calculate : List ℕ → ℕ
unfolding update finalize
calculate bytes = finalize (update initial_value bytes)

unfoldable pub is_valid_message_size : ℕ → Bool
is_valid_message_size size = leb Limits.header_size size && leb size Limits.max_frame_size

-- The checksum covers the eight header bytes before its own field, and the payload.
unfoldable pub message_crc : List ℕ → ℕ
unfolding update finalize
message_crc message =
    finalize (update (update initial_value (take 8 message)) (drop Limits.header_size message))

-- `none` is the result `false`.
unfoldable pub calculate_message : List ℕ → Option ℕ
unfolding message_crc is_valid_message_size
calculate_message message =
    if is_valid_message_size (length message) then some (message_crc message) else none

unfoldable pub set_message_crc : List ℕ → Option (List ℕ)
unfolding calculate_message
set_message_crc message = elim (calculate_message message) [
  | none ↦ none
  | some crc ↦ some (store message 8 (le_bytes 4 crc))
]

unfoldable pub verify_message_crc : List ℕ → Bool
unfolding calculate_message
verify_message_crc message = elim (calculate_message message) [
  | none ↦ false
  | some crc ↦ field message 8 4 == crc
]
