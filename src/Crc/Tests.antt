-- ===== src/Crc/Tests.antt =====
-- Runs of the checksum.
use sidp_client.Base.{ℕ, ◌≡◌, refl, true, some, List, [], ◌∷◌, arith, length, le_bytes, store}
use sidp_client.Crc.{
  calculate, message_crc, set_message_crc, calculate_message, verify_message_crc, update,
}
use sidp_client.Crc.Messages.{verify-set}
use sidp_client.Crc.Serial.{register, update-eq-register, AllBytes}

-- The check value of CRC-32/ISO-HDLC.
check_value :
    calculate (b'1' ∷ b'2' ∷ b'3' ∷ b'4' ∷ b'5' ∷ b'6' ∷ b'7' ∷ b'8' ∷ b'9' ∷ []) ≡ 0xcbf4_3926
unfolding calculate
check_value = refl

abbrev digits : List ℕ
digits = 0x31 ∷ 0x32 ∷ 0x33 ∷ []

digits_bytes : AllBytes digits
digits_bytes = ground arith

update-eq-register_example : update 0xffff_ffff digits ≡ register 0xffff_ffff digits
update-eq-register_example = update-eq-register 0xffff_ffff digits digits_bytes

abbrev header : List ℕ
header = 1 ∷ 2 ∷ 3 ∷ 0 ∷ 7 ∷ 0 ∷ 0 ∷ 0 ∷ 0 ∷ 0 ∷ 0 ∷ 0 ∷ []

abbrev header_filled : List ℕ
header_filled = store header 8 (le_bytes 4 (message_crc header))

header_filled_set : set_message_crc header ≡ some header_filled
unfolding set_message_crc calculate_message
header_filled_set = refl

verify-set_example :
    (verify_message_crc header_filled ≡ true) × (length header_filled ≡ length header)
verify-set_example = verify-set header header_filled_set
