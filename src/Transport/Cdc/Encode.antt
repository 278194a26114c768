-- ===== src/Transport/Cdc/Encode.antt =====
-- The SLIP encoder of sidp_transport_cdc.cpp. `tx` holds the first `tx_size` bytes of `tx_buffer`.
use sidp_client.Base.{ℕ, List, [], ◌∷◌, ◌++◌, if◌then◌else◌, ◌==◌}
use sidp_client.Transport.Sizes

unfoldable pub append_tx_byte : ℕ → List ℕ → List ℕ
append_tx_byte byte tx = tx ++ byte ∷ []

unfoldable pub append_escaped_tx_byte : ℕ → List ℕ → List ℕ
unfolding append_tx_byte
append_escaped_tx_byte byte tx =
    if byte == Sizes.slip_end
    then append_tx_byte Sizes.slip_esc_end (append_tx_byte Sizes.slip_esc tx)
    else if byte == Sizes.slip_esc
    then append_tx_byte Sizes.slip_esc_esc (append_tx_byte Sizes.slip_esc tx)
    else append_tx_byte byte tx

-- The loop of `encode_message`.
unfoldable pub append_message : List ℕ → List ℕ → List ℕ
unfolding append_escaped_tx_byte
append_message [] tx = tx
append_message (byte ∷ rest) tx = append_message rest (append_escaped_tx_byte byte tx)

unfoldable pub encode_message : List ℕ → List ℕ
unfolding append_tx_byte append_message
encode_message message =
    append_tx_byte Sizes.slip_end (append_message message (append_tx_byte Sizes.slip_end []))
