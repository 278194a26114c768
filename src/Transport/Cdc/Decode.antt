-- ===== src/Transport/Cdc/Decode.antt =====
-- The SLIP decoder of sidp_transport_cdc.cpp. `frame` holds the first `frame_size` bytes of
-- `frame_buffer`.
use sidp_client.Base.{
  ℕ, Bool, true, false, not, ◌||◌, List, [], ◌∷◌, ◌++◌, if◌then◌else◌, ◌==◌, length,
}
use sidp_client.Defs.Limits
use sidp_client.Transport.Sizes

pub record Decoder : Type 0 where
  pub frame : List ℕ
  pub frame_discarded : Bool
  pub receiving_frame : Bool
  pub escape_pending : Bool

unfoldable pub reset_frame_state : Decoder → Decoder
reset_frame_state d = record d { frame = []; frame_discarded = false; escape_pending = false }

unfoldable pub append_decoded_byte : ℕ → Decoder → Decoder
append_decoded_byte byte d =
    if length d.frame == Limits.max_frame_size
    then record d { frame_discarded = true }
    else record d { frame = d.frame ++ byte ∷ [] }

-- `consume_input_byte` at a delimiter.
unfoldable pub consume_end : Decoder → Bool × Decoder
consume_end d =
    if not d.receiving_frame
    then (false, reset_frame_state (record d { receiving_frame = true }))
    else if d.escape_pending
    then (false, reset_frame_state d)
    else if d.frame_discarded
    then (false, reset_frame_state d)
    else if length d.frame == 0
    then (false, d)
    else (true, d)

-- `consume_input_byte` after the escape marker.
unfoldable pub consume_escaped : ℕ → Decoder → Decoder
consume_escaped byte d =
    let t = record d { escape_pending = false } in
    if byte == Sizes.slip_esc_end
    then append_decoded_byte Sizes.slip_end t
    else if byte == Sizes.slip_esc_esc
    then append_decoded_byte Sizes.slip_esc t
    else record t { frame_discarded = true }

unfoldable pub consume_input_byte : ℕ → Decoder → Bool × Decoder
consume_input_byte byte d =
    if byte == Sizes.slip_end
    then consume_end d
    else if not d.receiving_frame || d.frame_discarded
    then (false, d)
    else if d.escape_pending
    then (false, consume_escaped byte d)
    else if byte == Sizes.slip_esc
    then (false, record d { escape_pending = true })
    else (false, append_decoded_byte byte d)

module _ {Q : Type 0} (deliver_packet : List ℕ → Q → Q) where
  -- A byte in the loop of `drain_cdc_input`: a complete frame is delivered.
  unfoldable pub consume_byte : ℕ → Decoder → Q → Decoder × Q
  consume_byte byte d q =
      let (complete, t) = consume_input_byte byte d in
      if complete then (reset_frame_state t, deliver_packet t.frame q) else (t, q)

  unfoldable pub consume_chunk : List ℕ → Decoder → Q → Decoder × Q
  unfolding consume_byte
  consume_chunk [] d q = (d, q)
  consume_chunk (byte ∷ rest) d q = let (t, r) = consume_byte byte d q in consume_chunk rest t r
