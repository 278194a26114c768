-- ===== src/Transport/Cdc/Bounds.antt =====
-- The buffers of the CDC transport are long enough.
use sidp_client.Base.{ℕ, ◌*◌, ◌≤◌, ap, false, List, [], ◌∷◌, arith, length-append, length}
use sidp_client.Defs.Limits
use sidp_client.Transport.Cdc.Decode.{
  append_decoded_byte, consume_input_byte, consume_chunk, consume_end, Decoder, consume_byte,
  reset_frame_state, consume_escaped,
}
use sidp_client.Transport.Cdc.Encode.{encode_message}
use sidp_client.Transport.Cdc.Slip.{escape, encode_message-eq, escape_all}
use sidp_client.Transport.Sizes

escape_few : (byte : ℕ) → length (escape byte) ≤ 2
unfolding escape
escape_few byte = ground arith

escape_all_few : (m : List ℕ) → length (escape_all m) ≤ 2 * length m
unfolding escape_all
escape_all_few [] = omega arith
escape_all_few (byte ∷ rest) =
    omega (
      arith,
      length-append {0} (escape byte) (escape_all rest),
      escape_few byte,
      escape_all_few rest,
    )

-- The encoding of a frame that the queues accept fits in `tx_buffer`, which has
-- `MAX_ENCODED_FRAME_SIZE` bytes.
pub encode_message_bounds :
    (m : List ℕ)
    → length m ≤ Limits.max_frame_size
    → length (encode_message m) ≤ Sizes.max_encoded_frame_size
encode_message_bounds m short = omega (
  arith,
  ap (λ (l : List ℕ). length l) (encode_message-eq m),
  length-append {0} (escape_all m) (Sizes.slip_end ∷ []),
  escape_all_few m,
)

append_decoded_byte_bounds :
    (byte : ℕ) (d : Decoder)
    → length d.frame ≤ Limits.max_frame_size
    → length (append_decoded_byte byte d).frame ≤ Limits.max_frame_size
unfolding append_decoded_byte
append_decoded_byte_bounds byte d h = ground (arith, length-append {0} d.frame (byte ∷ []))

consume_input_byte_bounds :
    (byte : ℕ) (d : Decoder)
    → length d.frame ≤ Limits.max_frame_size
    → length (consume_input_byte byte d).1.frame ≤ Limits.max_frame_size
unfolding consume_input_byte consume_end consume_escaped reset_frame_state
consume_input_byte_bounds byte d h =
    let t : Decoder = record d { escape_pending = false } in
    let a = append_decoded_byte_bounds byte d h in
    let b = append_decoded_byte_bounds Sizes.slip_end t h in
    let c = append_decoded_byte_bounds Sizes.slip_esc t h in ground (arith, a, b, c)

module _ {Q : Type 0} (deliver : List ℕ → Q → Q) where
  consume_byte_bounds :
      (byte : ℕ) (d : Decoder) (q : Q)
      → length d.frame ≤ Limits.max_frame_size
      → length (consume_byte deliver byte d q).0.frame ≤ Limits.max_frame_size
  unfolding consume_byte reset_frame_state
  consume_byte_bounds byte d q h = let a = consume_input_byte_bounds byte d h in ground (arith, a)

  -- Whatever bytes arrive, the decoder never writes past `frame_buffer`, which has `MAX_FRAME_SIZE`
  -- bytes.
  pub consume_chunk_bounds :
      (bytes : List ℕ) (d : Decoder) (q : Q)
      → length d.frame ≤ Limits.max_frame_size
      → length (consume_chunk deliver bytes d q).0.frame ≤ Limits.max_frame_size
  unfolding consume_chunk
  consume_chunk_bounds [] d q h = h
  consume_chunk_bounds (byte ∷ rest) d q h =
      let t : Decoder × Q = consume_byte deliver byte d q in
      consume_chunk_bounds rest t.0 t.1 (consume_byte_bounds byte d q h)
