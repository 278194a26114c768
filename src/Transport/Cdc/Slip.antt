-- ===== src/Transport/Cdc/Slip.antt =====
-- The SLIP framing by its definition, and the decoder on what the encoder writes.
use mathlib.Core.List.{append_assoc, append-nil}
use sidp_client.Base.{
  ℕ, ◌+◌, ◌≤◌, ◌<◌, ◌≡◌, refl, sym, ◌∙◌, Bool, true, false, List, [], ◌∷◌, ◌++◌, arith, ◌==◌,
  if◌then◌else◌, length-append, length,
}
use sidp_client.Defs.Limits
use sidp_client.Transport.Cdc.Decode.{
  consume_escaped, Decoder, consume_chunk, consume_byte, append_decoded_byte, consume_input_byte,
}
use sidp_client.Transport.Cdc.Encode.{
  append_message, encode_message, append_tx_byte, append_escaped_tx_byte,
}
use sidp_client.Transport.Sizes

unfoldable pub escape : ℕ → List ℕ
escape byte =
    if byte == Sizes.slip_end
    then Sizes.slip_esc ∷ Sizes.slip_esc_end ∷ []
    else if byte == Sizes.slip_esc
    then Sizes.slip_esc ∷ Sizes.slip_esc_esc ∷ []
    else byte ∷ []

unfoldable pub escape_all : List ℕ → List ℕ
escape_all [] = []
escape_all (byte ∷ rest) = escape byte ++ escape_all rest

append_escaped-eq : (byte : ℕ) (tx : List ℕ) → append_escaped_tx_byte byte tx ≡ tx ++ escape byte
unfolding append_escaped_tx_byte append_tx_byte escape
append_escaped-eq byte tx = by_tests (byte == Sizes.slip_end) (byte == Sizes.slip_esc)
  where
    by_tests :
        (is_end is_esc : Bool)
        → (if is_end
            then (tx ++ Sizes.slip_esc ∷ []) ++ Sizes.slip_esc_end ∷ []
            else if is_esc
            then (tx ++ Sizes.slip_esc ∷ []) ++ Sizes.slip_esc_esc ∷ []
            else tx ++ byte ∷ [])
          ≡ tx
            ++ (if is_end
                then Sizes.slip_esc ∷ Sizes.slip_esc_end ∷ []
                else if is_esc
                then Sizes.slip_esc ∷ Sizes.slip_esc_esc ∷ []
                else byte ∷ [])
    by_tests true is_esc = append_assoc tx (Sizes.slip_esc ∷ []) (Sizes.slip_esc_end ∷ [])
    by_tests false true = append_assoc tx (Sizes.slip_esc ∷ []) (Sizes.slip_esc_esc ∷ [])
    by_tests false false = refl

append_message-eq : (m tx : List ℕ) → append_message m tx ≡ tx ++ escape_all m
unfolding append_message escape_all
append_message-eq [] tx = sym (append-nil tx)
append_message-eq (byte ∷ rest) tx =
    append_message-eq rest (append_escaped_tx_byte byte tx)
    ∙ rw (append_escaped-eq byte tx) (append_assoc tx (escape byte) (escape_all rest))

-- What the encoder writes into its buffer is the frame between two delimiters, every delimiter and
-- every escape marker in it escaped.
pub encode_message-eq :
    (m : List ℕ) → encode_message m ≡ Sizes.slip_end ∷ (escape_all m ++ Sizes.slip_end ∷ [])
unfolding encode_message append_tx_byte
encode_message-eq m = rw (append_message-eq m (Sizes.slip_end ∷ [])) refl

-- The decoder inside a frame that it keeps.
pub record IsReceiving (d : Decoder) : Type 0 where
  pub receiving : d.receiving_frame ≡ true
  pub kept : d.frame_discarded ≡ false
  pub plain : d.escape_pending ≡ false

abbrev pub collect : List ℕ → Decoder → Decoder
collect bytes d = record d { frame = d.frame ++ bytes }

module _ {Q : Type 0} (deliver : List ℕ → Q → Q) where
  pub consume_chunk-append :
      (a b : List ℕ) (d : Decoder) (q : Q)
      → consume_chunk deliver (a ++ b) d q
        ≡ consume_chunk deliver b (consume_chunk deliver a d q).0 (consume_chunk deliver a d q).1
  unfolding consume_chunk
  consume_chunk-append [] b d q = refl
  consume_chunk-append (byte ∷ a) b d q =
      consume_chunk-append a b (consume_byte deliver byte d q).0 (consume_byte deliver byte d q).1

  consume_chunk-escape :
      (byte : ℕ) (d : Decoder) (q : Q)
      → IsReceiving d
      → length d.frame < Limits.max_frame_size
      → consume_chunk deliver (escape byte) d q ≡ (collect (byte ∷ []) d, q)
  unfolding consume_chunk consume_byte escape consume_input_byte consume_escaped append_decoded_byte
  consume_chunk-escape byte d q ready room =
      ground (arith, ready.receiving, ready.kept, ready.plain)

  -- The decoder collects what was escaped, as long as its buffer has room.
  pub consume_chunk-escape_all :
      (m : List ℕ) (d : Decoder) (q : Q)
      → IsReceiving d
      → length d.frame + length m ≤ Limits.max_frame_size
      → consume_chunk deliver (escape_all m) d q ≡ (collect m d, q)
  unfolding escape_all consume_chunk
  consume_chunk-escape_all [] d q ready room = rw (append-nil d.frame) refl
  consume_chunk-escape_all (byte ∷ rest) d q ready room =
      consume_chunk-append (escape byte) (escape_all rest) d q
      ∙ rw (consume_chunk-escape byte d q ready (omega arith)) (
          consume_chunk-escape_all rest (collect (byte ∷ []) d) q ready_still
            (omega (arith, room, length-append {0} d.frame (byte ∷ [])))
          ∙ rw (append_assoc d.frame (byte ∷ []) rest) refl)
    where
      ready_still : IsReceiving (collect (byte ∷ []) d)
      ready_still = record { receiving = ready.receiving; kept = ready.kept; plain = ready.plain }
