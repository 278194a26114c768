-- ===== src/Transport/Cdc/Resync.antt =====
-- What the decoder delivers when it reads encoded messages, from any state it may be in.
-- The decoder after a delimiter.
use sidp_client.Base.{
  ℕ, ◌≤◌, ◌<◌, ◌≡◌, refl, ap, ◌∙◌, Bool, true, false, not, ◌&&◌, List, [], ◌∷◌, ◌++◌, arith,
  if◌then◌else◌, ltb, length,
}
use sidp_client.Defs.Limits
use sidp_client.Transport.Cdc.Decode.{
  Decoder, consume_chunk, consume_end, consume_input_byte, consume_byte, reset_frame_state,
}
use sidp_client.Transport.Cdc.Encode.{encode_message}
use sidp_client.Transport.Cdc.Slip.{
  consume_chunk-escape_all, consume_chunk-append, encode_message-eq, collect, escape_all,
  IsReceiving,
}
use sidp_client.Transport.Sizes

abbrev pub opened : Decoder
opened = record {
  frame = [];
  frame_discarded = false;
  receiving_frame = true;
  escape_pending = false;
}

-- A delimiter now would complete a frame.
abbrev pub completes_frame : Decoder → Bool
completes_frame d =
    d.receiving_frame && (not d.escape_pending && (not d.frame_discarded && ltb 0 (length d.frame)))

unfoldable pub encode_all : List (List ℕ) → List ℕ
encode_all [] = []
encode_all (m ∷ ms) = encode_message m ++ encode_all ms

-- A message that fits in a frame.
abbrev pub FitsFrame : List ℕ → Type 0
FitsFrame m = 0 < length m × length m ≤ Limits.max_frame_size

abbrev pub AllFitFrame : List (List ℕ) → Type 0
AllFitFrame [] = Unit {0}
AllFitFrame (m ∷ ms) = FitsFrame m × AllFitFrame ms

module _ {Q : Type 0} (deliver : List ℕ → Q → Q) where
  abbrev pub deliver_all : List (List ℕ) → Q → Q
  deliver_all [] q = q
  deliver_all (m ∷ ms) q = deliver_all ms (deliver m q)

  -- A frame that was interrupted is delivered, if it looks complete.
  abbrev pub interrupted : Decoder → Q → Q
  interrupted d q = if completes_frame d then deliver d.frame q else q

  consume_byte-end :
      (d : Decoder) (q : Q) → consume_byte deliver Sizes.slip_end d q ≡ (opened, interrupted d q)
  unfolding consume_byte consume_input_byte consume_end reset_frame_state
  consume_byte-end d q = ground arith

  completes_collected : (m : List ℕ) → 0 < length m → ltb 0 (length m) ≡ true
  completes_collected m h = ground arith

  -- Whatever the decoder had read before, one encoded message is delivered as it was sent.
  consume_chunk-encode_message :
      (m : List ℕ) (d : Decoder) (q : Q)
      → FitsFrame m
      → consume_chunk deliver (encode_message m) d q ≡ (opened, deliver m (interrupted d q))
  unfolding consume_chunk
  consume_chunk-encode_message m d q (some_byte, short) =
      let ready : IsReceiving opened = record { receiving = refl; kept = refl; plain = refl } in
      let tail : List ℕ = escape_all m ++ Sizes.slip_end ∷ [] in
      let r : Q = interrupted d q in
      ap (λ (bytes : List ℕ). consume_chunk deliver bytes d q) (encode_message-eq m)
      ∙ ap (λ (t : Decoder × Q). consume_chunk deliver tail t.0 t.1) (consume_byte-end d q)
      ∙ consume_chunk-append deliver (escape_all m) (Sizes.slip_end ∷ []) opened r
      ∙ ap (λ (t : Decoder × Q). consume_byte deliver Sizes.slip_end t.0 t.1)
          (consume_chunk-escape_all deliver m opened r ready (omega arith))
      ∙ consume_byte-end (collect m opened) r
      ∙ rw (completes_collected m some_byte) refl

  opened_idle :
      (ms : List (List ℕ)) (q : Q)
      → AllFitFrame ms
      → consume_chunk deliver (encode_all ms) opened q ≡ (opened, deliver_all ms q)
  unfolding encode_all consume_chunk
  opened_idle [] q fit = refl
  opened_idle (m ∷ ms) q (fit, rest) =
      consume_chunk-append deliver (encode_message m) (encode_all ms) opened q
      ∙ ap (λ (t : Decoder × Q). consume_chunk deliver (encode_all ms) t.0 t.1)
          (consume_chunk-encode_message m opened q fit)
      ∙ opened_idle ms (deliver m q) rest

  -- Messages that are encoded one after the other are delivered one after the other, byte for byte,
  -- each once. The decoder may start in any state, in the middle of an escape, of a frame or of a
  -- discarded frame: then at most what it had collected is delivered before them.
  pub consume_chunk-encode_all :
      (m : List ℕ) (ms : List (List ℕ)) (d : Decoder) (q : Q)
      → FitsFrame m
      → AllFitFrame ms
      → consume_chunk deliver (encode_all (m ∷ ms)) d q
        ≡ (opened, deliver_all (m ∷ ms) (interrupted d q))
  unfolding encode_all consume_chunk
  consume_chunk-encode_all m ms d q fit rest =
      consume_chunk-append deliver (encode_message m) (encode_all ms) d q
      ∙ ap (λ (t : Decoder × Q). consume_chunk deliver (encode_all ms) t.0 t.1)
          (consume_chunk-encode_message m d q fit)
      ∙ opened_idle ms (deliver m (interrupted d q)) rest
