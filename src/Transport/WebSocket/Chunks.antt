-- ===== src/Transport/WebSocket/Chunks.antt =====
-- The chunks of a message, and what stands between them.
use sidp_client.Base.{◌==◌}
use sidp_client.Base.{
  ℕ, ◌+◌, ◌≤◌, ◌<◌, ◌≡◌, refl, sym, ap, subst, ◌∙◌, Bool, true, false, ◌||◌, List, [], ◌∷◌, ◌++◌,
  arith, length, take,
}
use sidp_client.Transport.Port.{Line, Port}
use sidp_client.Transport.Queue.{is_open}
use sidp_client.Transport.State.{Queue}
use sidp_client.Transport.WebSocket.Fragments.{AllIgnored, piece_event}
use sidp_client.Transport.WebSocket.Reassembly.{
  ignored_lem, handle_data-next, handle_events, start_frame, ignored-Stages, handle_data-start,
  start_frame-Stages,
}
use sidp_client.Transport.WebSocket.Receive.{
  starts_message, chunk_of, handle_data, is_data, completes_message, is_malformed, exceeds_frame,
}
use sidp_client.Transport.WebSocket.Staging.{Becomes, stage_event-Becomes, IsChunk, Stages}
use sidp_client.Transport.WebSocket.State.{Websocket, opcode_binary, opcode_cont, EventData}

take_all : (bytes : List ℕ) → take (length bytes) bytes ≡ bytes
take_all [] = refl
take_all (byte ∷ rest) = ap (λ (l : List ℕ). byte ∷ l) (take_all rest)

abbrev pub is_data_code : ℕ → Bool
is_data_code op_code = op_code == opcode_binary || op_code == opcode_cont

module _ (op_code : ℕ) (code : is_data_code op_code ≡ true) (fin : Bool) (len offset : ℕ)
    (bytes : List ℕ) where
  abbrev pub whole_event : EventData
  whole_event = piece_event op_code fin len offset bytes

  pub piece_event-IsChunk : offset + length bytes ≤ len → IsChunk whole_event bytes
  unfolding is_malformed is_data exceeds_frame chunk_of
  piece_event-IsChunk inside = record {
    sound = ground arith;
    carries = ground (arith, code);
    inside = ground arith;
    bytes = take_all bytes;
  }

  pub completes_last : offset + length bytes ≡ len → completes_message whole_event ≡ fin
  unfolding completes_message
  completes_last h = ground arith

  pub completes_inner : offset + length bytes < len → completes_message whole_event ≡ false
  unfolding completes_message
  completes_inner h = ground arith

module _ {R E : Type 0} (port : Port R E) (line : Line E) (q : Queue R E)
    (opened : is_open line q ≡ true) where
  pub noise_staged :
      (es : List EventData) (s : List ℕ) (w : Websocket R E)
      → AllIgnored es
      → Stages port line q s w
      → handle_events port line es w ≡ w
  unfolding handle_events
  noise_staged [] s w quiet h = refl
  noise_staged (e ∷ es) s w (i, quiet) h =
      ap (handle_events port line es) (ignored-Stages port line q opened e s w i h)
      ∙ noise_staged es s w quiet h

  pub noise_before :
      (es : List EventData) (w : Websocket R E)
      → AllIgnored es
      → w.queue ≡ q
      → (handle_events port line es w).queue ≡ q
  unfolding handle_events
  noise_before [] w quiet h = h
  noise_before (e ∷ es) w (i, quiet) h =
      noise_before es (handle_data port line e w) quiet (ignored_lem port line q opened e w i h)

  -- A chunk that does not start a message.
  pub chunk_next :
      (e : EventData) (completes : Bool) (s c : List ℕ) (w : Websocket R E)
      → IsChunk e c
      → starts_message e ≡ false
      → completes_message e ≡ completes
      → Stages port line q s w
      → Becomes port line q completes (s ++ c) (handle_data port line e w)
  chunk_next e completes s c w chunk start full h =
      subst (λ x. Becomes port line q x (s ++ c) (handle_data port line e w)) full
        (subst (λ x. Becomes port line q (completes_message e) (s ++ c) x)
          (sym (handle_data-next port line q opened e s c w chunk start h))
          (stage_event-Becomes port line q e s c w chunk h))

  pub chunk_first :
      (e : EventData) (completes : Bool) (c : List ℕ) (w : Websocket R E)
      → IsChunk e c
      → starts_message e ≡ true
      → completes_message e ≡ completes
      → w.queue ≡ q
      → Becomes port line q completes c (handle_data port line e w)
  chunk_first e completes c w chunk start full h =
      subst (λ x. Becomes port line q x c (handle_data port line e w)) full
        (subst (λ x. Becomes port line q (completes_message e) c x)
          (sym (handle_data-start port line q opened e c w chunk start h))
          (stage_event-Becomes port line q e [] c (start_frame port line q opened w) chunk
            (start_frame-Stages port line q opened w h)))
