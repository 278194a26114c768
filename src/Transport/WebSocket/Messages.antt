-- ===== src/Transport/WebSocket/Messages.antt =====
-- Messages in any fragments are put together again.
use sidp_client.Base.{◌==◌}
use mathlib.Core.List.{append_assoc, append-nil}
use sidp_client.Base.{
  ℕ, ◌+◌, ◌≤◌, ◌≡◌, refl, sym, ap, ◌∙◌, Bool, true, false, ◌&&◌, List, [], ◌∷◌, ◌++◌, arith, length,
  length-append,
}
use sidp_client.Transport.Port.{Port, Line}
use sidp_client.Transport.Queue.{is_open}
use sidp_client.Transport.State.{Queue}
use sidp_client.Transport.WebSocket.Chunks.{
  piece_event-IsChunk, noise_staged, completes_inner, chunk_next, is_data_code, chunk_first,
  completes_last, noise_before,
}
use sidp_client.Transport.WebSocket.Fragments.{
  piece_event, AllFull, rest_total, Piece, AllWhole, rest_events, total, IsWhole, AllIgnored,
  frame_events, message_events,
}
use sidp_client.Transport.WebSocket.Reassembly.{handle_events, handle_events-append}
use sidp_client.Transport.WebSocket.Receive.{starts_message, handle_data, completes_message}
use sidp_client.Transport.WebSocket.Staging.{Becomes, Done, Stages}
use sidp_client.Transport.WebSocket.State.{Websocket, opcode_binary, EventData, opcode_cont}

IsWhole-rest : (p : Piece) (ps : List Piece) → AllFull (p ∷ ps) → IsWhole (p ∷ ps)
IsWhole-rest p [] (b, i, r) = i
IsWhole-rest p (p2 ∷ ps) f = f

module _ {R E : Type 0} (port : Port R E) (line : Line E) (q : Queue R E)
    (opened : is_open line q ≡ true) where
  -- A piece that does not start a message, after the events before it.
  piece_next :
      (op_code : ℕ) (fin : Bool) (len offset : ℕ) (piece : Piece) (completes : Bool) (s : List ℕ)
      (w : Websocket R E)
      → is_data_code op_code ≡ true
      → (offset == 0 && op_code == opcode_binary) ≡ false
      → offset + length piece.bytes ≤ len
      → completes_message (piece_event op_code fin len offset piece.bytes) ≡ completes
      → AllIgnored piece.before
      → Stages port line q s w
      → (es : List EventData)
      → (t : Websocket R E) × (handle_events port line
            (piece.before ++ piece_event op_code fin len offset piece.bytes ∷ es)
            w
          ≡ handle_events port line es t)
        × Becomes port line q completes (s ++ piece.bytes) t
  unfolding handle_events starts_message
  piece_next op_code fin len offset piece completes s w code start inside full quiet h es =
      let e : EventData = piece_event op_code fin len offset piece.bytes in
      (
        handle_data port line e w,
        handle_events-append port line piece.before (e ∷ es) w
            ∙ ap (handle_events port line (e ∷ es))
                (noise_staged port line q opened piece.before s w quiet h),
        chunk_next port line q opened e completes s piece.bytes w
            (piece_event-IsChunk op_code code fin len offset piece.bytes inside) start full h,
      )

  -- The pieces of a frame from one on that does not start a message.
  frame_next :
      (op_code : ℕ) (fin : Bool) (len offset : ℕ) (piece : Piece) (rest : List Piece) (s : List ℕ)
      (w : Websocket R E)
      → is_data_code op_code ≡ true
      → (offset == 0 && op_code == opcode_binary) ≡ false
      → offset + length (total (piece ∷ rest)) ≡ len
      → IsWhole (piece ∷ rest)
      → Stages port line q s w
      → Becomes port line q fin
          (s ++ total (piece ∷ rest))
          (handle_events port line (frame_events op_code fin len offset (piece ∷ rest)) w)
  unfolding frame_events handle_events
  frame_next op_code fin len offset piece [] s w code start size whole h =
      let all : length (piece.bytes ++ []) ≡ length piece.bytes =
        ap (λ (l : List ℕ). length l) (append-nil piece.bytes) in
      let full =
        completes_last op_code code fin len offset piece.bytes (omega (arith, size, all)) in
      let (t, e, b) =
        piece_next op_code fin len offset piece fin s w code start (omega (arith, size, all)) full
          whole h [] in
      rw (e, append-nil piece.bytes) b
  frame_next op_code fin len offset piece (more ∷ rest) s w code start size
        (some_bytes, quiet, after) h =
      let split = length-append {0} piece.bytes (total (more ∷ rest)) in
      let split_more = length-append {0} more.bytes (total rest) in
      let full =
        completes_inner op_code code fin len offset piece.bytes
          (omega (arith, size, split, split_more, after.0)) in
      let (t, e, b) =
        piece_next op_code fin len offset piece false s w code start (omega (arith, size, split))
          full quiet h (frame_events op_code fin len (offset + length piece.bytes) (more ∷ rest)) in
      rw (e, sym (append_assoc s piece.bytes (total (more ∷ rest))))
        (frame_next op_code fin len (offset + length piece.bytes) more rest (s ++ piece.bytes) t
          code (ground arith) (omega (arith, size, split)) (IsWhole-rest more rest after) b)

  -- The first frame, which starts the message.
  frame_first :
      (fin : Bool) (len : ℕ) (piece : Piece) (rest : List Piece) (w : Websocket R E)
      → length (total (piece ∷ rest)) ≡ len
      → IsWhole (piece ∷ rest)
      → w.queue ≡ q
      → Becomes port line q fin
          (total (piece ∷ rest))
          (handle_events port line (frame_events opcode_binary fin len 0 (piece ∷ rest)) w)
  unfolding frame_events handle_events starts_message
  frame_first fin len piece [] w size whole h =
      let e : EventData = piece_event opcode_binary fin len 0 piece.bytes in
      let v : Websocket R E = handle_events port line piece.before w in
      let all : length (piece.bytes ++ []) ≡ length piece.bytes =
        ap (λ (l : List ℕ). length l) (append-nil piece.bytes) in
      rw (handle_events-append port line piece.before (e ∷ []) w, append-nil piece.bytes)
        (chunk_first port line q opened e fin piece.bytes v
          (piece_event-IsChunk opcode_binary refl fin len 0 piece.bytes (omega (arith, size, all)))
          refl (completes_last opcode_binary refl fin len 0 piece.bytes (omega (arith, size, all)))
          (noise_before port line q opened piece.before w whole h))
  frame_first fin len piece (more ∷ rest) w size (some_bytes, quiet, after) h =
      let e : EventData = piece_event opcode_binary fin len 0 piece.bytes in
      let v : Websocket R E = handle_events port line piece.before w in
      let t : Websocket R E = handle_data port line e v in
      let others : List EventData =
        frame_events opcode_binary fin len (0 + length piece.bytes) (more ∷ rest) in
      let split = length-append {0} piece.bytes (total (more ∷ rest)) in
      let split_more = length-append {0} more.bytes (total rest) in
      rw (handle_events-append port line piece.before (e ∷ others) w) (
        frame_next opcode_binary fin len (0 + length piece.bytes) more rest piece.bytes t refl
          (ground arith) (omega (arith, size, split)) (IsWhole-rest more rest after)
          (chunk_first port line q opened e false piece.bytes v
            (piece_event-IsChunk opcode_binary refl fin len 0 piece.bytes
              (omega (arith, size, split)))
            refl
            (completes_inner opcode_binary refl fin len 0 piece.bytes
              (omega (arith, size, split, split_more, after.0)))
            (noise_before port line q opened piece.before w quiet h)))

  frames_next :
      (frame : List Piece) (rest : List (List Piece)) (s : List ℕ) (w : Websocket R E)
      → IsWhole frame
      → AllWhole rest
      → Stages port line q s w
      → Done port line q
          (s ++ rest_total (frame ∷ rest))
          (handle_events port line (rest_events (frame ∷ rest)) w)
  unfolding rest_events
  frames_next [] rest s w whole all h = elim whole [ ]
  frames_next (piece ∷ more) [] s w whole all h = rw (append-nil (total (piece ∷ more))) (
      frame_next opcode_cont true (length (total (piece ∷ more))) 0 piece more s w refl refl
        (omega arith) whole h)
  frames_next (piece ∷ more) (frame ∷ rest) s w whole (whole_frame, all) h =
      let here : List Piece = piece ∷ more in
      let es : List EventData = frame_events opcode_cont false (length (total here)) 0 here in
      rw
        (
          handle_events-append port line es (rest_events (frame ∷ rest)) w,
          sym (append_assoc s (total here) (rest_total (frame ∷ rest))),
        )
        (frames_next frame rest (s ++ total here) (handle_events port line es w) whole_frame all (
          frame_next opcode_cont false (length (total here)) 0 piece more s w refl refl
            (omega arith) whole h))

  -- A message that comes in any frames, each in any chunks, with control frames anywhere in between,
  -- is handed to `deliver_packet` once, whole, at its last byte, if it fits in `MAX_FRAME_SIZE`; a
  -- longer one changes nothing. The staging is empty again afterwards, so that the next message
  -- starts clean; and whatever was staged before does not matter.
  pub handle_events-message :
      (first : List Piece) (rest : List (List Piece)) (w : Websocket R E)
      → IsWhole first
      → AllWhole rest
      → w.queue ≡ q
      → Done port line q
          (total first ++ rest_total rest)
          (handle_events port line (message_events first rest) w)
  unfolding message_events
  handle_events-message [] rest w whole all h = elim whole [ ]
  handle_events-message (piece ∷ more) [] w whole all h =
      rw (append-nil (total (piece ∷ more)))
        (frame_first true (length (total (piece ∷ more))) piece more w refl whole h)
  handle_events-message (piece ∷ more) (frame ∷ rest) w whole (whole_frame, all) h =
      let here : List Piece = piece ∷ more in
      let es : List EventData = frame_events opcode_binary false (length (total here)) 0 here in
      rw (handle_events-append port line es (rest_events (frame ∷ rest)) w) (
        frames_next frame rest (total here) (handle_events port line es w) whole_frame all
          (frame_first false (length (total here)) piece more w refl whole h))
