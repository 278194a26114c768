-- ===== src/Transport/Cdc/Tests.antt =====
-- Runs of the CDC transport.
-- A decoder in the middle of an escape of an unfinished frame.
use sidp_client.Base.{take-drop}
use sidp_client.Base.{ap}
use sidp_client.Backend.{EspErr}
use sidp_client.Base.{
  ℕ, ◌+◌, ◌≤◌, ◌≡◌, refl, Bool, true, false, Option, none, some, List, [], ◌∷◌, ◌++◌, arith, drop,
  length, take,
}
use sidp_client.Transport.Cdc.Bounds.{encode_message_bounds, consume_chunk_bounds}
use sidp_client.Transport.Cdc.Decode.{Decoder, consume_chunk}
use sidp_client.Transport.Cdc.Delivery.{deliver_cdc_frame-ends}
use sidp_client.Transport.Cdc.Drain.{read_loop-Drains, Drains, ReadLaws}
use sidp_client.Transport.Cdc.Encode.{
  append_message, append_tx_byte, encode_message, append_escaped_tx_byte,
}
use sidp_client.Transport.Cdc.Receive.{read_loop}
use sidp_client.Transport.Cdc.Resync.{opened, consume_chunk-encode_all, encode_all}
use sidp_client.Transport.Cdc.Send.{
  flush_result, queue_bytes, go_or_fail, send_loop, deliver_cdc_frame, send_then, clear_after,
  drain_round, gives_up, now_ms, remaining_timeout, flush_cdc_once, send_next, clear_tx, drain_tx,
}
use sidp_client.Transport.Cdc.Sending.{SendLaws}
use sidp_client.Transport.Cdc.Slip.{escape_all, encode_message-eq}
use sidp_client.Transport.Cdc.State.{Usb}
use sidp_client.Transport.Port.{Port, Line}
use sidp_client.Transport.Queue.{link_is_connected, is_open}
use sidp_client.Transport.SmallRing.{get_out, put_in, Ring}
use sidp_client.Transport.State.{new_queue, Queue}

abbrev torn : Decoder
torn = record {
  frame = 7 ∷ [];
  frame_discarded = false;
  receiving_frame = true;
  escape_pending = true;
}

abbrev collect_frames : List ℕ → List (List ℕ) → List (List ℕ)
collect_frames m ms = ms ++ m ∷ []

consume_chunk-encode_all_example :
    consume_chunk collect_frames (encode_all ((0xc0 ∷ 0xdb ∷ 1 ∷ []) ∷ (2 ∷ []) ∷ [])) torn []
    ≡ (opened, (0xc0 ∷ 0xdb ∷ 1 ∷ []) ∷ (2 ∷ []) ∷ [])
consume_chunk-encode_all_example =
    consume_chunk-encode_all collect_frames (0xc0 ∷ 0xdb ∷ 1 ∷ []) ((2 ∷ []) ∷ []) torn []
      (omega arith) (omega arith)

encode_message-eq_example :
    encode_message (0xdb ∷ []) ≡ 0xc0 ∷ (escape_all (0xdb ∷ []) ++ 0xc0 ∷ [])
encode_message-eq_example = encode_message-eq (0xdb ∷ [])

-- A driver that holds bytes. A read gives as many as the first of them says, and at least one. The
-- cable is always in.
abbrev held_bytes : List ℕ → EspErr × List ℕ × List ℕ
held_bytes [] = (EspErr.esp_ok, [], [])
held_bytes (x ∷ e) = (EspErr.esp_ok, x ∷ take x e, drop x e)

held_bytes_split : (e : List ℕ) → (held_bytes e).1 ++ (held_bytes e).2 ≡ e
held_bytes_split [] = refl
held_bytes_split (x ∷ e) = ap (λ (l : List ℕ). x ∷ l) (take-drop x e)

held_bytes_some : (e : List ℕ) → length (held_bytes e).1 ≡ 0 → e ≡ []
held_bytes_some [] h = refl
held_bytes_some (x ∷ e) h = absurd (omega (arith, h))

held_bytes_ok : (e : List ℕ) → (held_bytes e).0 ≡ EspErr.esp_ok
held_bytes_ok [] = refl
held_bytes_ok (x ∷ e) = refl

abbrev byte_port : Port Ring (List ℕ)
byte_port = record {
  send = put_in;
  receive = get_out;
  return_item = λ x r. r;
  create_ring = λ size e. (some Ring.free, e);
  delete_ring = λ r e. e;
  create_mutex = λ e. (true, e);
  delete_mutex = λ e. e;
  create_task = λ e. (true, e);
}

abbrev always_in : Line (List ℕ)
always_in = record { physical_link_open = λ e. true; reset_wire_buffers = λ e. e }

byte_laws : ReadLaws always_in held_bytes
byte_laws = record {
  pending = λ e. e;
  reads_ok = held_bytes_ok;
  reads_split = held_bytes_split;
  reads_some = held_bytes_some;
  link_stays = λ e. refl;
}

abbrev byte_queue : Queue Ring (List ℕ)
byte_queue = new_queue (0xc0 ∷ 1 ∷ 2 ∷ 0xc0 ∷ 3 ∷ [])

read_loop-Drains_example :
    Drains byte_port always_in held_bytes byte_laws 0 opened byte_queue
      (read_loop byte_port always_in held_bytes 6 0 opened byte_queue)
unfolding byte_laws
read_loop-Drains_example =
    read_loop-Drains byte_port always_in held_bytes byte_laws 0 6 opened byte_queue (omega arith)

-- A world that is a time and what the driver has taken. The driver takes three bytes at a time.
abbrev slow_usb : Usb (ℕ × List ℕ)
slow_usb = record {
  acm_init = λ n e. (EspErr.esp_ok, e);
  acm_initialized = λ n e. true;
  connected = λ n e. true;
  read = λ n m e. (EspErr.esp_ok, [], e);
  read_flush = λ n e. e;
  write_clear = λ n e. e;
  write_queue = λ n bytes e. (3, (e.0 + 7, e.1 ++ take 3 bytes));
  write_flush = λ n ticks e. (EspErr.esp_ok, (e.0 + 7, e.1));
  unregister_callbacks = λ n e. e;
  get_time = λ e. e.0;
  malloc = λ e. (true, e);
  free = λ e. e;
}

abbrev usb_line : Line (ℕ × List ℕ)
usb_line = record { physical_link_open = λ e. true; reset_wire_buffers = λ e. e }

abbrev alone : Queue Ring (ℕ × List ℕ) → Queue Ring (ℕ × List ℕ)
alone q = q

slow_usb_laws : SendLaws slow_usb 0 alone
slow_usb_laws = record {
  taken = λ e. e.1;
  pause = 7;
  pause_small = omega arith;
  queue_takes = λ bytes e. refl;
  queue_after = λ bytes e. omega arith;
  queue_soon = λ bytes e. omega arith;
  flush_keeps = λ ticks e. refl;
  flush_after = λ ticks e. omega arith;
  flush_soon = λ ticks e. omega arith;
  clear_keeps = λ e. refl;
  others_keep = λ q. refl;
  others_after = λ q. omega arith;
  others_soon = λ q. omega arith;
}

abbrev sending_queue : Queue Ring (ℕ × List ℕ)
sending_queue = record (new_queue (5, [])) { dead = false; connected = true }

deliver_cdc_frame-ends_example :
    (res : Bool × Queue Ring (ℕ × List ℕ)) × (deliver_cdc_frame slow_usb usb_line 0 100 alone
        5_001_001
        (0xc0 ∷ 2 ∷ 3 ∷ 4 ∷ [])
        false
        sending_queue
      ≡ some res)
    × (res.0 ≡ true → res.1.env.1 ≡ [] ++ encode_message (0xc0 ∷ 2 ∷ 3 ∷ 4 ∷ []))
unfolding slow_usb_laws
deliver_cdc_frame-ends_example =
    deliver_cdc_frame-ends slow_usb usb_line 0 100 alone slow_usb_laws 5_001_001
      (0xc0 ∷ 2 ∷ 3 ∷ 4 ∷ []) false sending_queue (omega arith)

-- The frame is on the wire after a few rounds.
abbrev drained_bytes : Option (Bool × Queue Ring (ℕ × List ℕ)) → List ℕ
drained_bytes none = []
drained_bytes (some (sent, q)) = q.env.1

sent_all :
    drained_bytes
      (deliver_cdc_frame slow_usb usb_line 0 100 alone 5 (0xc0 ∷ 2 ∷ []) false sending_queue)
    ≡ 0xc0 ∷ 0xdb ∷ 0xdc ∷ 2 ∷ 0xc0 ∷ []
unfolding deliver_cdc_frame send_loop go_or_fail send_next queue_bytes gives_up drain_tx drain_round
    flush_cdc_once flush_result remaining_timeout now_ms send_then clear_after clear_tx
    encode_message append_message append_escaped_tx_byte append_tx_byte is_open link_is_connected
sent_all = refl

consume_chunk_bounds_example :
    length (consume_chunk collect_frames (1 ∷ 0xdb ∷ 0xdc ∷ []) opened []).0.frame ≤ 8192
consume_chunk_bounds_example =
    consume_chunk_bounds collect_frames (1 ∷ 0xdb ∷ 0xdc ∷ []) opened [] (omega arith)

encode_message_bounds_example : length (encode_message (0xc0 ∷ 1 ∷ [])) ≤ 16386
encode_message_bounds_example = encode_message_bounds (0xc0 ∷ 1 ∷ []) (omega arith)
