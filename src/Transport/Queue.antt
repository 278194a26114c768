-- ===== src/Transport/Queue.antt =====
-- The operations of sidp_transport_queue.cpp.
use sidp_client.Base.{ltb}
use sidp_client.Base.{◌==◌}
use sidp_client.Base.{if◌then◌else◌}
use sidp_client.Backend.{EspErr, is_ok}
use sidp_client.Base.{
  ℕ, zero, suc, ◌+◌, Bool, true, false, not, ◌&&◌, ◌||◌, Option, none, some, List, u32, u64, length,
  field,
}
use sidp_client.Crc.{is_valid_message_size, verify_message_crc}
use sidp_client.Defs.{kind_log_stream}
use sidp_client.Defs.Limits
use sidp_client.Transport.Port.{Line, Port}
use sidp_client.Transport.Sizes
use sidp_client.Transport.State.{Queue, decrement}

-- A null handle.
abbrev pub is_missing : {R : Type 0} → Option R → Bool
is_missing none = true
is_missing (some r) = false

-- A frame that the TX task has taken, and the ring it came from.
pub record TxItem : Type 0 where
  pub frame : List ℕ
  pub log : Bool

-- The checks of `enqueue` before the lock.
unfoldable pub check_message : List ℕ → Bool → EspErr
check_message message log =
    if ltb (length message) Limits.header_size
    then EspErr.invalid_arg
    else if ltb (if log then Sizes.max_log_frame_size else Limits.max_frame_size) (length message)
    then EspErr.invalid_size
    else if log && not (field message 1 1 == kind_log_stream)
    then EspErr.invalid_arg
    else EspErr.esp_ok

module _ {R E : Type 0} where
  unfoldable pub tx_idle : Queue R E → Bool
  tx_idle q = not q.tx_busy

module _ {R E : Type 0} (line : Line E) where
  unfoldable pub link_is_connected : Queue R E → Bool
  link_is_connected q = q.connected && line.physical_link_open q.env

  unfoldable pub is_open : Queue R E → Bool
  is_open q = not q.dead && link_is_connected q

  unfoldable pub needs_disconnect : Queue R E → Bool
  needs_disconnect q = not (is_open q)

  -- The condition by which `start_read` gives up.
  unfoldable pub refuses_read : Queue R E → Bool
  refuses_read q = not (is_open q) || is_missing q.ring_buffer

  -- The condition by which `begin_session` refuses.
  unfoldable pub refuses_session : Queue R E → Bool
  refuses_session q =
      is_missing q.ring_buffer
      || (not q.dead
          || (not (link_is_connected q)
              || (q.link_serial == q.accepted_link_serial
                  || (q.tx_busy || not (q.rx_borrowed == 0)))))

module _ {R E : Type 0} (port : Port R E) where
  -- The loop of `drain`; a round removes an item, so the ring's size in bytes is fuel enough.
  unfoldable pub drain_items : ℕ → R → R
  drain_items zero r = r
  drain_items (suc fuel) r = elim (port.receive r) [
    | none ↦ r
    | some (item, rest) ↦ drain_items fuel (port.return_item item rest)
  ]

  unfoldable pub drain : Option R → Option R
  unfolding drain_items
  drain none = none
  drain (some r) = some (drain_items Sizes.queue_size r)

  unfoldable pub close_locked : Queue R E → Queue R E
  close_locked q = record q {
    dead = true;
    epoch = u32 (q.epoch + 1);
    ring_buffer = drain q.ring_buffer;
    tx_ring = drain q.tx_ring;
    log_ring = drain q.log_ring;
    tx_pending = 0;
  }

  unfoldable pub close_session : Queue R E → Queue R E
  close_session q = close_locked q

  unfoldable pub link_changed : Bool → Queue R E → Queue R E
  link_changed up q = close_locked (record q {
    connected = up;
    link_serial = if up then u64 (q.link_serial + 1) else q.link_serial;
  })

  -- `xRingbufferSend` and `xRingbufferReceive` on a handle; the rings are there together.
  unfoldable pub send_ring : List ℕ → Option R → Option R
  send_ring message none = none
  send_ring message (some r) = port.send message r

  unfoldable pub receive_ring : Option R → Option (List ℕ × R)
  receive_ring none = none
  receive_ring (some r) = port.receive r

  unfoldable pub return_ring : List ℕ → Option R → Option R
  return_ring item none = none
  return_ring item (some r) = some (port.return_item item r)

  unfoldable pub end_read : Option (List ℕ) → Queue R E → Queue R E
  end_read none q = q
  end_read (some buf) q = if is_missing q.ring_buffer then q else record q {
    ring_buffer = return_ring buf q.ring_buffer;
    rx_borrowed = decrement q.rx_borrowed;
  }

  -- The locked section of `start_read` on an open session; `none` if the ring is empty.
  unfoldable pub read_packet : Option (List ℕ × R) → Queue R E → Option (List ℕ) × Queue R E
  read_packet none q = (none, q)
  read_packet (some (packet, r)) q =
      (some packet, record q { ring_buffer = some r; rx_borrowed = u32 (q.rx_borrowed + 1) })

  -- The ring took the packet, or refused it.
  unfoldable pub accept_packet : Option R → Queue R E → Queue R E
  accept_packet none q = close_locked q
  accept_packet (some r) q = record q { ring_buffer = some r }

  -- A full ring drops the frame, and ends the session if it is no log.
  unfoldable pub drop_message : Bool → Queue R E → Queue R E
  drop_message log q =
      let t = record q { tx_dropped = u32 (q.tx_dropped + 1) } in if log then t else close_locked t

  -- The ring took the frame, or refused it.
  unfoldable pub put_frame : Bool → Option R → Queue R E → EspErr × Queue R E
  put_frame log none q = (EspErr.no_mem, drop_message log q)
  put_frame true (some r) q =
      (EspErr.esp_ok, record q { log_ring = some r; tx_pending = u32 (q.tx_pending + 1) })
  put_frame false (some r) q =
      (EspErr.esp_ok, record q { tx_ring = some r; tx_pending = u32 (q.tx_pending + 1) })

  -- What the log ring gave, then what the control ring gave before it.
  unfoldable pub take_log : Option (List ℕ × R) → Queue R E → Option TxItem × Queue R E
  take_log none q = (none, q)
  take_log (some (frame, r)) q = (
    some (record { frame = frame; log = true }),
    record q { log_ring = some r; tx_pending = decrement q.tx_pending; tx_busy = true },
  )

  unfoldable pub take_control : Option (List ℕ × R) → Queue R E → Option TxItem × Queue R E
  take_control none q = take_log (receive_ring q.log_ring) q
  take_control (some (frame, r)) q = (
    some (record { frame = frame; log = false }),
    record q { tx_ring = some r; tx_pending = decrement q.tx_pending; tx_busy = true },
  )

  -- The second lock of `service_tx`, after the frame was on the wire or was not.
  unfoldable pub return_frame : TxItem → Queue R E → Queue R E
  return_frame item q =
      if item.log
      then record q { log_ring = return_ring item.frame q.log_ring }
      else record q { tx_ring = return_ring item.frame q.tx_ring }

  unfoldable pub finish_tx : TxItem → Bool → Queue R E → Queue R E
  finish_tx item sent q =
      let t = return_frame item q in
      let u = if sent then t else close_locked (record t { tx_dropped = u32 (t.tx_dropped + 1) }) in
      record u { tx_busy = false }

module _ {R E : Type 0} (port : Port R E) (line : Line E) where
  unfoldable pub begin_session : Queue R E → EspErr × Queue R E
  begin_session q =
      if refuses_session line q
      then (EspErr.invalid_state, q)
      else let t = close_locked port q in
        (
          EspErr.esp_ok,
          record t {
            env = line.reset_wire_buffers t.env;
            accepted_link_serial = t.link_serial;
            dead = false;
          },
        )

  unfoldable pub deliver_packet : List ℕ → ℕ → Queue R E → Queue R E
  deliver_packet packet received_epoch q =
      if not (is_valid_message_size (length packet)) || not (verify_message_crc packet)
      then q
      else if not (is_open line q) || not (received_epoch == q.epoch)
      then q
      else if not (field packet 0 1 == Limits.protocol_version)
      then close_locked port q
      else accept_packet port (send_ring port packet q.ring_buffer) q

  unfoldable pub enqueue_locked : List ℕ → Bool → Queue R E → EspErr × Queue R E
  enqueue_locked message log q =
      if not (is_open line q) || is_missing q.tx_ring
      then (EspErr.invalid_state, q)
      else put_frame port log (send_ring port message (if log then q.log_ring else q.tx_ring)) q

  unfoldable pub enqueue : List ℕ → Bool → Queue R E → EspErr × Queue R E
  enqueue message log q =
      let err = check_message message log in
      if is_ok err then enqueue_locked message log q else (err, q)

  unfoldable pub write_message : List ℕ → Queue R E → EspErr × Queue R E
  write_message message q = enqueue message false q

  unfoldable pub write_message_log : List ℕ → Queue R E → EspErr × Queue R E
  write_message_log message q = enqueue message true q

  -- The first lock of `service_tx`.
  unfoldable pub take_frame : Queue R E → Option TxItem × Queue R E
  take_frame q =
      if not (is_open line q) || q.tx_busy
      then (none, q)
      else take_control port (receive_ring port q.tx_ring) q

  -- One frame, if there is one; `deliver_tx_frame` runs without the lock.
  unfoldable pub service_taken :
      (List ℕ → Bool → Queue R E → Bool × Queue R E) → Option TxItem → Queue R E → Bool × Queue R E
  service_taken deliver_tx_frame none q = (false, q)
  service_taken deliver_tx_frame (some item) q =
      let (sent, t) = deliver_tx_frame item.frame item.log q in (true, finish_tx port item sent t)

  unfoldable pub service_tx :
      (List ℕ → Bool → Queue R E → Bool × Queue R E) → Queue R E → Bool × Queue R E
  service_tx deliver_tx_frame q =
      let (item, t) = take_frame q in service_taken deliver_tx_frame item t

  -- The inner loop of `tx_task_loop`, `while (service_tx()) {}`, of at most so many rounds.
  unfoldable pub service_all :
      ℕ → (List ℕ → Bool → Queue R E → Bool × Queue R E) → Queue R E → Queue R E
  unfolding service_tx
  service_all zero deliver_tx_frame q = q
  service_all (suc fuel) deliver_tx_frame q =
      let (served, t) = service_tx deliver_tx_frame q in
      elim served [ true ↦ service_all fuel deliver_tx_frame t | false ↦ t ]
