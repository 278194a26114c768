-- ===== src/Transport/Setup.antt =====
-- `create_queues`, `destroy_queues` and `spawn_tx_task` of sidp_transport_queue.cpp.
use sidp_client.Backend.{EspErr}
use sidp_client.Base.{Bool, false, not, ◌||◌, Option, none, some, if◌then◌else◌}
use sidp_client.Transport.Port.{Port}
use sidp_client.Transport.Queue.{is_missing}
use sidp_client.Transport.Sizes
use sidp_client.Transport.State.{Queue}

module _ {R E : Type 0} where
  unfoldable pub lacks_ring : Queue R E → Bool
  lacks_ring q = is_missing q.ring_buffer || (is_missing q.tx_ring || is_missing q.log_ring)

module _ {R E : Type 0} (port : Port R E) where
  unfoldable pub delete_handle : Option R → E → E
  delete_handle none e = e
  delete_handle (some r) e = port.delete_ring r e

  unfoldable pub delete_rings : Queue R E → E
  delete_rings q =
      delete_handle q.log_ring (delete_handle q.tx_ring (delete_handle q.ring_buffer q.env))

  unfoldable pub destroy_queues : Queue R E → Queue R E
  destroy_queues q = record q {
    env = if q.has_mutex then port.delete_mutex (delete_rings q) else delete_rings q;
    ring_buffer = none;
    tx_ring = none;
    log_ring = none;
    has_mutex = false;
  }

  unfoldable pub make_mutex : Queue R E → Queue R E
  make_mutex q =
      if q.has_mutex
      then q
      else let (made, e) = port.create_mutex q.env in record q { env = e; has_mutex = made }

  unfoldable pub make_rings : Queue R E → Queue R E
  make_rings q =
      let (rx, e) = port.create_ring Sizes.queue_size q.env in
      let (tx, f) = port.create_ring Sizes.queue_size e in
      let (log, g) = port.create_ring Sizes.log_queue_size f in
      record q { env = g; ring_buffer = rx; tx_ring = tx; log_ring = log }

  unfoldable pub create_rings : Queue R E → EspErr × Queue R E
  create_rings q =
      let t = make_rings q in
      if lacks_ring t then (EspErr.no_mem, destroy_queues t) else (EspErr.esp_ok, t)

  unfoldable pub create_queues : Queue R E → EspErr × Queue R E
  create_queues q =
      let t = make_mutex q in if not t.has_mutex then (EspErr.no_mem, t) else create_rings t

  unfoldable pub spawn_tx_task : Queue R E → EspErr × Queue R E
  spawn_tx_task q =
      if is_missing q.tx_ring || q.has_tx_task
      then (EspErr.invalid_state, q)
      else let (made, e) = port.create_task q.env in
        let t = record q { env = e; has_tx_task = made } in
        if made then (EspErr.esp_ok, t) else (EspErr.no_mem, t)
