-- ===== src/Transport/Moves.antt =====
-- The packet queues under all the tasks that share them: the session's task, the TX task and the
-- callbacks of the driver. A step is one locked section, so a history of steps is any interleaving
-- of them. One task reads and one sends, as include/sidp_transport_websocket.hpp demands.
use sidp_client.Backend.{EspErr}
use sidp_client.Base.{ℕ, ◌≡◌, Bool, Option, none, some, List, if◌then◌else◌}
use sidp_client.Transport.Port.{Port, Line}
use sidp_client.Transport.Queue.{
  TxItem, begin_session, receive_ring, read_packet, end_read, refuses_read, finish_tx,
  deliver_packet, take_frame, write_message_log, write_message, link_changed, close_session,
}
use sidp_client.Transport.Setup.{create_queues}
use sidp_client.Transport.State.{Queue, new_queue}

pub record Shared (R E : Type 0) : Type 0 where
  pub queue : Queue R E
  -- The packet between `start_read` and `end_read`.
  pub reading : Option (List ℕ)
  -- The frame between the two locked sections of `service_tx`.
  pub sending : Option TxItem

abbrev pub on_queue : {R E : Type 0} → Queue R E → Shared R E → Shared R E
on_queue q s = record s { queue = q }

module _ {R E : Type 0} (port : Port R E) where
  abbrev pub first_shared : E → Shared R E
  first_shared e = record {
    queue = (create_queues port (new_queue e)).1;
    reading = none;
    sending = none;
  }

module _ {R E : Type 0} (port : Port R E) (line : Line E) where
  unfoldable pub step_read : Shared R E → Shared R E
  step_read s =
      if refuses_read line s.queue
      then s
      else let (packet, q) = read_packet port (receive_ring port s.queue.ring_buffer) s.queue in
        record s { queue = q; reading = packet }

  unfoldable pub step_take : Shared R E → Shared R E
  step_take s =
      let (item, q) = take_frame port line s.queue in record s { queue = q; sending = item }

  pub data Move : Shared R E → Shared R E → Type 0 where
    -- Time, the link and the drivers change outside the lock.
    elapse : {s : Shared R E} → (e : E) → Move s (on_queue (record (s.queue) { env = e }) s)
    link : {s : Shared R E} → (up : Bool) → Move s (on_queue (link_changed port up s.queue) s)
    close : {s : Shared R E} → Move s (on_queue (close_session port s.queue) s)
    begin : {s : Shared R E} → Move s (on_queue (begin_session port line s.queue).1 s)
    deliver :
        {s : Shared R E} (packet : List ℕ) (received_epoch : ℕ)
        → Move s (on_queue (deliver_packet port line packet received_epoch s.queue) s)
    write :
        {s : Shared R E} (message : List ℕ)
        → Move s (on_queue (write_message port line message s.queue).1 s)
    log :
        {s : Shared R E} (message : List ℕ)
        → Move s (on_queue (write_message_log port line message s.queue).1 s)
    read : {s : Shared R E} → s.reading ≡ none → Move s (step_read s)
    end_reading :
        {s : Shared R E} (packet : List ℕ)
        → s.reading ≡ some packet
        → Move s (record s { queue = end_read port (some packet) s.queue; reading = none })
    take_next : {s : Shared R E} → s.sending ≡ none → Move s (step_take s)
    finish :
        {s : Shared R E} (item : TxItem) (sent : Bool)
        → s.sending ≡ some item
        → Move s (record s { queue = finish_tx port item sent s.queue; sending = none })

  -- What the tasks can reach once `create_queues` has succeeded.
  pub data Reaches : Shared R E → Type 0 where
    start :
        (e : E)
        → (create_queues port (new_queue e)).0 ≡ EspErr.esp_ok
        → Reaches (first_shared port e)
    next : {s t : Shared R E} → Reaches s → Move s t → Reaches t
