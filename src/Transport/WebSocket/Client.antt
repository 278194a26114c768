-- ===== src/Transport/WebSocket/Client.antt =====
-- `init`, `reconnect`, `deliver_tx_frame` and the event handler of sidp_transport_websocket.cpp.
-- `esp_websocket_client_config_t`: the fields that `init` sets, and the others.
use sidp_client.Base.{ltb}
use sidp_client.Base.{◌==◌}
use sidp_client.Base.{if◌then◌else◌}
use sidp_client.Backend.{EspErr, is_fail, is_ok}
use sidp_client.Base.{ℕ, Bool, true, false, not, ◌&&◌, ◌||◌, Option, none, some, List, length}
use sidp_client.Defs.Limits
use sidp_client.Transport.Int.{to_size, is_negative, ℤ}
use sidp_client.Transport.Port.{Port, Line}
use sidp_client.Transport.Queue.{tx_idle, close_session, link_changed, is_open}
use sidp_client.Transport.Setup.{spawn_tx_task, create_queues, destroy_queues}
use sidp_client.Transport.Sizes
use sidp_client.Transport.State.{Queue}
use sidp_client.Transport.Wait.{timeout_to_ticks}
use sidp_client.Transport.WebSocket.Receive.{handle_data, reset_staging}
use sidp_client.Transport.WebSocket.State.{EventData, Websocket}

pub record ClientConfig (C : Type 0) : Type 0 where
  pub others : C
  pub disable_auto_reconnect : Bool
  pub enable_close_reconnect : Bool
  pub buffer_size : ℤ

-- The Espressif client and the allocator. There is one client, so that its handle is a flag.
pub record Client (C E : Type 0) : Type 0 where
  pub client_init : ClientConfig C → E → Bool × E
  pub client_destroy : E → E
  pub register_events : E → EspErr × E
  pub unregister_events : E → E
  pub client_start : E → EspErr × E
  pub client_stop : E → EspErr × E
  pub is_connected : E → Bool
  -- `esp_websocket_client_send_bin` with its ticks.
  pub send_bin : List ℕ → ℕ → E → ℤ × E
  pub malloc : E → Bool × E
  pub free : E → E

pub data ClientEvent : Type 0 where
  connected closed finished disconnected failed other_event : ClientEvent
  received : Option EventData → ClientEvent

unfoldable pub prepare_config : {C : Type 0} → ClientConfig C → ClientConfig C
prepare_config config = record config {
  disable_auto_reconnect = true;
  enable_close_reconnect = false;
  buffer_size =
      if is_negative config.buffer_size || ltb (to_size config.buffer_size) Limits.max_frame_size
      then ℤ.pos Limits.max_frame_size
      else config.buffer_size;
}

module _ {C R E : Type 0} (port : Port R E) (client : Client C E) where
  -- `physical_link_open`.
  unfoldable pub websocket_line : Websocket R E → Line E
  websocket_line w = record {
    physical_link_open = λ e. w.initialized && client.is_connected e;
    reset_wire_buffers = λ e. e;
  }

  abbrev pub in_world_of : (E → E) → Websocket R E → Websocket R E
  in_world_of f w = let q = w.queue in record w { queue = record q { env = f q.env } }

  unfoldable pub release : Websocket R E → Websocket R E
  release w = in_world_of client.free (record w { queue = destroy_queues port w.queue })

  -- The failures of `init` after the handler is registered.
  unfoldable pub abandon : Websocket R E → Websocket R E
  unfolding release
  abandon w =
      release (record (in_world_of (λ e. client.client_destroy (client.unregister_events e)) w) {
        initialized = false;
        has_client = false;
        has_staging = false;
      })

  unfoldable pub spawn_task : Websocket R E → EspErr × Websocket R E
  unfolding abandon
  spawn_task w =
      let (err, q) = spawn_tx_task port w.queue in
      let t = record w { queue = q } in
      if is_ok err
      then (EspErr.esp_ok, t)
      else (err, abandon (in_world_of (λ e. (client.client_stop e).1) t))

  unfoldable pub start_client : Websocket R E → EspErr × Websocket R E
  unfolding abandon spawn_task
  start_client w =
      let q = w.queue in
      let (err, e) = client.client_start q.env in
      let t = record w { queue = record q { env = e } } in
      if not (is_ok err) then (EspErr.esp_fail, abandon t) else spawn_task t

  unfoldable pub register_handler : Websocket R E → EspErr × Websocket R E
  unfolding release start_client
  register_handler w =
      let q = w.queue in
      let (err, e) = client.register_events q.env in
      let t = record w { queue = record q { env = e } } in
      if not (is_ok err)
      then (EspErr.esp_fail, release (in_world_of client.client_destroy t))
      else start_client (record t { has_client = true; has_staging = true; initialized = true })

  unfoldable pub make_client : ClientConfig C → Websocket R E → EspErr × Websocket R E
  unfolding release register_handler
  make_client config w =
      let q = w.queue in
      let (made, e) = client.client_init (prepare_config config) q.env in
      let t = record w { queue = record q { env = e } } in
      if not made then (EspErr.invalid_arg, release t) else register_handler t

  unfoldable pub init_websocket : ClientConfig C → Websocket R E → EspErr × Websocket R E
  unfolding make_client
  init_websocket config w =
      let q = w.queue in
      let (allocated, e) = client.malloc q.env in
      let (err, r) = create_queues port (record q { env = e }) in
      if w.initialized
      then (EspErr.invalid_state, w)
      else if not allocated
      then (EspErr.no_mem, record w { queue = record q { env = e } })
      else if not (is_ok err)
      then (err, in_world_of client.free (record w { queue = r }))
      else make_client config (record w { queue = r })

  unfoldable pub restart : Websocket R E → EspErr × Websocket R E
  restart w =
      let q = w.queue in
      let (stopped, e) = client.client_stop q.env in
      let (started, f) = client.client_start e in
      if not (is_ok stopped) && not (is_fail stopped)
      then (stopped, record w { queue = record q { env = e } })
      else (started, record w { queue = record q { env = f } })

  unfoldable pub reconnect : Websocket R E → EspErr × Websocket R E
  unfolding restart
  reconnect w =
      let t = record w { queue = close_session port w.queue } in
      if not t.initialized || not (tx_idle t.queue) then (EspErr.invalid_state, t) else restart t

  unfoldable pub change_link : Bool → Websocket R E → Websocket R E
  change_link up w = reset_staging (record w { queue = link_changed port up w.queue })

  unfoldable pub websocket_event_handler : ClientEvent → Websocket R E → Websocket R E
  unfolding change_link websocket_line
  websocket_event_handler ClientEvent.connected w = change_link true w
  websocket_event_handler ClientEvent.closed w = change_link false w
  websocket_event_handler ClientEvent.finished w = change_link false w
  websocket_event_handler ClientEvent.disconnected w = change_link false w
  websocket_event_handler ClientEvent.failed w = change_link false w
  websocket_event_handler ClientEvent.other_event w = w
  websocket_event_handler (ClientEvent.received none) w = w
  websocket_event_handler (ClientEvent.received (some event)) w =
      handle_data port (websocket_line w) event w

-- All bytes were sent.
abbrev pub is_size : ℤ → ℕ → Bool
is_size (ℤ.pos sent) size = sent == size
is_size (ℤ.negsuc n) size = false

module _ {C R E : Type 0} (client : Client C E) (line : Line E) (tick_rate_hz : ℕ) where
  unfoldable pub deliver_websocket_frame : List ℕ → Bool → Queue R E → Bool × Queue R E
  deliver_websocket_frame frame log q =
      let ticks =
        timeout_to_ticks tick_rate_hz
          (if log then Sizes.log_send_timeout_ms else Sizes.tx_send_timeout_ms) in
      let (sent, e) = client.send_bin frame ticks q.env in
      if not (is_open line q)
      then (false, q)
      else (is_size sent (length frame), record q { env = e })
