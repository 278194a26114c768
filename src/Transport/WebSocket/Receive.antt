-- ===== src/Transport/WebSocket/Receive.antt =====
-- `handle_data` and `reset_staging` of sidp_transport_websocket.cpp.
use sidp_client.Base.{◌==◌}
use sidp_client.Base.{ltb}
use sidp_client.Base.{leb}
use sidp_client.Base.{if◌then◌else◌}
use sidp_client.Base.{
  ℕ, ◌+◌, ◌-◌, Bool, true, false, not, ◌&&◌, ◌||◌, none, some, List, [], ◌++◌, length, take,
}
use sidp_client.Defs.Limits
use sidp_client.Transport.Int.{is_negative, to_size}
use sidp_client.Transport.Port.{Line, Port}
use sidp_client.Transport.Queue.{deliver_packet, is_open, is_missing}
use sidp_client.Transport.WebSocket.State.{opcode_binary, EventData, Websocket, opcode_cont}

module _ {R E : Type 0} where
  unfoldable pub reset_staging : Websocket R E → Websocket R E
  reset_staging w = record w { staging = []; staging_active = false; staging_discarded = false }

  unfoldable pub sync_epoch : Bool → Websocket R E → Websocket R E
  unfolding reset_staging
  sync_epoch is_open w =
      if not (w.staging_epoch == w.queue.epoch) || not is_open
      then record (reset_staging w) { staging_epoch = w.queue.epoch }
      else w

  -- The bytes of a chunk, as far as the staging buffer holds them.
  unfoldable pub stage_bytes : List ℕ → Websocket R E → Websocket R E
  stage_bytes chunk w =
      if w.staging_discarded
      then w
      else if ltb (Limits.max_frame_size - length w.staging) (length chunk)
      then record w { staging_discarded = true }
      else record w { staging = w.staging ++ chunk }

-- The guards of `handle_data`.
unfoldable pub is_malformed : EventData → Bool
is_malformed event =
    is_negative event.payload_len
    || (is_negative event.payload_offset
        || (is_negative event.data_len
            || (not (to_size event.data_len == 0) && is_missing event.data_ptr)))

unfoldable pub is_data : EventData → Bool
is_data event = event.op_code == opcode_binary || event.op_code == opcode_cont

-- The first event of a binary frame.
unfoldable pub starts_message : EventData → Bool
starts_message event = to_size event.payload_offset == 0 && event.op_code == opcode_binary

unfoldable pub exceeds_frame : EventData → Bool
exceeds_frame event =
    ltb (to_size event.payload_len) (to_size event.payload_offset)
    || ltb (to_size event.payload_len - to_size event.payload_offset) (to_size event.data_len)

unfoldable pub completes_message : EventData → Bool
completes_message event =
    event.fin
    && leb (to_size event.payload_len) (to_size event.payload_offset + to_size event.data_len)

unfoldable pub chunk_of : EventData → List ℕ
chunk_of event = elim event.data_ptr [
  | none ↦ []
  | some bytes ↦ take (to_size event.data_len) bytes
]

module _ {R E : Type 0} (port : Port R E) (line : Line E) where
  unfoldable pub deliver_staged : ℕ → Websocket R E → Websocket R E
  deliver_staged current_epoch w =
      if w.staging_discarded
      then w
      else record w { queue = deliver_packet port line w.staging current_epoch w.queue }

  unfoldable pub stage_event : ℕ → EventData → Websocket R E → Websocket R E
  stage_event current_epoch event w =
      if exceeds_frame event
      then reset_staging w
      else let t = stage_bytes (chunk_of event) w in
        if completes_message event then reset_staging (deliver_staged current_epoch t) else t

  unfoldable pub handle_frame : ℕ → EventData → Websocket R E → Websocket R E
  handle_frame current_epoch event w =
      if starts_message event
      then stage_event current_epoch event (record (reset_staging w) { staging_active = true })
      else if not w.staging_active
      then w
      else stage_event current_epoch event w

  unfoldable pub handle_data : EventData → Websocket R E → Websocket R E
  handle_data event w =
      let t = sync_epoch (is_open line w.queue) w in
      if not (is_open line w.queue)
      then t
      else if is_malformed event
      then t
      else if not (is_data event)
      then t
      else handle_frame w.queue.epoch event t
