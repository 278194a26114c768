-- ===== src/Transport/WebSocket/Bounds.antt =====
-- The staging buffer of the WebSocket transport is long enough.
use sidp_client.Base.{ℕ, ◌≤◌, true, List, arith, length, length-append}
use sidp_client.Defs.Limits
use sidp_client.Transport.Port.{Line, Port}
use sidp_client.Transport.Queue.{is_open}
use sidp_client.Transport.WebSocket.Receive.{
  reset_staging, handle_data, handle_frame, sync_epoch, stage_event, chunk_of, stage_bytes,
}
use sidp_client.Transport.WebSocket.State.{EventData, Websocket}

module _ {R E : Type 0} (port : Port R E) (line : Line E) where
  abbrev pub StagingFits : Websocket R E → Type 0
  StagingFits w = length w.staging ≤ Limits.max_frame_size

  stage_bytes-StagingFits :
      (c : List ℕ) (w : Websocket R E) → StagingFits w → StagingFits (stage_bytes c w)
  unfolding stage_bytes
  stage_bytes-StagingFits c w h = ground (arith, length-append {0} w.staging c)

  stage_event-StagingFits :
      (n : ℕ) (event : EventData) (w : Websocket R E)
      → StagingFits w
      → StagingFits (stage_event port line n event w)
  unfolding stage_event reset_staging
  stage_event-StagingFits n event w h =
      let a = stage_bytes-StagingFits (chunk_of event) w h in ground (arith, a)

  handle_frame-StagingFits :
      (n : ℕ) (event : EventData) (w : Websocket R E)
      → StagingFits w
      → StagingFits (handle_frame port line n event w)
  unfolding handle_frame reset_staging
  handle_frame-StagingFits n event w h =
      let t : Websocket R E = record (reset_staging w) { staging_active = true } in
      let a = stage_event-StagingFits n event w h in
      let b = stage_event-StagingFits n event t (omega arith) in ground (arith, a, b)

  -- Whatever the client reports, `handle_data` never writes past `staging_buffer`, which has
  -- `MAX_FRAME_SIZE` bytes.
  pub handle_data-StagingFits :
      (event : EventData) (w : Websocket R E)
      → StagingFits w
      → StagingFits (handle_data port line event w)
  unfolding handle_data sync_epoch reset_staging
  handle_data-StagingFits event w h =
      let t : Websocket R E = sync_epoch (is_open line w.queue) w in
      let fits : StagingFits t = ground arith in
      let a = handle_frame-StagingFits w.queue.epoch event t fits in ground (arith, a)
