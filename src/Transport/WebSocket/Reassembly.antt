-- ===== src/Transport/WebSocket/Reassembly.antt =====
-- Whole messages through `handle_data`.
use sidp_client.Base.{ℕ, ◌≡◌, refl, ap, ◌∙◌, true, false, List, [], ◌∷◌, ◌++◌, arith}
use sidp_client.Transport.Port.{Port, Line}
use sidp_client.Transport.Queue.{is_open}
use sidp_client.Transport.State.{Queue}
use sidp_client.Transport.WebSocket.Fragments.{is_ignored}
use sidp_client.Transport.WebSocket.Receive.{
  handle_frame, sync_epoch, handle_data, starts_message, stage_event, reset_staging,
}
use sidp_client.Transport.WebSocket.Staging.{IsChunk, Stages}
use sidp_client.Transport.WebSocket.State.{EventData, Websocket}

module _ {R E : Type 0} (port : Port R E) (line : Line E) where
  -- The events of the client, one after the other.
  unfoldable pub handle_events : List EventData → Websocket R E → Websocket R E
  handle_events [] w = w
  handle_events (event ∷ rest) w = handle_events rest (handle_data port line event w)

  pub handle_events-append :
      (a b : List EventData) (w : Websocket R E)
      → handle_events (a ++ b) w ≡ handle_events b (handle_events a w)
  unfolding handle_events
  handle_events-append [] b w = refl
  handle_events-append (event ∷ a) b w = handle_events-append a b (handle_data port line event w)

  module _ (q : Queue R E) (opened : is_open line q ≡ true) where
    is_open_still : (w : Websocket R E) → w.queue ≡ q → is_open line w.queue ≡ true
    is_open_still w h = ap (is_open line) h ∙ opened

    unfoldable pub start_frame : Websocket R E → Websocket R E
    start_frame w = record (reset_staging (sync_epoch true w)) { staging_active = true }

    pub start_frame-Stages :
        (w : Websocket R E) → w.queue ≡ q → Stages port line q [] (start_frame w)
    unfolding start_frame sync_epoch reset_staging
    start_frame-Stages w h =
        let e : w.queue.epoch ≡ q.epoch = ap (λ (t : Queue R E). t.epoch) h in
        record {
          same_queue = ground (arith, h);
          same_epoch = ground (arith, e);
          active = ground arith;
          staged = λ fit. ground arith;
          kept = λ fit. ground arith;
          dropped = λ over. ground arith;
        }

    pub handle_data-start :
        (event : EventData) (c : List ℕ) (w : Websocket R E)
        → IsChunk event c
        → starts_message event ≡ true
        → w.queue ≡ q
        → handle_data port line event w ≡ stage_event port line q.epoch event (start_frame w)
    unfolding handle_data handle_frame start_frame
    handle_data-start event c w chunk start h =
        let e : w.queue.epoch ≡ q.epoch = ap (λ (t : Queue R E). t.epoch) h in
        let o = is_open_still w h in ground (arith, e, o, chunk.sound, chunk.carries, start)

    pub handle_data-next :
        (event : EventData) (s c : List ℕ) (w : Websocket R E)
        → IsChunk event c
        → starts_message event ≡ false
        → Stages port line q s w
        → handle_data port line event w ≡ stage_event port line q.epoch event w
    unfolding handle_data handle_frame sync_epoch
    handle_data-next event s c w chunk start h =
        let e : w.queue.epoch ≡ q.epoch = ap (λ (t : Queue R E). t.epoch) h.same_queue in
        let o = is_open_still w h.same_queue in
        ground (arith, e, o, chunk.sound, chunk.carries, start, h.active, h.same_epoch)

    pub ignored_lem :
        (event : EventData) (w : Websocket R E)
        → is_ignored event ≡ true
        → w.queue ≡ q
        → (handle_data port line event w).queue ≡ q
    unfolding handle_data sync_epoch reset_staging
    ignored_lem event w i h = ground (arith, h)

    pub ignored-Stages :
        (event : EventData) (s : List ℕ) (w : Websocket R E)
        → is_ignored event ≡ true
        → Stages port line q s w
        → handle_data port line event w ≡ w
    unfolding handle_data sync_epoch reset_staging
    ignored-Stages event s w i h =
        let e : w.queue.epoch ≡ q.epoch = ap (λ (t : Queue R E). t.epoch) h.same_queue in
        let o = is_open_still w h.same_queue in ground (arith, e, o, h.same_epoch)
