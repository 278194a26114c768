-- ===== src/Transport/Refines.antt =====
-- The events of the TX task, the reader and the start of a session.
use sidp_client.Transport.Views.{sent_event}
use sidp_client.Transport.Queue.{deliver_packet}
use sidp_client.Transport.Views.{is_late}
use sidp_client.Transport.Views.{is_malformed}
use sidp_client.Transport.Views.{heard_event}
use sidp_client.Transport.Views.{taken_event}
use sidp_client.Transport.Views.{fetched_event}
use sidp_client.Backend.{is_ok}
use sidp_client.Backend.{EspErr}
use sidp_client.Base.{
  ℕ, ◌+◌, ◌≡◌, refl, sym, ap, subst, ◌∙◌, Bool, true, false, not, ◌||◌, Option, none, some, List,
  [], arith, u32, if◌then◌else◌,
}
use sidp_client.Transport.Moves.{step_read, Move, step_take, Shared}
use sidp_client.Transport.Port.{Port, Line, RingLaws}
use sidp_client.Transport.Queue.{
  close_locked, refuses_read, take_frame, TxItem, refuses_session, return_frame, write_message,
  return_ring, finish_tx, end_read, begin_session, take_control, receive_ring, take_log, is_open,
  is_missing, read_packet, write_message_log, close_session,
}
use sidp_client.Transport.Rings.{
  held, held-receive_none, held-return_ring, held-drain, held-receive_ring,
}
use sidp_client.Transport.Spec.{Event, View, closed_view, Does}
use sidp_client.Transport.State.{decrement, Queue}
use sidp_client.Transport.Views.{
  link_changed-Does, is_open-live, enqueue-Does, deliver_packet-Does, view-close_locked, view_with,
  closes, view, sent_frame,
}

module _ {R E : Type 0} (port : Port R E) (line : Line E) (laws : RingLaws port) where
  take_log-Does :
      (q : Queue R E) (b : Option (List ℕ))
      → q.dead ≡ false
      → held port laws q.tx_ring ≡ []
      → (o : Option (List ℕ × R)) → receive_ring port q.log_ring ≡ o
      → Does
          (view_with port line laws q b none)
          (taken_event (take_log port o q).0)
          (view_with port line laws (take_log port o q).1 b (take_log port o q).0)
  unfolding take_log view_with
  take_log-Does q b live clear none e = Does.quiet
  take_log-Does q b live clear (some (m, r)) e =
      Does.take_any_log m (held port laws (some r)) (ap not live) refl clear
        (held-receive_ring port laws m q.log_ring r e) refl

  take_control-Does :
      (q : Queue R E) (b : Option (List ℕ))
      → q.dead ≡ false
      → (o : Option (List ℕ × R)) → receive_ring port q.tx_ring ≡ o
      → Does
          (view_with port line laws q b none)
          (taken_event (take_control port o q).0)
          (view_with port line laws (take_control port o q).1 b (take_control port o q).0)
  unfolding take_control view_with
  take_control-Does q b live none e =
      take_log-Does q b live (held-receive_none port laws q.tx_ring e)
        (receive_ring port q.log_ring) refl
  take_control-Does q b live (some (m, r)) e =
      Does.take_first m (held port laws (some r)) (ap not live) refl
        (held-receive_ring port laws m q.tx_ring r e) refl

  take_frame-Does :
      (q : Queue R E) (b : Option (List ℕ))
      → Does
          (view_with port line laws q b none)
          (taken_event (take_frame port line q).0)
          (view_with port line laws (take_frame port line q).1 b (take_frame port line q).0)
  unfolding take_frame
  take_frame-Does q b =
      by_test (not (is_open line q) || q.tx_busy)
        (λ h. is_open-live port line laws q (ground arith))
    where
      next : Option TxItem × Queue R E
      next = take_control port (receive_ring port q.tx_ring) q

      by_test :
          (shut : Bool)
          → (shut ≡ false → q.dead ≡ false)
          → Does
              (view_with port line laws q b none)
              (taken_event (if shut then (none, q) else next).0)
              (view_with port line laws
                (if shut then (none, q) else next).1
                b
                (if shut then (none, q) else next).0)
      by_test true live = Does.quiet
      by_test false live = take_control-Does q b (live refl) (receive_ring port q.tx_ring) refl

  view-return_frame :
      (item : TxItem) (q : Queue R E) (b : Option (List ℕ)) (f : Option TxItem)
      → view_with port line laws (return_frame port item q) b f ≡ view_with port line laws q b f
  unfolding return_frame view_with
  view-return_frame item q b f = by_ring item.log
    where
      by_ring :
          (log : Bool)
          → view_with port line laws
              (if log
                then record q { log_ring = return_ring port item.frame q.log_ring }
                else record q { tx_ring = return_ring port item.frame q.tx_ring })
              b
              f
            ≡ view_with port line laws q b f
      by_ring true = rw (held-return_ring port laws item.frame q.log_ring) refl
      by_ring false = rw (held-return_ring port laws item.frame q.tx_ring) refl

  finish_tx-Does :
      (item : TxItem) (sent : Bool) (q : Queue R E) (b : Option (List ℕ))
      → Does
          (view_with port line laws q b (some item))
          (if sent then Event.finished else Event.closed)
          (view_with port line laws (finish_tx port item sent q) b none)
  unfolding finish_tx view_with
  finish_tx-Does item true q b =
      Does.finish (ap (λ (v : View). record v { sending = none }) (view-return_frame item q b none))
  finish_tx-Does item false q b =
      let t = return_frame port item q in
      let u = record t { tx_dropped = u32 (t.tx_dropped + 1) } in
      Does.fail (
        ap (λ (v : View). record v { sending = none }) (view-close_locked port line laws u b none)
        ∙ ap (λ (v : View). record (closed_view v) { sending = none })
            (view-return_frame item q b none))

  begin_session-Does :
      (q : Queue R E) (b : Option (List ℕ)) (f : Option TxItem)
      → (q.rx_borrowed ≡ 0 → b ≡ none)
      → (q.tx_busy ≡ false → f ≡ none)
      → Does
          (view_with port line laws q b f)
          (if is_ok (begin_session port line q).0 then Event.began else Event.quiet)
          (view_with port line laws (begin_session port line q).1 b f)
  unfolding begin_session refuses_session view_with close_locked
  begin_session-Does q b f back idle =
      by_test (refuses_session line q) (λ h. ground arith) (λ h. back (ground arith))
        (λ h. idle (ground arith))
    where
      opened : Queue R E
      opened =
          let t = close_locked port q in
          record t {
            env = line.reset_wire_buffers t.env;
            accepted_link_serial = t.link_serial;
            dead = false;
          }

      begun : Bool → EspErr × Queue R E
      begun refuses = if refuses then (EspErr.invalid_state, q) else (EspErr.esp_ok, opened)

      by_test :
          (refuses : Bool)
          → (refuses ≡ false → q.dead ≡ true)
          → (refuses ≡ false → b ≡ none)
          → (refuses ≡ false → f ≡ none)
          → Does
              (view_with port line laws q b f)
              (if is_ok (begun refuses).0 then Event.began else Event.quiet)
              (view_with port line laws (begun refuses).1 b f)
      by_test true dead nb nf = Does.quiet
      by_test false dead nb nf =
          Does.begin (ap not (dead refl)) (nb refl) (ap sent_frame (nf refl)) (
            rw
              (
                held-drain port laws q.ring_buffer,
                held-drain port laws q.tx_ring,
                held-drain port laws q.log_ring,
                nb refl,
                nf refl,
              )
              refl)

  end_read-Does :
      (p : List ℕ) (q : Queue R E) (f : Option TxItem)
      → Does
          (view_with port line laws q (some p) f)
          Event.ended
          (view_with port line laws (end_read port (some p) q) none f)
  unfolding end_read view_with
  end_read-Does p q f = Does.end (by_test (is_missing q.ring_buffer))
    where
      returned : Queue R E
      returned = record q {
        ring_buffer = return_ring port p q.ring_buffer;
        rx_borrowed = decrement q.rx_borrowed;
      }

      by_test :
          (missing : Bool)
          → view_with port line laws (if missing then q else returned) none f
            ≡ record (view_with port line laws q (some p) f) { reading = none }
      by_test true = refl
      by_test false = rw (held-return_ring port laws p q.ring_buffer) refl

  step_read-Does :
      (s : Shared R E)
      → s.reading ≡ none
      → Does
          (view port line laws s)
          (fetched_event (step_read port line s).reading)
          (view port line laws (step_read port line s))
  unfolding step_read read_packet refuses_read view view_with
  step_read-Does s h =
      by_test (refuses_read line s.queue) (λ k. is_open-live port line laws s.queue (ground arith))
    where
      received : Option (List ℕ × R) → Shared R E
      received o = record s {
        queue = (read_packet port o s.queue).1;
        reading = (read_packet port o s.queue).0;
      }

      by_packet :
          s.queue.dead ≡ false
          → (o : Option (List ℕ × R)) → receive_ring port s.queue.ring_buffer ≡ o
          → Does
              (view port line laws s)
              (fetched_event (received o).reading)
              (view port line laws (received o))
      by_packet live none e =
          subst
            (λ x.
              Does (view_with port line laws s.queue x s.sending) Event.quiet
                (view_with port line laws s.queue none s.sending))
            (sym h) Does.quiet
      by_packet live (some (p, r)) e =
          Does.fetch p (held port laws (some r)) (ap not live)
            (held-receive_ring port laws p s.queue.ring_buffer r e) h refl

      outcome : Bool → Shared R E
      outcome shut = if shut then s else received (receive_ring port s.queue.ring_buffer)

      by_test :
          (shut : Bool)
          → (shut ≡ false → s.queue.dead ≡ false)
          → Does
              (view port line laws s)
              (fetched_event (outcome shut).reading)
              (view port line laws (outcome shut))
      by_test true live =
          subst (λ x. Does (view port line laws s) (fetched_event x) (view port line laws s))
            (sym h) Does.quiet
      by_test false live = by_packet (live refl) (receive_ring port s.queue.ring_buffer) refl

  -- The event of a step, from the results that the source returns to the task that takes it.
  abbrev pub event_of : {s t : Shared R E} → Move port line s t → Event
  event_of (Move.elapse e) = Event.quiet
  event_of (Move.link up) = Event.closed
  event_of Move.close = Event.closed
  event_of {s} Move.begin =
      if is_ok (begin_session port line s.queue).0 then Event.began else Event.quiet
  event_of {s} (Move.deliver p n) =
      heard_event p (is_malformed port line laws p) (is_late port line laws n s.queue)
        (deliver_packet port line p n s.queue).dead
  event_of {s} (Move.write m) = sent_event false m (write_message port line m s.queue).0
  event_of {s} (Move.log m) = sent_event true m (write_message_log port line m s.queue).0
  event_of {s} (Move.read h) = fetched_event (step_read port line s).reading
  event_of (Move.end_reading p h) = Event.ended
  event_of {s} (Move.take_next h) = taken_event (step_take port line s).sending
  event_of (Move.finish item sent h) = if sent then Event.finished else Event.closed

  pub Move-Does :
      {s t : Shared R E}
      → (s.queue.rx_borrowed ≡ 0 → s.reading ≡ none)
      → (s.queue.tx_busy ≡ false → s.sending ≡ none)
      → (move : Move port line s t)
      → Does (view port line laws s) (event_of move) (view port line laws t)
  unfolding view view_with close_session write_message write_message_log step_take
  Move-Does back idle (Move.elapse e) = Does.quiet
  Move-Does {s} back idle (Move.link up) =
      link_changed-Does port line laws up s.queue s.reading s.sending
  Move-Does {s} back idle Move.close = closes port line laws s.queue s.reading s.sending
  Move-Does {s} back idle Move.begin = begin_session-Does s.queue s.reading s.sending back idle
  Move-Does {s} back idle (Move.deliver p n) =
      deliver_packet-Does port line laws p n s.queue s.reading s.sending
  Move-Does {s} back idle (Move.write m) =
      enqueue-Does port line laws m false s.queue s.reading s.sending
  Move-Does {s} back idle (Move.log m) =
      enqueue-Does port line laws m true s.queue s.reading s.sending
  Move-Does {s} back idle (Move.read h) = step_read-Does s h
  Move-Does {s} back idle (Move.end_reading p h) =
      subst
        (λ x.
          Does (view_with port line laws s.queue x s.sending) Event.ended
            (view_with port line laws (end_read port (some p) s.queue) none s.sending))
        (sym h) (end_read-Does p s.queue s.sending)
  Move-Does {s} back idle (Move.take_next h) =
      subst
        (λ x.
          Does (view_with port line laws s.queue s.reading x)
            (taken_event (take_frame port line s.queue).0)
            (view_with port line laws (take_frame port line s.queue).1 s.reading
              (take_frame port line s.queue).0))
        (sym h) (take_frame-Does s.queue s.reading)
  Move-Does {s} back idle (Move.finish item sent h) =
      subst
        (λ x.
          Does (view_with port line laws s.queue s.reading x)
            (if sent then Event.finished else Event.closed)
            (view_with port line laws (finish_tx port item sent s.queue) s.reading none))
        (sym h) (finish_tx-Does item sent s.queue s.reading)
