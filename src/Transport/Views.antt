-- ===== src/Transport/Views.antt =====
-- The packet queues seen as lists, and the events of closing, delivering and writing.
use sidp_client.Base.{sym}
use sidp_client.Base.{◌&&◌}
use sidp_client.Base.{subst}
use sidp_client.Backend.{EspErr, is_ok}
use sidp_client.Base.{
  ℕ, ◌+◌, ◌≡◌, refl, ap, Bool, true, false, not, ◌||◌, Option, none, some, List, arith, u32, u64,
  ◌==◌, if◌then◌else◌, length, field,
}
use sidp_client.Crc.{is_valid_message_size, verify_message_crc}
use sidp_client.Defs.{kind_log_stream}
use sidp_client.Defs.Limits
use sidp_client.Transport.Moves.{Shared}
use sidp_client.Transport.Port.{Port, Line, RingLaws}
use sidp_client.Transport.Queue.{
  check_message, deliver_packet, is_missing, drop_message, close_locked, accept_packet, is_open,
  put_frame, send_ring, TxItem, enqueue_locked, enqueue, link_changed,
}
use sidp_client.Transport.Rings.{held, held-drain, held-send_ring}
use sidp_client.Transport.Sizes
use sidp_client.Transport.Spec.{closed_view, Event, Does, View, IsPacket, IsFrame}
use sidp_client.Transport.State.{Queue}

abbrev pub sent_frame : Option TxItem → Option (List ℕ)
sent_frame none = none
sent_frame (some item) = some item.frame

packet_lem :
    (p : List ℕ)
    → (not (is_valid_message_size (length p)) || not (verify_message_crc p)) ≡ false
    → field p 0 1 ≡ Limits.protocol_version
    → IsPacket p
unfolding is_valid_message_size
packet_lem p sound known = record {
  long_enough = ground arith;
  short_enough = ground arith;
  crc_matches = ground arith;
  known_version = known;
}

-- What the task that calls an operation may conclude from its result.
abbrev is_full : EspErr → Bool
is_full EspErr.no_mem = true
is_full _ = false

-- `write_message` and `write_message_log`: `ESP_OK` means that the frame is queued, and
-- `ESP_ERR_NO_MEM` for a frame that is no log that the session has ended.
abbrev pub sent_event : Bool → List ℕ → EspErr → Event
sent_event log m err =
    if is_ok err
    then (if log then Event.logged m else Event.wrote m)
    else if is_full err && not log
    then Event.closed
    else Event.quiet

-- `deliver_packet`, by whether the packet is malformed, whether it is not for this session, and
-- whether the session is dead afterwards.
abbrev pub heard_event : List ℕ → Bool → Bool → Bool → Event
heard_event p bad late dead =
    if bad
    then Event.quiet
    else if late
    then Event.quiet
    else if dead
    then Event.closed
    else Event.heard p

-- `start_read`, by the packet it gives; the first half of `service_tx`, by the frame it takes.
abbrev pub fetched_event : Option (List ℕ) → Event
fetched_event none = Event.quiet
fetched_event (some p) = Event.fetched p

abbrev pub taken_event : Option TxItem → Event
taken_event none = Event.quiet
taken_event (some item) = if item.log then Event.took_log item.frame else Event.took item.frame

check_message-quiet :
    (m : List ℕ) (log : Bool)
    → is_ok (check_message m log) ≡ false
    → sent_event log m (check_message m log) ≡ Event.quiet
unfolding check_message
check_message-quiet m log failed = ground arith

abbrev limit : Bool → ℕ
limit log = if log then Sizes.max_log_frame_size else Limits.max_frame_size

check_message-Frame :
    (m : List ℕ) (log : Bool) → is_ok (check_message m log) ≡ true → IsFrame (limit log) m
unfolding check_message
check_message-Frame m log sound = record { long_enough = ground arith; short_enough = ground arith }

check_message-kind :
    (m : List ℕ) → is_ok (check_message m true) ≡ true → field m 1 1 ≡ kind_log_stream
unfolding check_message
check_message-kind m sound = ground arith

module _ {R E : Type 0} (port : Port R E) (line : Line E) (laws : RingLaws port) where
  unfoldable pub view_with : Queue R E → Option (List ℕ) → Option TxItem → View
  view_with q reading sending = record {
    live = not q.dead;
    inbox = held port laws q.ring_buffer;
    control = held port laws q.tx_ring;
    logs = held port laws q.log_ring;
    reading = reading;
    sending = sent_frame sending;
  }

  unfoldable pub view : Shared R E → View
  view s = view_with s.queue s.reading s.sending

  pub view-close_locked :
      (q : Queue R E) (b : Option (List ℕ)) (f : Option TxItem)
      → view_with (close_locked port q) b f ≡ closed_view (view_with q b f)
  unfolding view_with close_locked
  view-close_locked q b f =
      rw
        (
          held-drain port laws q.ring_buffer,
          held-drain port laws q.tx_ring,
          held-drain port laws q.log_ring,
        )
        refl

  pub closes :
      (q : Queue R E) (b : Option (List ℕ)) (f : Option TxItem)
      → Does (view_with q b f) Event.closed (view_with (close_locked port q) b f)
  closes q b f = Does.close (view-close_locked q b f)

  pub link_changed-Does :
      (up : Bool) (q : Queue R E) (b : Option (List ℕ)) (f : Option TxItem)
      → Does (view_with q b f) Event.closed (view_with (link_changed port up q) b f)
  unfolding link_changed view_with
  link_changed-Does up q b f =
      closes
        (record q {
          connected = up;
          link_serial = if up then u64 (q.link_serial + 1) else q.link_serial;
        })
        b f

  accept_packet-Does :
      (p : List ℕ) (q : Queue R E) (b : Option (List ℕ)) (f : Option TxItem)
      → IsPacket p
      → q.dead ≡ false
      → let t = accept_packet port (send_ring port p q.ring_buffer) q in
        Does (view_with q b f) (if t.dead then Event.closed else Event.heard p) (view_with t b f)
  unfolding accept_packet view_with close_locked
  accept_packet-Does p q b f good live = by_result (send_ring port p q.ring_buffer) refl
    where
      by_result :
          (o : Option R)
          → send_ring port p q.ring_buffer ≡ o
          → Does
              (view_with q b f)
              (if (accept_packet port o q).dead then Event.closed else Event.heard p)
              (view_with (accept_packet port o q) b f)
      by_result none e = closes q b f
      by_result (some r) e =
          subst
            (λ d.
              Does (view_with q b f) (if d then Event.closed else Event.heard p)
                (view_with (record q { ring_buffer = some r }) b f))
            (sym live)
            (Does.hear p good (ap not live)
              (rw (held-send_ring port laws p q.ring_buffer r e) refl))

  pub is_open-live : (q : Queue R E) → is_open line q ≡ true → q.dead ≡ false
  unfolding is_open
  is_open-live q h = ground arith

  -- What makes `deliver_packet` pass a packet over.
  abbrev pub is_malformed : List ℕ → Bool
  is_malformed p = not (is_valid_message_size (length p)) || not (verify_message_crc p)

  abbrev pub is_late : ℕ → Queue R E → Bool
  is_late n q = not (is_open line q) || not (n == q.epoch)

  pub deliver_packet-Does :
      (p : List ℕ) (n : ℕ) (q : Queue R E) (b : Option (List ℕ)) (f : Option TxItem)
      → let t = deliver_packet port line p n q in
        Does
          (view_with q b f)
          (heard_event p (is_malformed p) (is_late n q) t.dead)
          (view_with t b f)
  unfolding deliver_packet close_locked
  deliver_packet-Does p n q b f =
      by_tests (is_malformed p) (is_late n q) (not (field p 0 1 == Limits.protocol_version))
        (λ h. is_open-live q (ground arith)) (λ h k. packet_lem p h (ground arith))
    where
      outcome : Bool → Bool → Bool → Queue R E
      outcome bad late strange =
          if bad
          then q
          else if late
          then q
          else if strange
          then close_locked port q
          else accept_packet port (send_ring port p q.ring_buffer) q

      by_tests :
          (bad late strange : Bool)
          → (late ≡ false → q.dead ≡ false)
          → (bad ≡ false → strange ≡ false → IsPacket p)
          → Does
              (view_with q b f)
              (heard_event p bad late (outcome bad late strange).dead)
              (view_with (outcome bad late strange) b f)
      by_tests true late strange live good = Does.quiet
      by_tests false true strange live good = Does.quiet
      by_tests false false true live good = closes q b f
      by_tests false false false live good = accept_packet-Does p q b f (good refl refl) (live refl)

  put_frame-Does :
      (m : List ℕ) (log : Bool) (q : Queue R E) (b : Option (List ℕ)) (f : Option TxItem)
      → is_ok (check_message m log) ≡ true
      → q.dead ≡ false
      → (o : Option R) → send_ring port m (if log then q.log_ring else q.tx_ring) ≡ o
      → Does
          (view_with q b f)
          (sent_event log m (put_frame port log o q).0)
          (view_with (put_frame port log o q).1 b f)
  unfolding put_frame drop_message view_with
  put_frame-Does m true q b f sound live none e = Does.quiet
  put_frame-Does m false q b f sound live none e =
      closes (record q { tx_dropped = u32 (q.tx_dropped + 1) }) b f
  put_frame-Does m true q b f sound live (some r) e =
      Does.log m (check_message-Frame m true sound) (check_message-kind m sound) (ap not live)
        (rw (held-send_ring port laws m q.log_ring r e) refl)
  put_frame-Does m false q b f sound live (some r) e =
      Does.write m (check_message-Frame m false sound) (ap not live)
        (rw (held-send_ring port laws m q.tx_ring r e) refl)

  pub enqueue-Does :
      (m : List ℕ) (log : Bool) (q : Queue R E) (b : Option (List ℕ)) (f : Option TxItem)
      → Does
          (view_with q b f)
          (sent_event log m (enqueue port line m log q).0)
          (view_with (enqueue port line m log q).1 b f)
  unfolding enqueue enqueue_locked
  enqueue-Does m log q b f =
      by_tests (is_ok (check_message m log)) (not (is_open line q) || is_missing q.tx_ring) refl
        (λ h. is_open-live q (ground arith))
    where
      ring : Option R
      ring = if log then q.log_ring else q.tx_ring

      outcome : Bool → Bool → EspErr × Queue R E
      outcome sound shut =
          if sound
          then (if shut
              then (EspErr.invalid_state, q)
              else put_frame port log (send_ring port m ring) q)
          else (check_message m log, q)

      by_tests :
          (sound shut : Bool)
          → is_ok (check_message m log) ≡ sound
          → (shut ≡ false → q.dead ≡ false)
          → Does
              (view_with q b f)
              (sent_event log m (outcome sound shut).0)
              (view_with (outcome sound shut).1 b f)
      by_tests false shut e live =
          subst (λ x. Does (view_with q b f) x (view_with q b f))
            (sym (check_message-quiet m log e)) Does.quiet
      by_tests true true e live = Does.quiet
      by_tests true false e live =
          put_frame-Does m log q b f e (live refl) (send_ring port m ring) refl
