-- ===== src/Transport/Counts.antt =====
-- The counters of the packet queues under writing, sending and reading.
use sidp_client.Backend.{is_ok, EspErr}
use sidp_client.Base.{
  ℕ, ◌+◌, ◌≤◌, ◌≡◌, refl, ap, ◌≢◌, Bool, true, false, not, ◌||◌, Option, none, some, List, [], ◌∷◌,
  arith, u32, if◌then◌else◌, length-append, length,
}
use sidp_client.Transport.Invariant.{close_locked-IsCounted, IsCounted, waiting}
use sidp_client.Transport.Port.{RingLaws, Line, Port}
use sidp_client.Transport.Queue.{
  send_ring, enqueue_locked, end_read, receive_ring, enqueue, take_frame, take_log, return_ring,
  read_packet, drop_message, take_control, return_frame, is_missing, is_open, TxItem, put_frame,
  check_message,
}
use sidp_client.Transport.Rings.{
  held, held-send_ring, held-few, is_missing-return_ring, held-return_ring, held-receive_ring,
}
use sidp_client.Transport.Setup.{lacks_ring}
use sidp_client.Transport.Sizes
use sidp_client.Transport.State.{decrement, Queue}

incremented :
    (n a b : ℕ) → n ≡ a + b → a ≤ Sizes.queue_size → b ≤ Sizes.queue_size → u32 (n + 1) ≡ a + b + 1
incremented n a b h k l = omega arith

decremented :
    (n a b : ℕ) → n ≡ a + b + 1 → a ≤ Sizes.queue_size → b ≤ Sizes.queue_size → decrement n ≡ a + b
decremented n a b h k l = omega arith

module _ {R E : Type 0} (port : Port R E) (laws : RingLaws port) (q : Queue R E) where
  module _ (b : Option (List ℕ)) (f : Option TxItem) (valid : IsCounted port laws q b f) where
    waiting_sent :
        (m : List ℕ) (o : Option R) (r : R)
        → send_ring port m o ≡ some r
        → waiting port laws (some r) ≡ waiting port laws o + 1
    waiting_sent m o r e = omega (
      arith,
      ap (λ (l : List (List ℕ)). length l) (held-send_ring port laws m o r e),
      length-append {0} (held port laws o) (m ∷ []),
    )

    put_frame-IsCounted :
        (m : List ℕ) (log : Bool) (o : Option R)
        → send_ring port m (if log then q.log_ring else q.tx_ring) ≡ o
        → IsCounted port laws (put_frame port log o q).1 b f
    unfolding put_frame drop_message lacks_ring
    put_frame-IsCounted m true none e = record {
      has_rings = valid.has_rings;
      pending = valid.pending;
      borrowed = valid.borrowed;
      busy = valid.busy;
      open_link = valid.open_link;
      open_serial = valid.open_serial;
    }
    put_frame-IsCounted m false none e =
        close_locked-IsCounted port laws (record q { tx_dropped = u32 (q.tx_dropped + 1) }) b f
          valid.has_rings valid.borrowed valid.busy
    put_frame-IsCounted m true (some r) e = record {
      has_rings = ground (arith, valid.has_rings);
      pending = omega (
        arith,
        incremented q.tx_pending (waiting port laws q.tx_ring) (waiting port laws q.log_ring)
            valid.pending (held-few port laws q.tx_ring) (held-few port laws q.log_ring),
        waiting_sent m q.log_ring r e,
      );
      borrowed = valid.borrowed;
      busy = valid.busy;
      open_link = valid.open_link;
      open_serial = valid.open_serial;
    }
    put_frame-IsCounted m false (some r) e = record {
      has_rings = ground (arith, valid.has_rings);
      pending = omega (
        arith,
        incremented q.tx_pending (waiting port laws q.tx_ring) (waiting port laws q.log_ring)
            valid.pending (held-few port laws q.tx_ring) (held-few port laws q.log_ring),
        waiting_sent m q.tx_ring r e,
      );
      borrowed = valid.borrowed;
      busy = valid.busy;
      open_link = valid.open_link;
      open_serial = valid.open_serial;
    }

    pub enqueue-IsCounted :
        (line : Line E) (m : List ℕ) (log : Bool)
        → IsCounted port laws (enqueue port line m log q).1 b f
    unfolding enqueue enqueue_locked
    enqueue-IsCounted line m log =
        by_tests (is_ok (check_message m log)) (not (is_open line q) || is_missing q.tx_ring)
      where
        ring : Option R
        ring = if log then q.log_ring else q.tx_ring

        by_tests :
            (sound shut : Bool)
            → IsCounted port laws
                (if sound
                  then (if shut
                      then (EspErr.invalid_state, q)
                      else put_frame port log (send_ring port m ring) q)
                  else (check_message m log, q)).1
                b
                f
        by_tests false shut = valid
        by_tests true true = valid
        by_tests true false = put_frame-IsCounted m log (send_ring port m ring) refl

  waiting_received :
      (m : List ℕ) (o : Option R) (r : R)
      → receive_ring port o ≡ some (m, r)
      → waiting port laws o ≡ waiting port laws (some r) + 1
  waiting_received m o r e =
      omega (arith, ap (λ (l : List (List ℕ)). length l) (held-receive_ring port laws m o r e))

  module _ (b : Option (List ℕ)) (valid : IsCounted port laws q b none) where
    take_log-IsCounted :
        (o : Option (List ℕ × R))
        → receive_ring port q.log_ring ≡ o
        → IsCounted port laws (take_log port o q).1 b (take_log port o q).0
    unfolding take_log lacks_ring
    take_log-IsCounted none e = valid
    take_log-IsCounted (some (m, r)) e = record {
      has_rings = ground (arith, valid.has_rings);
      pending =
          decremented q.tx_pending (waiting port laws q.tx_ring) (waiting port laws (some r))
            (omega (arith, valid.pending, waiting_received m q.log_ring r e))
            (held-few port laws q.tx_ring) (held-few port laws (some r));
      borrowed = valid.borrowed;
      busy = refl;
      open_link = valid.open_link;
      open_serial = valid.open_serial;
    }

    take_control-IsCounted :
        (o : Option (List ℕ × R))
        → receive_ring port q.tx_ring ≡ o
        → IsCounted port laws (take_control port o q).1 b (take_control port o q).0
    unfolding take_control lacks_ring
    take_control-IsCounted none e = take_log-IsCounted (receive_ring port q.log_ring) refl
    take_control-IsCounted (some (m, r)) e = record {
      has_rings = ground (arith, valid.has_rings);
      pending =
          decremented q.tx_pending (waiting port laws (some r)) (waiting port laws q.log_ring)
            (omega (arith, valid.pending, waiting_received m q.tx_ring r e))
            (held-few port laws (some r)) (held-few port laws q.log_ring);
      borrowed = valid.borrowed;
      busy = refl;
      open_link = valid.open_link;
      open_serial = valid.open_serial;
    }

    pub take_frame-IsCounted :
        (line : Line E)
        → IsCounted port laws (take_frame port line q).1 b (take_frame port line q).0
    unfolding take_frame
    take_frame-IsCounted line = by_test (not (is_open line q) || q.tx_busy)
      where
        taken : Bool → Option TxItem × Queue R E
        taken shut = if shut then (none, q) else take_control port (receive_ring port q.tx_ring) q

        by_test : (shut : Bool) → IsCounted port laws (taken shut).1 b (taken shut).0
        by_test true = valid
        by_test false = take_control-IsCounted (receive_ring port q.tx_ring) refl

  module _ (f : Option TxItem) (valid : IsCounted port laws q none f) where
    pub read_packet-IsCounted :
        (o : Option (List ℕ × R))
        → IsCounted port laws (read_packet port o q).1 (read_packet port o q).0 f
    unfolding read_packet lacks_ring
    read_packet-IsCounted none = valid
    read_packet-IsCounted (some (p, r)) = record {
      has_rings = ground (arith, valid.has_rings);
      pending = valid.pending;
      borrowed = omega (arith, valid.borrowed);
      busy = valid.busy;
      open_link = valid.open_link;
      open_serial = valid.open_serial;
    }

  pub end_read-IsCounted :
      (p : List ℕ) (f : Option TxItem)
      → IsCounted port laws q (some p) f
      → IsCounted port laws (end_read port (some p) q) none f
  unfolding end_read lacks_ring
  end_read-IsCounted p f valid =
      by_test (is_missing q.ring_buffer) (λ h. ground (arith, valid.has_rings))
    where
      returned : Queue R E
      returned = record q {
        ring_buffer = return_ring port p q.ring_buffer;
        rx_borrowed = decrement q.rx_borrowed;
      }

      by_test :
          (missing : Bool)
          → missing ≢ true
          → IsCounted port laws (if missing then q else returned) none f
      by_test true k = absurd (k refl)
      by_test false k = record {
        has_rings = rw (is_missing-return_ring port laws p q.ring_buffer) (valid.has_rings);
        pending = valid.pending;
        borrowed = omega (arith, valid.borrowed);
        busy = valid.busy;
        open_link = valid.open_link;
        open_serial = valid.open_serial;
      }

  pub return_frame-IsCounted :
      (item : TxItem) (b : Option (List ℕ))
      → (f : Option TxItem) → IsCounted port laws q b f
      → IsCounted port laws (return_frame port item q) b f
  unfolding return_frame lacks_ring
  return_frame-IsCounted item b f valid = by_ring item.log
    where
      by_ring :
          (log : Bool)
          → IsCounted port laws
              (if log
                then record q { log_ring = return_ring port item.frame q.log_ring }
                else record q { tx_ring = return_ring port item.frame q.tx_ring })
              b
              f
      by_ring true = record {
        has_rings = rw (is_missing-return_ring port laws item.frame q.log_ring) (valid.has_rings);
        pending = rw (held-return_ring port laws item.frame q.log_ring) (valid.pending);
        borrowed = valid.borrowed;
        busy = valid.busy;
        open_link = valid.open_link;
        open_serial = valid.open_serial;
      }
      by_ring false = record {
        has_rings = rw (is_missing-return_ring port laws item.frame q.tx_ring) (valid.has_rings);
        pending = rw (held-return_ring port laws item.frame q.tx_ring) (valid.pending);
        borrowed = valid.borrowed;
        busy = valid.busy;
        open_link = valid.open_link;
        open_serial = valid.open_serial;
      }
