-- ===== src/Transport/Invariant.antt =====
-- What the counters and the flags of the packet queues say of the rings and of the tasks, in every
-- state that the tasks can reach.
use sidp_client.Backend.{EspErr}
use sidp_client.Base.{
  ℕ, ◌+◌, ◌≡◌, refl, Bool, true, false, not, ◌||◌, Option, none, some, List, arith, u64, ◌==◌,
  if◌then◌else◌, length, field,
}
use sidp_client.Crc.{is_valid_message_size, verify_message_crc}
use sidp_client.Defs.Limits
use sidp_client.Transport.Port.{Line, Port, RingLaws}
use sidp_client.Transport.Queue.{
  is_open, refuses_session, link_changed, accept_packet, link_is_connected, TxItem, deliver_packet,
  close_locked, is_missing, begin_session, send_ring,
}
use sidp_client.Transport.Rings.{is_missing-drain, held, held-drain}
use sidp_client.Transport.Setup.{lacks_ring}
use sidp_client.Transport.State.{Queue}

abbrev pub one_if : {A : Type 0} → Option A → ℕ
one_if none = 0
one_if (some a) = 1

module _ {R E : Type 0} (port : Port R E) (laws : RingLaws port) where
  abbrev pub waiting : Option R → ℕ
  waiting o = length (held port laws o)

  pub record IsCounted (q : Queue R E) (reading : Option (List ℕ)) (sending : Option TxItem)
      : Type 0 where
    pub has_rings : lacks_ring q ≡ false
    pub pending : q.tx_pending ≡ waiting q.tx_ring + waiting q.log_ring
    pub borrowed : q.rx_borrowed ≡ one_if reading
    pub busy : q.tx_busy ≡ not (is_missing sending)
    pub open_link : q.dead ≡ false → q.connected ≡ true
    pub open_serial : q.dead ≡ false → q.accepted_link_serial ≡ q.link_serial

  refuses_session-link :
      (line : Line E) (q : Queue R E) → refuses_session line q ≡ false → q.connected ≡ true
  unfolding refuses_session link_is_connected
  refuses_session-link line q h = ground arith

  pub close_locked-IsCounted :
      (q : Queue R E) (b : Option (List ℕ)) (f : Option TxItem)
      → lacks_ring q ≡ false
      → q.rx_borrowed ≡ one_if b
      → q.tx_busy ≡ not (is_missing f)
      → IsCounted (close_locked port q) b f
  unfolding close_locked lacks_ring
  close_locked-IsCounted q b f rings borrowed busy = record {
    has_rings =
        rw
          (
            is_missing-drain port laws q.ring_buffer,
            is_missing-drain port laws q.tx_ring,
            is_missing-drain port laws q.log_ring,
          )
          rings;
    pending = rw (held-drain port laws q.tx_ring, held-drain port laws q.log_ring) (refl);
    borrowed = borrowed;
    busy = busy;
    open_link = λ h. absurd (cc);
    open_serial = λ h. absurd (cc);
  }

  module _ (q : Queue R E) (b : Option (List ℕ)) (f : Option TxItem) (valid : IsCounted q b f) where
    pub closed-IsCounted : IsCounted (close_locked port q) b f
    closed-IsCounted = close_locked-IsCounted q b f valid.has_rings valid.borrowed valid.busy

    pub link_changed-IsCounted : (up : Bool) → IsCounted (link_changed port up q) b f
    unfolding link_changed lacks_ring
    link_changed-IsCounted up =
        close_locked-IsCounted
          (record q {
            connected = up;
            link_serial = if up then u64 (q.link_serial + 1) else q.link_serial;
          })
          b f valid.has_rings valid.borrowed valid.busy

    pub begin_session-IsCounted : (line : Line E) → IsCounted (begin_session port line q).1 b f
    unfolding begin_session close_locked lacks_ring
    begin_session-IsCounted line =
        by_test (refuses_session line q) (λ h. refuses_session-link line q h)
      where
        opened : Queue R E
        opened =
            let t = close_locked port q in
            record t {
              env = line.reset_wire_buffers t.env;
              accepted_link_serial = t.link_serial;
              dead = false;
            }

        begun : Bool → EspErr × Queue R E
        begun refuses = if refuses then (EspErr.invalid_state, q) else (EspErr.esp_ok, opened)

        by_test :
            (refuses : Bool)
            → (refuses ≡ false → q.connected ≡ true)
            → IsCounted (begun refuses).1 b f
        by_test true up = valid
        by_test false up = record {
          has_rings = closed-IsCounted.has_rings;
          pending = closed-IsCounted.pending;
          borrowed = valid.borrowed;
          busy = valid.busy;
          open_link = λ h. up refl;
          open_serial = λ h. refl;
        }

    accept_packet-IsCounted : (o : Option R) → IsCounted (accept_packet port o q) b f
    unfolding accept_packet lacks_ring
    accept_packet-IsCounted none = closed-IsCounted
    accept_packet-IsCounted (some r) = record {
      has_rings = ground (arith, valid.has_rings);
      pending = valid.pending;
      borrowed = valid.borrowed;
      busy = valid.busy;
      open_link = valid.open_link;
      open_serial = valid.open_serial;
    }

    pub deliver_packet-IsCounted :
        (line : Line E) (p : List ℕ) (n : ℕ) → IsCounted (deliver_packet port line p n q) b f
    unfolding deliver_packet
    deliver_packet-IsCounted line p n =
        by_tests (not (is_valid_message_size (length p)) || not (verify_message_crc p))
          (not (is_open line q) || not (n == q.epoch))
          (not (field p 0 1 == Limits.protocol_version))
      where
        by_tests :
            (bad late strange : Bool)
            → IsCounted
                (if bad
                  then q
                  else if late
                  then q
                  else if strange
                  then close_locked port q
                  else accept_packet port (send_ring port p q.ring_buffer) q)
                b
                f
        by_tests true late strange = valid
        by_tests false true strange = valid
        by_tests false false true = closed-IsCounted
        by_tests false false false = accept_packet-IsCounted (send_ring port p q.ring_buffer)
