-- ===== src/Transport/Links.antt =====
-- A physical link carries one session.
use sidp_client.Base.{if◌then◌else◌}
use sidp_client.Backend.{EspErr}
use sidp_client.Base.{ℕ, ◌≡◌, Bool, true, false, Option, none, some, List, arith}
use sidp_client.Transport.Moves.{on_queue, step_read, Move, Shared, step_take}
use sidp_client.Transport.Port.{Port, Line}
use sidp_client.Transport.Queue.{
  return_frame, refuses_session, send_ring, finish_tx, TxItem, end_read, enqueue_locked,
  close_locked, take_frame, take_log, begin_session, drop_message, deliver_packet,
  write_message_log, link_changed, accept_packet, put_frame, enqueue, write_message, read_packet,
  close_session, take_control, receive_ring,
}
use sidp_client.Transport.State.{Queue}

module _ {R E : Type 0} (port : Port R E) (line : Line E) where
  -- The link of the queues has carried a session.
  abbrev pub IsUsed : Queue R E → Type 0
  IsUsed q = q.accepted_link_serial ≡ q.link_serial

  abbrev pub is_link_up : {s t : Shared R E} → Move port line s t → Bool
  is_link_up (Move.link up) = up
  is_link_up _ = false

  accept_packet-IsUsed : (o : Option R) (q : Queue R E) → IsUsed q → IsUsed (accept_packet port o q)
  unfolding accept_packet close_locked
  accept_packet-IsUsed none q h = h
  accept_packet-IsUsed (some r) q h = h

  deliver_packet-IsUsed :
      (p : List ℕ) (n : ℕ) (q : Queue R E) → IsUsed q → IsUsed (deliver_packet port line p n q)
  unfolding deliver_packet close_locked
  deliver_packet-IsUsed p n q h =
      let a = accept_packet-IsUsed (send_ring port p q.ring_buffer) q h in ground (arith, a)

  put_frame-IsUsed :
      (log : Bool) (o : Option R) (q : Queue R E) → IsUsed q → IsUsed (put_frame port log o q).1
  unfolding put_frame drop_message close_locked
  put_frame-IsUsed true none q h = h
  put_frame-IsUsed false none q h = h
  put_frame-IsUsed true (some r) q h = h
  put_frame-IsUsed false (some r) q h = h

  enqueue-IsUsed :
      (m : List ℕ) (log : Bool) (q : Queue R E) → IsUsed q → IsUsed (enqueue port line m log q).1
  unfolding enqueue enqueue_locked
  enqueue-IsUsed m log q h =
      let a = put_frame-IsUsed log (send_ring port m (if log then q.log_ring else q.tx_ring)) q h in
      ground (arith, a)

  begin_session-IsUsed : (q : Queue R E) → IsUsed q → IsUsed (begin_session port line q).1
  unfolding begin_session close_locked
  begin_session-IsUsed q h = ground arith

  take_log-IsUsed :
      (o : Option (List ℕ × R)) (q : Queue R E) → IsUsed q → IsUsed (take_log port o q).1
  unfolding take_log
  take_log-IsUsed none q h = h
  take_log-IsUsed (some (m, r)) q h = h

  take_control-IsUsed :
      (o : Option (List ℕ × R)) (q : Queue R E) → IsUsed q → IsUsed (take_control port o q).1
  unfolding take_control
  take_control-IsUsed none q h = take_log-IsUsed (receive_ring port q.log_ring) q h
  take_control-IsUsed (some (m, r)) q h = h

  take_frame-IsUsed : (q : Queue R E) → IsUsed q → IsUsed (take_frame port line q).1
  unfolding take_frame
  take_frame-IsUsed q h =
      let a = take_control-IsUsed (receive_ring port q.tx_ring) q h in ground (arith, a)

  finish_tx-IsUsed :
      (item : TxItem) (sent : Bool) (q : Queue R E) → IsUsed q → IsUsed (finish_tx port item sent q)
  unfolding finish_tx return_frame close_locked
  finish_tx-IsUsed item sent q h = ground arith

  end_read-IsUsed : (p : List ℕ) (q : Queue R E) → IsUsed q → IsUsed (end_read port (some p) q)
  unfolding end_read
  end_read-IsUsed p q h = ground arith

  read_packet-IsUsed :
      (o : Option (List ℕ × R)) (q : Queue R E) → IsUsed q → IsUsed (read_packet port o q).1
  unfolding read_packet
  read_packet-IsUsed none q h = h
  read_packet-IsUsed (some (p, r)) q h = h

  step_read-IsUsed : (s : Shared R E) → IsUsed s.queue → IsUsed (step_read port line s).queue
  unfolding step_read
  step_read-IsUsed s h =
      let a = read_packet-IsUsed (receive_ring port s.queue.ring_buffer) s.queue h in
      ground (arith, a)

  Move-IsUsed :
      {s t : Shared R E}
      → (move : Move port line s t) → is_link_up move ≡ false
      → IsUsed s.queue
      → IsUsed t.queue
  unfolding link_changed close_session close_locked write_message write_message_log step_take
  Move-IsUsed (Move.elapse e) no_up h = h
  Move-IsUsed {s} (Move.link up) no_up h = ground arith
  Move-IsUsed Move.close no_up h = h
  Move-IsUsed {s} Move.begin no_up h = begin_session-IsUsed s.queue h
  Move-IsUsed {s} (Move.deliver p n) no_up h = deliver_packet-IsUsed p n s.queue h
  Move-IsUsed {s} (Move.write m) no_up h = enqueue-IsUsed m false s.queue h
  Move-IsUsed {s} (Move.log m) no_up h = enqueue-IsUsed m true s.queue h
  Move-IsUsed {s} (Move.read k) no_up h = step_read-IsUsed s h
  Move-IsUsed {s} (Move.end_reading p k) no_up h = end_read-IsUsed p s.queue h
  Move-IsUsed {s} (Move.take_next k) no_up h = take_frame-IsUsed s.queue h
  Move-IsUsed {s} (Move.finish item sent k) no_up h = finish_tx-IsUsed item sent s.queue h

  -- Steps in which no new link is reported.
  pub data SameLink (s : Shared R E) : Shared R E → Type 0 where
    here : SameLink s s
    then_move :
        {t u : Shared R E}
        → SameLink s t
        → (move : Move port line t u) → is_link_up move ≡ false
        → SameLink s u

  SameLink-IsUsed : {s t : Shared R E} → SameLink s t → IsUsed s.queue → IsUsed t.queue
  SameLink-IsUsed SameLink.here h = h
  SameLink-IsUsed (SameLink.then_move past move no_up) h =
      Move-IsUsed move no_up (SameLink-IsUsed past h)

  used_refuses : (q : Queue R E) → IsUsed q → (begin_session port line q).0 ≡ EspErr.invalid_state
  unfolding begin_session refuses_session
  used_refuses q h = ground (arith, h)

  begun-IsUsed :
      (q : Queue R E)
      → (begin_session port line q).0 ≡ EspErr.esp_ok
      → IsUsed (begin_session port line q).1
  unfolding begin_session close_locked
  begun-IsUsed q h = ground (arith, h)

  -- After a session has success, `begin_session` refuses until the driver reports a new link, whatever
  -- the tasks do before it: no second session, and no old traffic in a new one, on the same link.
  pub begin_session_once :
      (s t : Shared R E)
      → (begin_session port line s.queue).0 ≡ EspErr.esp_ok
      → SameLink (on_queue (begin_session port line s.queue).1 s) t
      → (begin_session port line t.queue).0 ≡ EspErr.invalid_state
  begin_session_once s t success steps =
      used_refuses t.queue (SameLink-IsUsed steps (begun-IsUsed s.queue success))
