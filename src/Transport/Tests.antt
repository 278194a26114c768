-- ===== src/Transport/Tests.antt =====
-- Runs of the packet queues on small rings.
use sidp_client.Backend.{EspErr}
use sidp_client.Base.{
  ℕ, suc, ◌+◌, ◌<◌, ◌≡◌, refl, Bool, true, false, Option, some, List, [], arith, u32, from_le,
}
use sidp_client.Transport.Links.{SameLink, begin_session_once}
use sidp_client.Transport.Moves.{Shared, step_take, Move, Reaches, on_queue}
use sidp_client.Transport.Port.{Port, Line}
use sidp_client.Transport.Queue.{
  enqueue, drain, drain_items, is_open, begin_session, write_message_log, take_control,
  check_message, put_frame, refuses_session, write_message, close_locked, receive_ring,
  link_is_connected, send_ring, close_session, take_frame, enqueue_locked, link_changed,
}
use sidp_client.Transport.Reached.{IsConsistent, Reaches-IsConsistent, Reaches-InOrder, events}
use sidp_client.Transport.Rings.{items-drain_items}
use sidp_client.Transport.Setup.{create_rings, make_mutex, create_queues, lacks_ring, make_rings}
use sidp_client.Transport.SmallRing.{
  fresh, cable, contents, plugged, get_out, log_frame, Ring, put_in, small_laws, control_frame,
  began_session, small_port,
}
use sidp_client.Transport.Spec.{InOrder, Run}
use sidp_client.Transport.State.{Queue, new_queue}
use sidp_client.Transport.Ticks.{IsLongEnough, timeout_to_ticks_bounds}
use sidp_client.Transport.Timeouts.{start_read-terminates, flush_write-terminates, ClockLaws}
use sidp_client.Transport.Views.{view}
use sidp_client.Transport.Wait.{start_read, timeout_to_ticks, Clock, flush_write}

abbrev logged_one : Shared Ring Bool → Shared Ring Bool
logged_one s = on_queue (write_message_log small_port cable log_frame s.queue).1 s

abbrev wrote_one : Shared Ring Bool → Shared Ring Bool
wrote_one s = on_queue (write_message small_port cable control_frame s.queue).1 s

-- A log and a control frame are queued in a new session, and the TX task takes one.
abbrev busy_queues : Shared Ring Bool
busy_queues = step_take small_port cable (wrote_one (logged_one (began_session (plugged fresh))))

busy_queues-Reaches : Reaches small_port cable busy_queues
unfolding fresh create_queues make_mutex create_rings make_rings lacks_ring close_locked
    begin_session refuses_session link_changed write_message write_message_log enqueue
    enqueue_locked check_message put_frame
busy_queues-Reaches =
    Reaches.next
      (Reaches.next
        (Reaches.next
          (Reaches.next (Reaches.next (Reaches.start true refl) (Move.link true)) Move.begin)
          (Move.log log_frame))
        (Move.write control_frame))
      (Move.take_next refl)

-- The control frame goes first, though the log was queued before it.
busy_queues_sent : busy_queues.sending ≡ some (record { frame = control_frame; log = false })
unfolding fresh create_queues make_mutex create_rings make_rings lacks_ring close_locked
    begin_session refuses_session link_changed write_message write_message_log enqueue
    enqueue_locked check_message put_frame step_take take_frame take_control receive_ring is_open
    link_is_connected send_ring drain drain_items from_le
busy_queues_sent = refl

Reaches-IsConsistent_example : IsConsistent small_port cable small_laws busy_queues
Reaches-IsConsistent_example = Reaches-IsConsistent small_port cable small_laws busy_queues-Reaches

Reaches-InOrder_example :
    Run
      (events small_port cable small_laws busy_queues-Reaches)
      (view small_port cable small_laws busy_queues)
    × InOrder
        (events small_port cable small_laws busy_queues-Reaches)
        (view small_port cable small_laws busy_queues)
Reaches-InOrder_example = Reaches-InOrder small_port cable small_laws busy_queues-Reaches

items-drain_items_example :
    contents (drain_items small_port 2 (Ring.two_in log_frame control_frame)) ≡ []
unfolding small_laws
items-drain_items_example =
    items-drain_items small_port small_laws 2 (Ring.two_in log_frame control_frame) (omega arith)

-- After a session and its end, the same link is refused.
begin_session_once_example :
    (begin_session small_port cable
      (close_session small_port (began_session (plugged fresh)).queue)).0
    ≡ EspErr.invalid_state
unfolding fresh create_queues make_mutex create_rings make_rings lacks_ring close_locked
    begin_session refuses_session link_changed is_open link_is_connected drain
begin_session_once_example =
    begin_session_once small_port cable (plugged fresh)
      (on_queue (close_session small_port (began_session (plugged fresh)).queue)
        (began_session (plugged fresh)))
      refl (SameLink.then_move SameLink.here Move.close refl)

-- A world that is its time, in ticks of ten milliseconds. A delay takes two ticks too long.
abbrev slow_clock : Clock Ring ℕ
slow_clock = record {
  tick_rate_hz = 100;
  tick_count = λ e. u32 e;
  task_delay = λ n q. record q { env = q.env + n + 2 };
}

slow_laws : ClockLaws slow_clock
slow_laws = record {
  time = λ e. e;
  late = 2;
  counts = λ e. refl;
  delays = λ n q. omega arith;
  delays_little = λ n q. omega arith;
  rate_some = omega arith;
  rate_small = omega arith;
}

abbrev plugged_in : Line ℕ
plugged_in = record { physical_link_open = λ e. true; reset_wire_buffers = λ e. e }

abbrev timed_port : Port Ring ℕ
timed_port = record {
  send = put_in;
  receive = get_out;
  return_item = λ x r. r;
  create_ring = λ size e. (some Ring.free, e);
  delete_ring = λ r e. e;
  create_mutex = λ e. (true, e);
  delete_mutex = λ e. e;
  create_task = λ e. (true, e);
}

-- A session with a frame that nobody takes.
abbrev stuck_queue : Queue Ring ℕ
stuck_queue = record (new_queue 7) {
  ring_buffer = some Ring.free;
  tx_ring = some (Ring.one_in control_frame);
  tx_pending = 1;
  dead = false;
  connected = true;
}

flush_write-terminates_example :
    (result : EspErr × Queue Ring ℕ) × (flush_write plugged_in slow_clock
        (suc (timeout_to_ticks 100 50))
        50
        stuck_queue
      ≡ some result)
unfolding slow_laws timeout_to_ticks
flush_write-terminates_example =
    flush_write-terminates plugged_in slow_clock slow_laws 50 stuck_queue refl (omega arith)

start_read-terminates_example :
    (result : EspErr × Option (List ℕ) × Queue Ring ℕ) × (start_read timed_port plugged_in
        slow_clock
        (suc (timeout_to_ticks 100 50))
        50
        stuck_queue
      ≡ some result)
unfolding slow_laws timeout_to_ticks
start_read-terminates_example =
    start_read-terminates timed_port plugged_in slow_clock slow_laws 50 stuck_queue refl
      (omega arith)

timeout_to_ticks_bounds_example :
    (timeout_to_ticks 1000 4_000_000_000 < 0xffff_ffff)
    × IsLongEnough 1000 4_000_000_000 (timeout_to_ticks 1000 4_000_000_000)
timeout_to_ticks_bounds_example =
    timeout_to_ticks_bounds 1000 4_000_000_000 (omega arith) (omega arith)
