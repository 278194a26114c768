-- ===== src/Transport/Reached.antt =====
-- What holds in every state that the tasks on the packet queues can reach.
use sidp_client.Base.{if◌then◌else◌}
use sidp_client.Backend.{EspErr}
use sidp_client.Base.{
  ℕ, ◌+◌, ◌≡◌, refl, sym, subst, Bool, true, false, not, Option, none, some, List, [], ◌∷◌, arith,
  u32,
}
use sidp_client.Transport.Counts.{
  return_frame-IsCounted, end_read-IsCounted, enqueue-IsCounted, read_packet-IsCounted,
  take_frame-IsCounted,
}
use sidp_client.Transport.Created.{create_queues-IsFresh}
use sidp_client.Transport.History.{Run-InOrder}
use sidp_client.Transport.Invariant.{
  closed-IsCounted, one_if, deliver_packet-IsCounted, close_locked-IsCounted, IsCounted,
  begin_session-IsCounted, link_changed-IsCounted,
}
use sidp_client.Transport.Moves.{first_shared, Reaches, Shared, Move, step_read, step_take}
use sidp_client.Transport.Port.{Line, Port, RingLaws}
use sidp_client.Transport.Queue.{
  write_message_log, finish_tx, return_frame, is_missing, close_locked, refuses_read, write_message,
  receive_ring, read_packet, TxItem, close_session,
}
use sidp_client.Transport.Refines.{Move-Does, event_of}
use sidp_client.Transport.Setup.{create_queues, lacks_ring}
use sidp_client.Transport.Spec.{InOrder, first_view, Event, Run}
use sidp_client.Transport.State.{new_queue, Queue}
use sidp_client.Transport.Views.{view, view_with}

none_if_zero : {A : Type 0} {n : ℕ} → (o : Option A) → n ≡ one_if o → n ≡ 0 → o ≡ none
none_if_zero none h k = refl
none_if_zero (some a) h k = absurd (omega arith)

none_if_idle :
    {A : Type 0} {b : Bool} → (o : Option A) → b ≡ not (is_missing o) → b ≡ false → o ≡ none
none_if_idle none h k = refl
none_if_idle (some a) h k = absurd (cc)

module _ {R E : Type 0} (port : Port R E) (line : Line E) (laws : RingLaws port) where
  finish_tx-IsCounted :
      (item : TxItem) (sent : Bool) (q : Queue R E) (b : Option (List ℕ)) (f : Option TxItem)
      → IsCounted port laws q b f
      → IsCounted port laws (finish_tx port item sent q) b none
  unfolding finish_tx lacks_ring
  finish_tx-IsCounted item sent q b f valid = by_sent sent
    where
      t : Queue R E
      t = return_frame port item q

      back : IsCounted port laws t b f
      back = return_frame-IsCounted port laws q item b f valid

      lost : Queue R E
      lost = record t { tx_dropped = u32 (t.tx_dropped + 1) }

      shut : IsCounted port laws (close_locked port lost) b f
      shut = close_locked-IsCounted port laws lost b f back.has_rings back.borrowed back.busy

      by_sent : (sent : Bool) → IsCounted port laws (finish_tx port item sent q) b none
      by_sent true = record {
        has_rings = back.has_rings;
        pending = back.pending;
        borrowed = back.borrowed;
        busy = refl;
        open_link = back.open_link;
        open_serial = back.open_serial;
      }
      by_sent false = record {
        has_rings = shut.has_rings;
        pending = shut.pending;
        borrowed = shut.borrowed;
        busy = refl;
        open_link = shut.open_link;
        open_serial = shut.open_serial;
      }

  abbrev pub IsConsistent : Shared R E → Type 0
  IsConsistent s = IsCounted port laws s.queue s.reading s.sending

  step_read-IsConsistent :
      (s : Shared R E) → s.reading ≡ none → IsConsistent s → IsConsistent (step_read port line s)
  unfolding step_read
  step_read-IsConsistent s h valid = by_test (refuses_read line s.queue)
    where
      read : Option (List ℕ) × Queue R E
      read = read_packet port (receive_ring port s.queue.ring_buffer) s.queue

      by_test :
          (shut : Bool)
          → IsConsistent (if shut then s else record s { queue = read.1; reading = read.0 })
      by_test true = valid
      by_test false =
          read_packet-IsCounted port laws s.queue s.sending
            (subst (λ x. IsCounted port laws s.queue x s.sending) h valid)
            (receive_ring port s.queue.ring_buffer)

  Move-IsConsistent : {s t : Shared R E} → IsConsistent s → Move port line s t → IsConsistent t
  unfolding close_session write_message write_message_log step_take lacks_ring
  Move-IsConsistent valid (Move.elapse e) = record {
    has_rings = valid.has_rings;
    pending = valid.pending;
    borrowed = valid.borrowed;
    busy = valid.busy;
    open_link = valid.open_link;
    open_serial = valid.open_serial;
  }
  Move-IsConsistent {s} valid (Move.link up) =
      link_changed-IsCounted port laws s.queue s.reading s.sending valid up
  Move-IsConsistent {s} valid Move.close =
      closed-IsCounted port laws s.queue s.reading s.sending valid
  Move-IsConsistent {s} valid Move.begin =
      begin_session-IsCounted port laws s.queue s.reading s.sending valid line
  Move-IsConsistent {s} valid (Move.deliver p n) =
      deliver_packet-IsCounted port laws s.queue s.reading s.sending valid line p n
  Move-IsConsistent {s} valid (Move.write m) =
      enqueue-IsCounted port laws s.queue s.reading s.sending valid line m false
  Move-IsConsistent {s} valid (Move.log m) =
      enqueue-IsCounted port laws s.queue s.reading s.sending valid line m true
  Move-IsConsistent {s} valid (Move.read h) = step_read-IsConsistent s h valid
  Move-IsConsistent {s} valid (Move.end_reading p h) =
      end_read-IsCounted port laws s.queue p s.sending
        (subst (λ x. IsCounted port laws s.queue x s.sending) h valid)
  Move-IsConsistent {s} valid (Move.take_next h) =
      take_frame-IsCounted port laws s.queue s.reading
        (subst (λ x. IsCounted port laws s.queue s.reading x) h valid) line
  Move-IsConsistent {s} valid (Move.finish item sent h) =
      finish_tx-IsCounted item sent s.queue s.reading s.sending valid

  -- As long as the rings are first in, first out, and hold no more items than they have bytes: in
  -- every state that the tasks can reach, all three rings are there; `tx_pending` is the number of
  -- frames in the two TX rings; `rx_borrowed` is one if a packet is at the reader and zero otherwise;
  -- `tx_busy` tells whether a frame is on its way; and a session that is not dead has a link that
  -- was reported up and is the link that it accepted.
  pub Reaches-IsConsistent : {s : Shared R E} → Reaches port line s → IsConsistent s
  Reaches-IsConsistent (Reaches.start e made) = (create_queues-IsFresh port laws e made).counted
  Reaches-IsConsistent (Reaches.next past move) = Move-IsConsistent (Reaches-IsConsistent past) move

  first-Run :
      (e : E)
      → (create_queues port (new_queue e)).0 ≡ EspErr.esp_ok
      → view port line laws (first_shared port e) ≡ first_view
  unfolding view view_with
  first-Run e made =
      let fresh = create_queues-IsFresh port laws e made in
      rw (fresh.is_dead, fresh.no_packets, fresh.no_frames, fresh.no_logs) refl

  -- The events of a history of steps, the latest first.
  abbrev pub events : {s : Shared R E} → Reaches port line s → List Event
  events (Reaches.start e made) = []
  events (Reaches.next past move) = event_of port line laws move ∷ events past

  -- The abstract queues explain every state that the tasks can reach: the events of the steps lead
  -- from the empty queues of no session to its view.
  pub Reaches-Runs :
      {s : Shared R E} → (past : Reaches port line s) → Run (events past) (view port line laws s)
  Reaches-Runs (Reaches.start e made) = subst (λ v. Run [] v) (sym (first-Run e made)) Run.start
  Reaches-Runs (Reaches.next {s} {t} past move) =
      let valid = Reaches-IsConsistent past in
      Run.next (Reaches-Runs past) (
        Move-Does port line laws (none_if_zero s.reading valid.borrowed)
          (none_if_idle s.sending valid.busy) move)

  -- As long as the rings are first in, first out, as documented: in every state that the tasks can
  -- reach, in whatever order their steps interleave, what is in the rings, at the reader and on the
  -- wire is the outcome of the abstract events of these very steps from the first view. Each step's
  -- event is read off its result: a write that returns `ESP_OK` is the event of that frame being
  -- queued, a packet that is well formed and for this session is heard or ends the session, a frame
  -- or a packet that a task gets is the event of it being taken. Within a session, what was taken from
  -- each of the three rings, followed by what is still in it, is what was put in, in order: no frame
  -- is lost, repeated or overtaken, and none crosses a boundary of sessions.
  pub Reaches-InOrder :
      {s : Shared R E}
      → (past : Reaches port line s)
      → Run (events past) (view port line laws s) × InOrder (events past) (view port line laws s)
  Reaches-InOrder past = let run = Reaches-Runs past in (run, Run-InOrder run)
