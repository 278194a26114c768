-- ===== src/Session/Keeps/Stops.antt =====
-- The stop pipeline keeps the invariant.
use sidp_client.Backend.{StopDetect, Host, is_ok, EspErr}
use sidp_client.Base.{
  ℕ, ◌+◌, ◌≤◌, ◌≡◌, refl, sym, subst, ◌∙◌, Bool, true, false, not, ◌&&◌, Option, none, some, [],
  arith, u32, if◌then◌else◌, ◌==◌, leb,
}
use sidp_client.Defs.{is_lost, TargetState, LostReason, Status}
use sidp_client.Defs.Action
use sidp_client.Defs.Cap
use sidp_client.Session.Access.{has_bits}
use sidp_client.Session.Cause.{snapshot_capacity, snapshot_range, Range, classify}
use sidp_client.Session.Frame.{bytes_of, store_at}
use sidp_client.Session.Keeps.Defs.{
  Keeps-preorder, Keeps-trans, HasCrc, Keeps-refl, Keeps, All, IsValid,
}
use sidp_client.Session.Keeps.Frames.{
  modify-Keeps, send_stopped-Keeps, send_target_lost-Keeps, respond-Keeps,
}
use sidp_client.Session.Keeps.Snapshot.{snapshot_range-fits}
use sidp_client.Session.Sound.{sound_rules, if-at, Sound}
use sidp_client.Session.State.{skip, Session, modify, call, gets, ◌>>=◌, Pending}
use sidp_client.Session.Stops.{
  enter_halted, clear_debug_state, emit_pending_stopped, capture_if, send_backend_failure,
  take_snapshot, enter_lost, note_registers, capture_range, capture_stack_snapshot, is_some,
  logical_registers, value_or_zero,
}

lost_state-Keeps :
    {W : Type 0} → Sound Keeps (modify λ (s : Session W). record s { state = TargetState.lost })
lost_state-Keeps = modify-Keeps _ λ s. ground arith

module _ {W : Type 0} (h : Host W) where
  pub enter_lost-Keeps : (reason : LostReason) → Sound Keeps (enter_lost h reason)
  unfolding enter_lost
  enter_lost-Keeps reason =
      search (sound_rules, Keeps-preorder, send_target_lost-Keeps, lost_state-Keeps) depth 12

  pub send_backend_failure-Keeps :
      (opcode id : ℕ) (result : EspErr) (fallback : Status)
      → Sound Keeps (send_backend_failure h opcode id result fallback)
  unfolding send_backend_failure
  send_backend_failure-Keeps opcode id result fallback =
      search (sound_rules, Keeps-preorder, respond-Keeps, enter_lost-Keeps) depth 12

  pub emit_pending_stopped-Keeps : Sound Keeps (emit_pending_stopped h)
  unfolding emit_pending_stopped
  emit_pending_stopped-Keeps = search (sound_rules, Keeps-preorder, send_stopped-Keeps) depth 12

  pub clear_debug_state-Keeps : Sound Keeps (clear_debug_state h)
  unfolding clear_debug_state
  clear_debug_state-Keeps = modify-Keeps _ λ s. ground arith

  capture_range-IsValid :
      (s : Session W) (range : Range)
      → s.pending.registers_size + range.size ≤ snapshot_capacity
      → IsValid s
      → IsValid (capture_range h s.pending.registers_size range s).1
  unfolding capture_range ◌>>=◌
  capture_range-IsValid s range fits v = ground arith

  capture_range-sent :
      (size : ℕ) (s : Session W) (range : Range)
      → ((capture_range h size range s).1.sent ≡ s.sent)
        × ((capture_range h size range s).1.transport_dead ≡ s.transport_dead)
  unfolding capture_range ◌>>=◌
  capture_range-sent size s range = ground arith

  capture_if-Keeps :
      (s : Session W) (found : Option Range)
      → snapshot_range (bytes_of s.pending_registers) s.pending.registers_size s.regions ≡ found
      → Keeps s (capture_if h s.pending.registers_size found s).1
  unfolding capture_if skip
  capture_if-Keeps s none e = Keeps-refl s
  capture_if-Keeps s (some range) e =
      let same = capture_range-sent s.pending.registers_size s range in
      record {
        valid = λ v.
            capture_range-IsValid s range
              (snapshot_range-fits (bytes_of s.pending_registers) s.pending.registers_size s.regions
                range (omega (arith, v.snapshot_fits)) e)
              v;
        crc = λ c. subst (All HasCrc) (sym same.0) c;
        dead = λ d. (same.1 ∙ d, same.0);
      }

  capture_stack_snapshot-Keeps : Sound Keeps (capture_stack_snapshot h)
  unfolding capture_stack_snapshot ◌>>=◌ gets
  capture_stack_snapshot-Keeps = record { at = λ s. capture_if-Keeps s _ refl }

  note_registers-Keeps :
      (s : Session W) (size : ℕ)
      → size ≤ snapshot_capacity
      → s.pending.stack_size ≡ 0
      → Keeps s (note_registers h size s).1
  unfolding note_registers modify logical_registers
  note_registers-Keeps s size fits empty = ground arith

  take_snapshot-Keeps : (s : Session W) → s.pending.stack_size ≡ 0 → Keeps s (take_snapshot h s).1
  unfolding take_snapshot ◌>>=◌ call modify skip
  take_snapshot-Keeps s empty =
      let (reply, w) = h.read_regs [] snapshot_capacity s.world in
      let s1 = record s {
        world = w;
        pending_registers = store_at 0 reply.bytes s.pending_registers;
      } in
      let s2 = (note_registers h reply.out_size s1).1 in
      Keeps-trans s s1 _ (ground arith) (
        if-at Keeps (not (is_ok reply.err && leb reply.out_size snapshot_capacity)) _ _ s1
          (Keeps-refl s1)
          λ fits.
            Keeps-trans s1 s2 _ (note_registers-Keeps s1 reply.out_size (ground arith) empty)
              ((capture_stack_snapshot-Keeps).at s2))

  -- The stop is recorded with an empty snapshot, which is then filled.
  record_stop-Keeps :
      (s : Session W) (pending : Pending) (b : Bool)
      → (pending.registers_size ≡ 0) × (pending.stack_size ≡ 0)
      → Keeps s
          ((if b then take_snapshot h else skip) (record s {
            state = TargetState.halted;
            stop_reported = false;
            pending = pending;
            running_action = Action.run_continue;
            run_to_active = false;
            active_run_to_address = 0;
          })).1
  unfolding skip
  record_stop-Keeps s pending true empty =
      Keeps-trans s _ _ (ground arith) (take_snapshot-Keeps _ empty.1)
  record_stop-Keeps s pending false empty = ground arith

  note_stop-Keeps :
      (pending : Bool) (address : ℕ)
      → Sound Keeps (
          modify λ (s : Session W). record s {
            sw_step_over_pending = pending;
            sw_step_over_address = address;
            stop_id = u32 (s.stop_id + 1);
          })
  note_stop-Keeps pending address = modify-Keeps _ λ s. ground arith

  pub enter_halted-Keeps : (stop : StopDetect) → Sound Keeps (enter_halted h stop)
  unfolding enter_halted ◌>>=◌ gets modify
  enter_halted-Keeps stop = record {
    at = λ s.
        let cause = classify s stop in
        let s1 = record s {
          sw_step_over_pending = is_some cause.step_over;
          sw_step_over_address = value_or_zero cause.step_over;
          stop_id = u32 (s.stop_id + 1);
        } in
        if-at Keeps (is_lost s.state) skip _ s (Keeps-refl s) λ alive.
          Keeps-trans s s1 _ (ground arith) (
            if-at Keeps (s1.stop_id == 0) (enter_lost h LostReason.timeout) _ s1
              ((enter_lost-Keeps LostReason.timeout).at s1)
              λ counted.
                record_stop-Keeps s1 _ (has_bits s.capabilities Cap.stop_snapshot) (refl, refl));
  }
