-- ===== src/Session/Stops.antt =====
-- The stop pipeline of sidp_session.cpp: the halt with its snapshot, and the loss of the target.
use sidp_client.Base.{List}
use sidp_client.Session.State.{Session}
use sidp_client.Base.{
  ℕ, ◌+◌, Bool, true, false, not, Option, none, some, [], ◌&&◌, ◌||◌, leb, ◌==◌, if◌then◌else◌, u32,
}
use sidp_client.Defs.{Status, TargetState, is_halted, is_lost, StopReason, LostReason}
use sidp_client.Defs.Action
use sidp_client.Defs.Cap
use sidp_client.Defs.Mem
use sidp_client.Backend.{Host, EspErr, StopDetect, is_ok, is_fail, is_timeout}
use sidp_client.Session.State.{M, gets, call, modify, skip, ◌>>=◌, ◌>>◌}
use sidp_client.Session.Frame.{bytes_of, store_at, respond, send_stopped, send_target_lost}
use sidp_client.Session.Registers.{normalize_pc_in_register_blob}
use sidp_client.Session.Access.{has_bits}
use sidp_client.Session.Cause.{Range, classify, snapshot_range, snapshot_capacity}

-- `result == ESP_ERR_TIMEOUT ? TARGET_LOST_TIMEOUT : TARGET_LOST_SWD_FAULT`.
abbrev pub lost_reason_of : EspErr → LostReason
lost_reason_of err = if is_timeout err then LostReason.timeout else LostReason.swd_fault

abbrev pub is_some : Option ℕ → Bool
is_some none = false
is_some (some a) = true

abbrev pub value_or_zero : Option ℕ → ℕ
value_or_zero none = 0
value_or_zero (some a) = a

-- The buffer with the logical PC in it.
unfoldable pub logical_registers : {W : Type 0} → Session W → ℕ → Option (List ℕ)
logical_registers s size = elim s.pending_registers [
  | none ↦ none
  | some buf ↦
      some (normalize_pc_in_register_blob s.sw_step_over_pending s.sw_step_over_address buf size)
]

module _ {W : Type 0} (h : Host W) where
  unfoldable pub enter_lost : LostReason → M W (Unit {0})
  enter_lost reason = do
    lost ← gets (λ s. is_lost s.state)
    if lost
        then skip
        else do modify λ s. record s { state = TargetState.lost }; send_target_lost h reason; skip

  unfoldable pub send_backend_failure : ℕ → ℕ → EspErr → Status → M W (Unit {0})
  send_backend_failure opcode request_id result fallback =
      if not (is_fail result)
      then respond h opcode request_id (if is_timeout result then Status.timeout else fallback)
      else do respond h opcode request_id Status.target_lost; enter_lost LostReason.swd_fault

  -- Reads the stack behind the registers in the buffer.
  unfoldable pub capture_range : ℕ → Range → M W (Unit {0})
  capture_range registers_size range = do
    reply ← call (h.read_mem range.start range.size Mem.width_default)
    modify λ s. record s {
      pending_registers = store_at registers_size reply.bytes s.pending_registers;
    }
    if not (is_ok reply.err)
        then skip
        else modify λ s. record s {
          pending = record (s.pending) { stack_address = range.start; stack_size = range.size };
        }

  unfoldable pub capture_if : ℕ → Option Range → M W (Unit {0})
  capture_if registers_size none = skip
  capture_if registers_size (some range) = capture_range registers_size range

  unfoldable pub capture_stack_snapshot : M W (Unit {0})
  capture_stack_snapshot = do
    s ← gets (λ s. s)
    capture_if s.pending.registers_size
        (snapshot_range (bytes_of s.pending_registers) s.pending.registers_size s.regions)

  -- The registers are in the buffer: their size is set, and their PC is the logical one.
  unfoldable pub note_registers : ℕ → M W (Unit {0})
  note_registers size = modify λ s. record s {
    pending = record (s.pending) { registers_size = size };
    pending_registers = logical_registers s size;
  }

  -- The part of `enter_halted` behind `CAP_STOP_SNAPSHOT`.
  unfoldable pub take_snapshot : M W (Unit {0})
  take_snapshot = do
    reply ← call (h.read_regs [] snapshot_capacity)
    modify λ s. record s { pending_registers = store_at 0 reply.bytes s.pending_registers }
    if not (is_ok reply.err && leb reply.out_size snapshot_capacity)
        then skip
        else do note_registers reply.out_size; capture_stack_snapshot

  unfoldable pub enter_halted : StopDetect → M W (Unit {0})
  enter_halted stop = do
    s ← gets (λ s. s)
    let cause = classify s stop
    if is_lost s.state then skip else do
      modify λ s. record s {
        sw_step_over_pending = is_some cause.step_over;
        sw_step_over_address = value_or_zero cause.step_over;
        stop_id = u32 (s.stop_id + 1);
      }
      wrapped ← gets (λ s. s.stop_id == 0)
      if wrapped then enter_lost LostReason.timeout else do
        modify λ s. record s {
          state = TargetState.halted;
          stop_reported = false;
          pending = record {
            reason = cause.reason;
            detail = stop.dfsr;
            breakpoint_id = cause.breakpoint_id;
            watchpoint_address = cause.watchpoint_address;
            registers_size = 0;
            stack_address = 0;
            stack_size = 0;
          };
          running_action = Action.run_continue;
          run_to_active = false;
          active_run_to_address = 0;
        }
        if has_bits s.capabilities Cap.stop_snapshot then take_snapshot else skip

  unfoldable pub emit_pending_stopped : M W (Unit {0})
  emit_pending_stopped = do
    s ← gets (λ s. s)
    if s.stop_reported || not (is_halted s.state) then skip else do send_stopped h; skip

  unfoldable pub clear_debug_state : M W (Unit {0})
  clear_debug_state = modify λ s. record s {
    stop_reported = false;
    pending = record {
      reason = StopReason.unknown;
      detail = 0;
      breakpoint_id = 0;
      watchpoint_address = 0;
      registers_size = 0;
      stack_address = 0;
      stack_size = 0;
    };
    sw_step_over_pending = false;
    sw_step_over_address = 0;
  }
