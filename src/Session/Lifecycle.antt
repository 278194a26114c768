-- ===== src/Session/Lifecycle.antt =====
-- Allocation and release of the session's buffers, and the end of a connection.
use sidp_client.Base.{
  ℕ, ◌*◌, Bool, true, false, not, none, some, List, [], ◌∷◌, ◌&&◌, ◌||◌, if◌then◌else◌,
}
use sidp_client.Defs.{TargetState, is_running, detach_keep_halted}
use sidp_client.Defs.Limits
use sidp_client.Backend.{Host, EspErr, is_ok}
use sidp_client.Session.State.{Session, M, pure, gets, call, modify, skip, ◌>>=◌, ◌>>◌}
use sidp_client.Session.Frame.{is_null}
use sidp_client.Session.Table.{sw_bp_restore_all, clear_run_tracking}
use sidp_client.Session.Stops.{
  enter_halted, emit_pending_stopped, enter_lost, lost_reason_of, clear_debug_state,
}

abbrev pub storage_ready : {W : Type 0} → Session W → Bool
storage_ready s =
    not (is_null s.scratch)
    && not (is_null s.pending_registers)
    && s.has_regions
    && s.has_sw_table
    && s.has_sink

-- `calloc` gives zeroed bytes.
unfoldable pub zeroes : ℕ → List ℕ
zeroes ℕ.zero = []
zeroes (ℕ.suc n) = 0 ∷ zeroes n

module _ {W : Type 0} (h : Host W) where
  unfoldable pub release_storage : M W (Unit {0})
  release_storage = modify λ s. record s {
    has_sw_table = false;
    has_regions = false;
    pending_registers = none;
    scratch = none;
    tx_frame_size = 0;
  }

  unfoldable pub out_of_memory : M W EspErr
  out_of_memory = do release_storage; pure EspErr.no_mem

  unfoldable pub alloc_sw_table : M W EspErr
  alloc_sw_table = do
    done ← call (h.calloc (24 * Limits.max_software_breakpoints))
    if not done
        then out_of_memory
        else do modify λ s. record s { has_sw_table = true }; pure EspErr.esp_ok

  unfoldable pub alloc_regions : M W EspErr
  alloc_regions = do
    done ← call (h.calloc (Limits.memory_region_size * Limits.max_memory_regions))
    if not done
        then out_of_memory
        else do modify λ s. record s { has_regions = true }; alloc_sw_table

  unfoldable pub alloc_pending : M W EspErr
  alloc_pending = do
    done ← call (h.calloc Limits.max_frame_size)
    if not done then out_of_memory else do
      modify λ s. record s { pending_registers = some (zeroes Limits.max_frame_size) }
      alloc_regions

  unfoldable pub init : M W EspErr
  init = do
    s ← gets (λ s. s)
    if not s.has_sink
        then pure EspErr.invalid_arg
        else if storage_ready s
        then pure EspErr.invalid_state
        else do
          done ← call (h.calloc Limits.max_frame_size)
          if not done then out_of_memory else do
            modify λ s. record s { scratch = some (zeroes Limits.max_frame_size) }
            alloc_pending

  -- `state = TARGET_LOST; return false;`
  unfoldable pub keep_for_retry : M W Bool
  keep_for_retry = do modify λ s. record s { state = TargetState.lost }; pure false

  -- The members after a completed detach.
  unfoldable pub forget_target : M W (Unit {0})
  forget_target = do
    modify λ s. record s { attached = false; state = TargetState.detached; stop_id = 0 }
    clear_debug_state h
    clear_run_tracking h

  unfoldable pub handle_disconnect : M W Bool
  handle_disconnect = do
    modify λ s. record s { transport_dead = true }
    attached ← gets (λ s. s.attached)
    if not attached then pure true else do
      reply ← call (h.halt Limits.halt_timeout_ms)
      if not (is_ok reply.err && reply.stop.halted) then keep_for_retry else do
        restored ← sw_bp_restore_all h
        if not restored then keep_for_retry else do
          err ← call (h.detach detach_keep_halted)
          if not (is_ok err) then keep_for_retry else do forget_target; pure true

  -- One poll of the backend, and what follows from it.
  unfoldable pub poll_once : M W (Unit {0})
  poll_once = do
    reply ← call h.poll_halted
    if not (is_ok reply.err)
        then enter_lost h (lost_reason_of reply.err)
        else if not reply.stop.halted
        then skip
        else do enter_halted h reply.stop; emit_pending_stopped h

  unfoldable pub handle_poll : M W (Unit {0})
  handle_poll = do
    s ← gets (λ s. s)
    if s.transport_dead || (not (is_running s.state) || not s.attached) then skip else poll_once
