-- ===== src/Session/Attach.antt =====
-- `op_attach`, `op_detach` and `op_get_state` of sidp_session.cpp.
use sidp_client.Session.State.{SwBp}
use sidp_client.Base.{Option}
use sidp_client.Base.{
  ℕ, zero, suc, ◌+◌, ◌/◌, ◌%◌, Bool, true, not, none, some, List, [], ◌∷◌, ◌++◌, ◌&&◌, ◌||◌, ltb,
  ◌==◌, if◌then◌else◌, length, field, from_le, le_bytes, u32,
}
use sidp_client.Defs.{
  Status, status_code, TargetState, state_code, is_halted, is_running, LostReason,
  detach_keep_halted, detach_resume, kind_response,
}
use sidp_client.Defs.Limits
use sidp_client.Defs.Opcode
use sidp_client.Backend.{Host, AttachInfo, StopDetect, is_ok, is_fail}
use sidp_client.Session.State.{Region, M, pure, gets, call, modify, skip, ◌>>=◌, ◌>>◌}
use sidp_client.Session.Frame.{begin_frame, put, finish_frame, respond}
use sidp_client.Session.Registers.{write_current_pc}
use sidp_client.Session.Shadow.{sw_bp_find_by_halt_pc}
use sidp_client.Session.Table.{sw_bp_restore_all, clear_run_tracking}
use sidp_client.Session.Access.{has_bits, normalize_attach_info}
use sidp_client.Session.Cause.{dfsr_bkpt}
use sidp_client.Session.Stops.{
  enter_halted, enter_lost, emit_pending_stopped, send_backend_failure, lost_reason_of,
  clear_debug_state,
}
use sidp_client.Session.Lifecycle.{storage_ready, handle_disconnect, forget_target}

-- The regions of the span, `left` of them from `offset` on.
unfoldable pub parse_regions : ℕ → List ℕ → ℕ → List Region
unfolding from_le
parse_regions zero bytes offset = []
parse_regions (suc left) bytes offset =
    record {
      start = field bytes offset 8;
      length = field bytes (offset + 8) 8;
      type = field bytes (offset + 16) 1;
      flags = field bytes (offset + 17) 1;
    }
    ∷ parse_regions left bytes (offset + Limits.memory_region_size)

abbrev pub region_entries : AttachInfo → ℕ
region_entries info = length info.memory_regions / Limits.memory_region_size

-- A span of whole entries, and no more of them than the table holds.
abbrev pub regions_fit : AttachInfo → Bool
regions_fit info =
    length info.memory_regions % Limits.memory_region_size == 0
    && not (ltb Limits.max_memory_regions (region_entries info))

-- `attach_response_t`.
unfoldable pub attach_response : AttachInfo → List ℕ
unfolding le_bytes
attach_response info =
    le_bytes 4 (status_code Status.ok)
    ++ info.architecture ∷ info.profile ∷ info.address_width ∷ 0 ∷ le_bytes 4 info.capabilities
    ++ le_bytes 4 info.target_id
    ++ le_bytes 4 info.cpu_id
    ++ le_bytes 4 info.supported_vector_catch_mask
    ++ le_bytes 2 info.hardware_breakpoints
    ++ le_bytes 2 info.hardware_watchpoints
    ++ le_bytes 2 (region_entries info)
    ++ le_bytes 2 info.max_memory_transfer

module _ {W : Type 0} (h : Host W) where
  -- The members that a successful attach sets.
  unfoldable pub adopt : AttachInfo → M W (Unit {0})
  adopt info = do
    modify λ s. record s {
      attached = true;
      capabilities = info.capabilities;
      hardware_breakpoint_limit = info.hardware_breakpoints;
      hardware_watchpoint_limit = info.hardware_watchpoints;
      max_memory_transfer = info.max_memory_transfer;
      supported_vector_catch = info.supported_vector_catch_mask;
      stop_id = 0;
    }
    clear_debug_state h
    clear_run_tracking h
    modify λ s. record s { sw_table = []; regions = [] }

  -- Ends this connection; ownership stays if the cleanup fails.
  unfoldable pub refuse_attach : ℕ → M W (Unit {0})
  refuse_attach request_id = do
    respond h Opcode.attach request_id Status.error
    handle_disconnect h
    skip

  -- The halt of a target that still runs after the attach response.
  unfoldable pub halt_attached : M W (Unit {0})
  halt_attached = do
    reply ← call (h.halt Limits.halt_timeout_ms)
    if is_fail reply.err
        then enter_lost h LostReason.swd_fault
        else if not (is_ok reply.err)
        then modify (λ s. record s { state = TargetState.running })
        else do enter_halted h reply.stop; emit_pending_stopped h

  unfoldable pub settle_attached : Bool → M W (Unit {0})
  settle_attached halt_after_attach =
      if not halt_after_attach then modify (λ s. record s { state = TargetState.running }) else do
        reply ← call h.poll_halted
        if not (is_ok reply.err)
            then enter_lost h (lost_reason_of reply.err)
            else if not reply.stop.halted
            then halt_attached
            else do enter_halted h reply.stop; emit_pending_stopped h

  unfoldable pub answer_attach : ℕ → Bool → AttachInfo → M W (Unit {0})
  answer_attach request_id halt_after_attach info = do
    ready ←
        begin_frame h kind_response Opcode.attach request_id
          (Limits.attach_response_size + length info.memory_regions)
    if not ready then refuse_attach request_id else do
      put h 0 (attach_response info)
      put h Limits.attach_response_size info.memory_regions
      done ← finish_frame h
      if not done then skip else settle_attached halt_after_attach

  unfoldable pub accept_attach : ℕ → Bool → AttachInfo → M W (Unit {0})
  accept_attach request_id halt_after_attach info = do
    adopt info
    if not (regions_fit info) then refuse_attach request_id else do
      modify λ s. record s { regions = parse_regions (region_entries info) info.memory_regions 0 }
      answer_attach request_id halt_after_attach info

  unfoldable pub op_attach : ℕ → List ℕ → M W (Unit {0})
  op_attach request_id payload = do
    s ← gets (λ s. s)
    if s.attached
        then respond h Opcode.attach request_id Status.busy
        else if not (length payload == Limits.attach_request_size)
        then respond h Opcode.attach request_id Status.invalid_argument
        else if not (storage_ready s)
        then respond h Opcode.attach request_id Status.error
        else do
          let halt_after_attach = not (field payload 5 1 == 0)
          reply ← call (
              h.attach (record {
                connect_under_reset = not (field payload 4 1 == 0);
                halt_after_attach = halt_after_attach;
              }))
          if not (is_ok reply.err)
              then send_backend_failure h Opcode.attach request_id reply.err Status.swd_error
              else accept_attach request_id halt_after_attach (normalize_attach_info reply.info)

  unfoldable pub note_entry : Option SwBp → M W (Unit {0})
  note_entry none = skip
  note_entry (some e) =
      modify λ s. record s { sw_step_over_pending = true; sw_step_over_address = e.address }

  -- A breakpoint may have halted the target before the next poll: its logical PC is remembered.
  unfoldable pub note_halt : StopDetect → M W (Unit {0})
  note_halt stop = do
    s ← gets (λ s. s)
    if stop.comparator_match || not (has_bits stop.dfsr dfsr_bkpt)
        then skip
        else note_entry (sw_bp_find_by_halt_pc s.sw_table stop.pc)

  unfoldable pub rewind_pc : M W Bool
  rewind_pc = do
    s ← gets (λ s. s)
    if not s.sw_step_over_pending
        then pure true
        else write_current_pc h (u32 s.sw_step_over_address)

  -- What follows once the target is halted.
  unfoldable pub clean_up_detach : ℕ → ℕ → M W (Unit {0})
  clean_up_detach request_id action = do
    rewound ← rewind_pc
    if not rewound then respond h Opcode.detach request_id Status.swd_error else do
      restored ← sw_bp_restore_all h
      if not restored then respond h Opcode.detach request_id Status.swd_error else do
        err ← call (h.detach action)
        if not (is_ok err)
            then respond h Opcode.detach request_id Status.swd_error
            else do respond h Opcode.detach request_id Status.ok; forget_target h

  unfoldable pub op_detach : ℕ → List ℕ → M W (Unit {0})
  op_detach request_id payload = do
    s ← gets (λ s. s)
    let action = field payload 0 1
    if not (length payload == Limits.detach_request_size)
        then respond h Opcode.detach request_id Status.invalid_argument
        else if not (action == detach_keep_halted || action == detach_resume)
        then respond h Opcode.detach request_id Status.invalid_argument
        else if not (is_running s.state)
        then clean_up_detach request_id action
        else do
          reply ← call (h.halt Limits.halt_timeout_ms)
          if not (is_ok reply.err)
              then send_backend_failure h Opcode.detach request_id reply.err Status.timeout
              else do note_halt reply.stop; clean_up_detach request_id action

  unfoldable pub op_get_state : ℕ → List ℕ → M W (Unit {0})
  op_get_state request_id payload = do
    s ← gets (λ s. s)
    if not (length payload == 0)
        then respond h Opcode.get_state request_id Status.invalid_argument
        else do
          ready ←
              begin_frame h kind_response Opcode.get_state request_id Limits.get_state_response_size
          if not ready then skip else do
            put h 0 (
                le_bytes 4 (status_code Status.ok)
                ++ state_code s.state
                  ∷ 0
                  ∷ 0
                  ∷ 0
                  ∷ le_bytes 4 (if is_halted s.state then s.stop_id else 0))
            finish_frame h
            skip
