-- ===== src/Session/Control.antt =====
-- `op_halt`, `op_reset_halt` and `op_reset_run` of sidp_session.cpp.
use sidp_client.Backend.{StopDetect}
use sidp_client.Base.{
  ℕ, Bool, true, false, not, List, ◌&&◌, ◌||◌, ◌==◌, if◌then◌else◌, Option, none, some, length,
  field, from_le,
}
use sidp_client.Defs.{
  Status, TargetState, StopReason, LostReason, is_halted, reset_system, reset_nrst,
}
use sidp_client.Defs.Cap
use sidp_client.Defs.Limits
use sidp_client.Defs.Opcode
use sidp_client.Backend.{Host, EspErr, is_ok, is_timeout}
use sidp_client.Session.State.{Session, M, pure, gets, call, modify, skip, ◌>>=◌, ◌>>◌}
use sidp_client.Session.Frame.{respond, unless_refused}
use sidp_client.Session.Table.{rollback_run_config, clear_run_tracking}
use sidp_client.Session.Access.{has_bits}
use sidp_client.Session.Stops.{
  enter_halted, enter_lost, emit_pending_stopped, send_backend_failure, lost_reason_of,
  clear_debug_state,
}

-- Every check of the two reset requests before the target is touched.
unfoldable pub reset_refusal : {W : Type 0} → Session W → ℕ → List ℕ → Option Status
unfolding from_le
reset_refusal s needed payload =
    let kind = field payload 0 1 in
    if not (length payload == Limits.reset_request_size)
    then some Status.invalid_argument
    else if not (kind == reset_system || kind == reset_nrst)
    then some Status.invalid_argument
    else if not (has_bits s.capabilities needed)
        || (kind == reset_system && not (has_bits s.capabilities Cap.reset_system)
            || (kind == reset_nrst && not (has_bits s.capabilities Cap.reset_nrst)))
    then some Status.unsupported
    else none

module _ {W : Type 0} (h : Host W) where
  unfoldable pub halt_running : ℕ → M W (Unit {0})
  halt_running request_id = do
    reply ← call (h.halt Limits.halt_timeout_ms)
    if not (is_ok reply.err)
        then send_backend_failure h Opcode.halt request_id reply.err Status.timeout
        else do
          enter_halted h reply.stop
          respond h Opcode.halt request_id Status.ok
          emit_pending_stopped h

  unfoldable pub op_halt : ℕ → List ℕ → M W (Unit {0})
  op_halt request_id payload = do
    s ← gets (λ s. s)
    if not (length payload == 0)
        then respond h Opcode.halt request_id Status.invalid_argument
        else if is_halted s.state && s.stop_reported
        then respond h Opcode.halt request_id Status.target_halted
        else if not (is_halted s.state)
        then halt_running request_id
        else do respond h Opcode.halt request_id Status.ok; emit_pending_stopped h

  unfoldable pub clear_run_config : ℕ → ℕ → M W Bool
  clear_run_config opcode request_id = do
    rolled_back ← rollback_run_config h
    if rolled_back then pure true else do
      respond h opcode request_id Status.swd_error
      enter_lost h LostReason.swd_fault
      pure false

  unfoldable pub prepare_reset : ℕ → ℕ → M W Bool
  prepare_reset opcode request_id = do
    halted ← gets (λ s. is_halted s.state)
    if halted then clear_run_config opcode request_id else do
      reply ← call (h.halt Limits.halt_timeout_ms)
      if not (is_ok reply.err && reply.stop.halted)
          then (do
            send_backend_failure h opcode request_id
                (if is_ok reply.err then EspErr.timeout else reply.err) Status.timeout
            pure false)
          else do enter_halted h reply.stop; clear_run_config opcode request_id

  -- A failed reset leaves the target unknown.
  unfoldable pub fail_reset : ℕ → ℕ → EspErr → M W (Unit {0})
  fail_reset opcode request_id err = do
    respond h opcode request_id (if is_timeout err then Status.timeout else Status.swd_error)
    enter_lost h (lost_reason_of err)

  -- The stop behind the reset, its response, and its event.
  unfoldable pub report_reset : ℕ → StopDetect → M W (Unit {0})
  report_reset request_id stop = do
    enter_halted h stop
    modify λ s. record s { pending = record (s.pending) { reason = StopReason.reset } }
    respond h Opcode.reset_halt request_id Status.ok
    emit_pending_stopped h

  unfoldable pub reset_and_halt : ℕ → ℕ → M W (Unit {0})
  reset_and_halt request_id kind = do
    reply ← call (h.reset kind true)
    if not (is_ok reply.err)
        then fail_reset Opcode.reset_halt request_id reply.err
        else do clear_debug_state h; clear_run_tracking h; report_reset request_id reply.stop

  unfoldable pub op_reset_halt : ℕ → List ℕ → M W (Unit {0})
  op_reset_halt request_id payload = do
    s ← gets (λ s. s)
    unless_refused h Opcode.reset_halt request_id (reset_refusal s Cap.reset_halt payload) (do
      ready ← prepare_reset Opcode.reset_halt request_id
      if not ready then skip else reset_and_halt request_id (field payload 0 1))

  unfoldable pub reset_and_run : ℕ → ℕ → M W (Unit {0})
  reset_and_run request_id kind = do
    reply ← call (h.reset kind false)
    if not (is_ok reply.err) then fail_reset Opcode.reset_run request_id reply.err else do
      clear_debug_state h
      clear_run_tracking h
      modify λ s. record s { state = TargetState.running }
      respond h Opcode.reset_run request_id Status.ok

  unfoldable pub op_reset_run : ℕ → List ℕ → M W (Unit {0})
  op_reset_run request_id payload = do
    s ← gets (λ s. s)
    unless_refused h Opcode.reset_run request_id (reset_refusal s Cap.reset_run payload) (do
      ready ← prepare_reset Opcode.reset_run request_id
      if not ready then skip else reset_and_run request_id (field payload 0 1))
