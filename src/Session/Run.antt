-- ===== src/Session/Run.antt =====
-- `op_run` of sidp_session.cpp after its checks: the installation of the run configuration, the
-- step over a breakpoint, and the resume.
use sidp_client.Base.{ℕ, Bool, true, false, not, List, [], ◌∷◌, ◌==◌, if◌then◌else◌}
use sidp_client.Defs.{Status, TargetState, StopReason, LostReason}
use sidp_client.Defs.Action
use sidp_client.Defs.Opcode
use sidp_client.Backend.{Host, BpEntry, StopDetect, is_ok}
use sidp_client.Session.State.{M, gets, call, modify, skip, ◌>>=◌, ◌>>◌}
use sidp_client.Session.Frame.{respond}
use sidp_client.Session.Table.{sw_bp_apply, rollback_run_config}
use sidp_client.Session.Stops.{enter_halted, enter_lost, emit_pending_stopped, lost_reason_of}
use sidp_client.Session.Lifecycle.{poll_once}
use sidp_client.Session.Plan.{RunRequest, RunPlan, Check, plan_run}
use sidp_client.Session.StepOver.{StepOver, execute_step_over}

unfoldable pub breakpoint_ids : List BpEntry → List ℕ
breakpoint_ids [] = []
breakpoint_ids (entry ∷ entries) = entry.breakpoint_id ∷ breakpoint_ids entries

module _ {W : Type 0} (h : Host W) where
  unfoldable pub fail_run : ℕ → Status → M W (Unit {0})
  fail_run request_id status = do
    restored ← rollback_run_config h
    if restored
        then respond h Opcode.run request_id status
        else do respond h Opcode.run request_id Status.swd_error; enter_lost h LostReason.swd_fault

  -- The step-over failed with the target halted: roll back, or lose the target.
  unfoldable pub fail_step : ℕ → M W (Unit {0})
  fail_step request_id = do
    rolled_back ← rollback_run_config h
    if rolled_back
        then respond h Opcode.run request_id Status.swd_error
        else do respond h Opcode.run request_id Status.swd_error; enter_lost h LostReason.swd_fault

  unfoldable pub lose_step : ℕ → LostReason → M W (Unit {0})
  lose_step request_id reason = do
    respond h Opcode.run request_id Status.target_lost
    enter_lost h reason

  -- The internal step was the whole run, or it hit a real stop.
  unfoldable pub report_step : ℕ → StopDetect → Bool → M W (Unit {0})
  report_step request_id stop was_step = do
    respond h Opcode.run request_id Status.ok
    enter_halted h stop
    if was_step
        then modify
            (λ s. record s { pending = record (s.pending) { reason = StopReason.single_step } })
        else skip
    emit_pending_stopped h

  unfoldable pub resume_target : ℕ → RunRequest → M W (Unit {0})
  resume_target request_id req = do
    err ← call (h.resume req.action req.run_to_address)
    if not (is_ok err)
        then (do
          respond h Opcode.run request_id Status.target_lost
          enter_lost h (lost_reason_of err))
        else do
          modify λ s. record s {
            running_action = req.action;
            run_to_active = req.action == Action.run_to_address;
            active_run_to_address =
                if req.action == Action.run_to_address then req.run_to_address else 0;
            state = TargetState.running;
          }
          respond h Opcode.run request_id Status.ok
          poll_once h

  -- After the step-over.
  unfoldable pub finish_run : ℕ → RunRequest → StepOver → M W (Unit {0})
  finish_run request_id req StepOver.failed = fail_step request_id
  finish_run request_id req (StepOver.failed_lost reason) = lose_step request_id reason
  finish_run request_id req (StepOver.stopped_step stop) = report_step request_id stop true
  finish_run request_id req (StepOver.stopped_real stop) = report_step request_id stop false
  finish_run request_id req StepOver.stepped = resume_target request_id req
  finish_run request_id req StepOver.not_needed = resume_target request_id req

  -- The installation behind the software breakpoints, all or nothing: any failure rolls back.
  unfoldable pub install_hardware : ℕ → RunPlan → M W (Unit {0})
  install_hardware request_id plan = do
    breakpoints ← call (h.apply_breakpoints plan.tables.hw)
    if not (is_ok breakpoints) then fail_run request_id Status.no_breakpoint_slot else do
      modify λ s. record s { hw_breakpoint_ids = breakpoint_ids plan.tables.hw }
      watchpoints ← call (h.apply_watchpoints plan.watchpoints)
      if not (is_ok watchpoints) then fail_run request_id Status.no_watchpoint_slot else do
        vectors ← call (h.set_vector_catch plan.request.vector_catch_mask)
        if not (is_ok vectors) then fail_run request_id Status.unsupported else do
          step ← execute_step_over h plan.request.action
          finish_run request_id plan.request step

  unfoldable pub install_after_software : ℕ → RunPlan → Status → M W (Unit {0})
  install_after_software request_id plan Status.ok = install_hardware request_id plan
  install_after_software request_id plan status = fail_run request_id status

  unfoldable pub install_run : ℕ → RunPlan → M W (Unit {0})
  install_run request_id plan = do
    status ← sw_bp_apply h plan.tables.sw
    install_after_software request_id plan status

  unfoldable pub run_checked : ℕ → Check RunPlan → M W (Unit {0})
  run_checked request_id (Check.deny status) = respond h Opcode.run request_id status
  run_checked request_id (Check.pass plan) = install_run request_id plan

  unfoldable pub op_run : ℕ → List ℕ → M W (Unit {0})
  op_run request_id payload = do s ← gets (λ s. s); run_checked request_id (plan_run s payload)
