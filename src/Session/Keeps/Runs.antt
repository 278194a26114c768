-- ===== src/Session/Keeps/Runs.antt =====
-- The RUN request keeps the invariant.
use sidp_client.Backend.{Host, StopDetect}
use sidp_client.Base.{ℕ, Bool, true, false, List, arith}
use sidp_client.Defs.{StopReason, Status, LostReason, TargetState}
use sidp_client.Defs.Opcode
use sidp_client.Session.Keeps.Defs.{Keeps, Keeps-preorder}
use sidp_client.Session.Keeps.Frames.{modify-Keeps, call-Keeps, respond-Keeps}
use sidp_client.Session.Keeps.Lifecycle.{poll_once-Keeps}
use sidp_client.Session.Keeps.StepOver.{execute_step_over-Keeps}
use sidp_client.Session.Keeps.Stops.{
  enter_lost-Keeps, emit_pending_stopped-Keeps, enter_halted-Keeps,
}
use sidp_client.Session.Keeps.Tables.{sw_bp_apply-Keeps, rollback_run_config-Keeps}
use sidp_client.Session.Plan.{RunPlan, RunRequest, Check}
use sidp_client.Session.Run.{
  fail_step, resume_target, install_after_software, run_checked, lose_step, install_hardware,
  op_run, install_run, finish_run, fail_run, report_step,
}
use sidp_client.Session.Sound.{sound_rules, Sound}
use sidp_client.Session.State.{modify, Session}
use sidp_client.Session.StepOver.{StepOver}

pub set_reason-Keeps :
    {W : Type 0} (reason : StopReason)
    → Sound Keeps
        (modify λ (s : Session W). record s { pending = record (s.pending) { reason = reason } })
set_reason-Keeps reason = modify-Keeps _ λ s. ground arith

module _ {W : Type 0} (h : Host W) where
  fail_run-Keeps : (id : ℕ) (status : Status) → Sound Keeps (fail_run h id status)
  unfolding fail_run
  fail_run-Keeps id status =
      search
        (sound_rules, Keeps-preorder, rollback_run_config-Keeps, respond-Keeps, enter_lost-Keeps)
        depth 12

  fail_step-Keeps : (id : ℕ) → Sound Keeps (fail_step h id)
  unfolding fail_step
  fail_step-Keeps id =
      search
        (sound_rules, Keeps-preorder, rollback_run_config-Keeps, respond-Keeps, enter_lost-Keeps)
        depth 12

  lose_step-Keeps : (id : ℕ) (reason : LostReason) → Sound Keeps (lose_step h id reason)
  unfolding lose_step
  lose_step-Keeps id reason =
      search (sound_rules, Keeps-preorder, respond-Keeps, enter_lost-Keeps) depth 12

  report_step-Keeps :
      (id : ℕ) (stop : StopDetect) (was_step : Bool) → Sound Keeps (report_step h id stop was_step)
  unfolding report_step
  report_step-Keeps id stop was_step =
      search
        (
          sound_rules, Keeps-preorder, respond-Keeps, enter_halted-Keeps, set_reason-Keeps,
          emit_pending_stopped-Keeps,
        )
        depth 16

  resumed-Keeps :
      (action : ℕ) (active : Bool) (address : ℕ)
      → Sound Keeps (
          modify λ (s : Session W). record s {
            running_action = action;
            run_to_active = active;
            active_run_to_address = address;
            state = TargetState.running;
          })
  resumed-Keeps action active address = modify-Keeps _ λ s. ground arith

  resume_target-Keeps : (id : ℕ) (req : RunRequest) → Sound Keeps (resume_target h id req)
  unfolding resume_target
  resume_target-Keeps id req =
      search
        (
          sound_rules, Keeps-preorder, call-Keeps, respond-Keeps, enter_lost-Keeps, resumed-Keeps,
          poll_once-Keeps,
        )
        depth 16

  finish_run-Keeps :
      (id : ℕ) (req : RunRequest) (step : StepOver) → Sound Keeps (finish_run h id req step)
  unfolding finish_run
  finish_run-Keeps id req StepOver.failed = fail_step-Keeps id
  finish_run-Keeps id req (StepOver.failed_lost reason) = lose_step-Keeps id reason
  finish_run-Keeps id req (StepOver.stopped_step stop) = report_step-Keeps id stop true
  finish_run-Keeps id req (StepOver.stopped_real stop) = report_step-Keeps id stop false
  finish_run-Keeps id req StepOver.stepped = resume_target-Keeps id req
  finish_run-Keeps id req StepOver.not_needed = resume_target-Keeps id req

  hw_ids-Keeps :
      (ids : List ℕ) → Sound Keeps (modify λ (s : Session W). record s { hw_breakpoint_ids = ids })
  hw_ids-Keeps ids = modify-Keeps _ λ s. ground arith

  install_hardware-Keeps : (id : ℕ) (plan : RunPlan) → Sound Keeps (install_hardware h id plan)
  unfolding install_hardware
  install_hardware-Keeps id plan =
      search
        (
          sound_rules, Keeps-preorder, call-Keeps, fail_run-Keeps, hw_ids-Keeps,
          execute_step_over-Keeps, finish_run-Keeps,
        )
        depth 24

  install_after_software-Keeps :
      (id : ℕ) (plan : RunPlan) (status : Status)
      → Sound Keeps (install_after_software h id plan status)
  unfolding install_after_software
  install_after_software-Keeps id plan Status.ok = install_hardware-Keeps id plan
  install_after_software-Keeps id plan status = fail_run-Keeps id status

  run_checked-Keeps : (id : ℕ) (plan : Check RunPlan) → Sound Keeps (run_checked h id plan)
  unfolding run_checked install_run
  run_checked-Keeps id (Check.deny status) = respond-Keeps h Opcode.run id status
  run_checked-Keeps id (Check.pass plan) =
      search (sound_rules, Keeps-preorder, sw_bp_apply-Keeps, install_after_software-Keeps) depth 12

  pub op_run-Keeps : (id : ℕ) (payload : List ℕ) → Sound Keeps (op_run h id payload)
  unfolding op_run
  op_run-Keeps id payload = search (sound_rules, Keeps-preorder, run_checked-Keeps) depth 12
