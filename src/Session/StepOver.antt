-- ===== src/Session/StepOver.antt =====
-- `execute_step_over` of sidp_session.cpp: one internal step past a software breakpoint.
use sidp_client.Session.State.{SwBp}
use sidp_client.Base.{
  ℕ, zero, suc, Bool, true, false, not, Option, none, some, ◌||◌, ◌==◌, if◌then◌else◌, get_elem?,
  u32,
}
use sidp_client.Defs.{LostReason}
use sidp_client.Defs.Action
use sidp_client.Backend.{Host, StopDetect, is_ok}
use sidp_client.Session.State.{M, pure, gets, call, modify, ◌>>=◌, ◌>>◌}
use sidp_client.Session.Registers.{write_current_pc}
use sidp_client.Session.Shadow.{sw_bp_find_by_address}
use sidp_client.Session.Table.{sw_bp_restore_one, sw_bp_install_one, mark_installed}
use sidp_client.Session.Access.{has_bits}
use sidp_client.Session.Stops.{lost_reason_of}

-- `step_over_t`, with the out parameters of each case.
pub data StepOver : Type 0 where
  not_needed stepped failed : StepOver
  stopped_step stopped_real : StopDetect → StepOver
  failed_lost : LostReason → StepOver

-- What the polls after the step have seen.
pub data Polled : Type 0 where
  halted : StopDetect → Polled
  lost : LostReason → Polled

-- A clean step sets only the step, halt and external bits.
abbrev pub is_real_stop : StopDetect → Bool
is_real_stop stop =
    stop.lockup
    || stop.fault
    || stop.watchpoint_match
    || stop.comparator_match
    || has_bits stop.dfsr 0x0e

unfoldable pub step_outcome : ℕ → StopDetect → StepOver
step_outcome action stop =
    if is_real_stop stop
    then StepOver.stopped_real stop
    else if action == Action.run_single_step
    then StepOver.stopped_step stop
    else StepOver.stepped

module _ {W : Type 0} (h : Host W) where
  -- The polls, `left` of them at most.
  unfoldable pub poll_step : ℕ → M W Polled
  poll_step zero = pure (Polled.lost LostReason.timeout)
  poll_step (suc left) = do
    reply ← call h.poll_halted
    if not (is_ok reply.err)
        then pure (Polled.lost (lost_reason_of reply.err))
        else if reply.stop.halted
        then pure (Polled.halted reply.stop)
        else poll_step left

  unfoldable pub restore_entry : ℕ → Option SwBp → M W Bool
  restore_entry i none = pure true
  restore_entry i (some e) = do
    restored ← sw_bp_restore_one h e
    if not restored then pure false else do mark_installed h i false e; pure true

  -- `sw_bp_restore_one` on the entry in the table.
  unfoldable pub restore_at : Option ℕ → M W Bool
  restore_at none = pure true
  restore_at (some i) = do found ← gets (λ s. get_elem? s.sw_table i); restore_entry i found

  unfoldable pub reinstall_at : Option ℕ → M W Bool
  reinstall_at none = pure true
  reinstall_at (some i) = sw_bp_install_one h i

  -- After the polls: the instruction has executed, so no rewind is pending any more.
  unfoldable pub finish_step : Option ℕ → ℕ → Polled → M W StepOver
  finish_step bp action (Polled.lost reason) = pure (StepOver.failed_lost reason)
  finish_step bp action (Polled.halted stop) = do
    modify λ s. record s { sw_step_over_pending = false; sw_step_over_address = 0 }
    installed ← reinstall_at bp
    if not installed
        then pure (StepOver.failed_lost LostReason.swd_fault)
        else pure (step_outcome action stop)

  -- The step, with the entry at the PC restored.
  unfoldable pub step_restored : Option ℕ → ℕ → ℕ → M W StepOver
  step_restored bp pc action = do
    written ← write_current_pc h pc
    if not written then (do reinstall_at bp; pure StepOver.failed) else do
      err ← call (h.resume Action.run_single_step 0)
      if not (is_ok err)
          then pure (StepOver.failed_lost (lost_reason_of err))
          else do polled ← poll_step 100; finish_step bp action polled

  unfoldable pub execute_step_over : ℕ → M W StepOver
  execute_step_over action = do
    s ← gets (λ s. s)
    let bp = sw_bp_find_by_address s.sw_table s.sw_step_over_address
    if not s.sw_step_over_pending then pure StepOver.not_needed else do
      restored ← restore_at bp
      if not restored
          then pure StepOver.failed
          else step_restored bp (u32 s.sw_step_over_address) action
