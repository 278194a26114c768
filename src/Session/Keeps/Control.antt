-- ===== src/Session/Keeps/Control.antt =====
-- Halt and reset requests keep the invariant.
use sidp_client.Backend.{StopDetect, EspErr, Host}
use sidp_client.Base.{ℕ, List}
use sidp_client.Session.Control.{
  reset_and_halt, halt_running, clear_run_config, op_reset_halt, op_reset_run, op_halt,
  report_reset, reset_and_run, fail_reset, prepare_reset,
}
use sidp_client.Session.Keeps.Defs.{Keeps-preorder, Keeps}
use sidp_client.Session.Keeps.Frames.{call-Keeps, respond-Keeps}
use sidp_client.Session.Keeps.Lifecycle.{set_state-Keeps}
use sidp_client.Session.Keeps.Memory.{unless_refused-Keeps}
use sidp_client.Session.Keeps.Runs.{set_reason-Keeps}
use sidp_client.Session.Keeps.Stops.{
  clear_debug_state-Keeps, enter_halted-Keeps, enter_lost-Keeps, send_backend_failure-Keeps,
  emit_pending_stopped-Keeps,
}
use sidp_client.Session.Keeps.Tables.{clear_run_tracking-Keeps, rollback_run_config-Keeps}
use sidp_client.Session.Sound.{sound_rules, Sound}

module _ {W : Type 0} (h : Host W) where
  pub op_halt-Keeps : (id : ℕ) (payload : List ℕ) → Sound Keeps (op_halt h id payload)
  unfolding op_halt halt_running
  op_halt-Keeps id payload =
      search
        (
          sound_rules, Keeps-preorder, call-Keeps, respond-Keeps, send_backend_failure-Keeps,
          enter_halted-Keeps, emit_pending_stopped-Keeps,
        )
        depth 24

  clear_run_config-Keeps : (opcode id : ℕ) → Sound Keeps (clear_run_config h opcode id)
  unfolding clear_run_config
  clear_run_config-Keeps opcode id =
      search
        (sound_rules, Keeps-preorder, rollback_run_config-Keeps, respond-Keeps, enter_lost-Keeps)
        depth 16

  prepare_reset-Keeps : (opcode id : ℕ) → Sound Keeps (prepare_reset h opcode id)
  unfolding prepare_reset
  prepare_reset-Keeps opcode id =
      search
        (
          sound_rules, Keeps-preorder, call-Keeps, clear_run_config-Keeps,
          send_backend_failure-Keeps, enter_halted-Keeps,
        )
        depth 16

  fail_reset-Keeps : (opcode id : ℕ) (err : EspErr) → Sound Keeps (fail_reset h opcode id err)
  unfolding fail_reset
  fail_reset-Keeps opcode id err =
      search (sound_rules, Keeps-preorder, respond-Keeps, enter_lost-Keeps) depth 16

  report_reset-Keeps : (id : ℕ) (stop : StopDetect) → Sound Keeps (report_reset h id stop)
  unfolding report_reset
  report_reset-Keeps id stop =
      search
        (
          sound_rules, Keeps-preorder, enter_halted-Keeps, set_reason-Keeps, respond-Keeps,
          emit_pending_stopped-Keeps,
        )
        depth 16

  reset_and_halt-Keeps : (id kind : ℕ) → Sound Keeps (reset_and_halt h id kind)
  unfolding reset_and_halt
  reset_and_halt-Keeps id kind =
      search
        (
          sound_rules, Keeps-preorder, call-Keeps, fail_reset-Keeps, clear_debug_state-Keeps,
          clear_run_tracking-Keeps, report_reset-Keeps,
        )
        depth 16

  pub op_reset_halt-Keeps : (id : ℕ) (payload : List ℕ) → Sound Keeps (op_reset_halt h id payload)
  unfolding op_reset_halt
  op_reset_halt-Keeps id payload =
      search
        (
          sound_rules, Keeps-preorder, unless_refused-Keeps, prepare_reset-Keeps,
          reset_and_halt-Keeps,
        )
        depth 16

  reset_and_run-Keeps : (id kind : ℕ) → Sound Keeps (reset_and_run h id kind)
  unfolding reset_and_run
  reset_and_run-Keeps id kind =
      search
        (
          sound_rules, Keeps-preorder, call-Keeps, fail_reset-Keeps, clear_debug_state-Keeps,
          clear_run_tracking-Keeps, set_state-Keeps, respond-Keeps,
        )
        depth 24

  pub op_reset_run-Keeps : (id : ℕ) (payload : List ℕ) → Sound Keeps (op_reset_run h id payload)
  unfolding op_reset_run
  op_reset_run-Keeps id payload =
      search
        (
          sound_rules, Keeps-preorder, unless_refused-Keeps, prepare_reset-Keeps,
          reset_and_run-Keeps,
        )
        depth 16
