-- ===== src/Session/Keeps/StepOver.antt =====
-- The step over a breakpoint keeps the invariant.
use sidp_client.Backend.{is_ok, Host}
use sidp_client.Base.{ℕ, zero, suc, false, not, Option, none, some, arith}
use sidp_client.Session.Keeps.Attach.{write_current_pc-Keeps}
use sidp_client.Session.Keeps.Defs.{Keeps, Keeps-preorder}
use sidp_client.Session.Keeps.Frames.{call-Keeps, modify-Keeps}
use sidp_client.Session.Keeps.Tables.{
  mark_installed-Keeps, sw_bp_restore_one-Keeps, sw_bp_install_one-Keeps,
}
use sidp_client.Session.Sound.{Sound-if, Sound-bind, Sound, Sound-pure, sound_rules}
use sidp_client.Session.State.{modify, Session, SwBp}
use sidp_client.Session.StepOver.{
  step_restored, finish_step, reinstall_at, Polled, poll_step, execute_step_over, restore_at,
  restore_entry,
}

module _ {W : Type 0} (h : Host W) where
  poll_step-Keeps : (left : ℕ) → Sound Keeps (poll_step h left)
  unfolding poll_step
  poll_step-Keeps zero = Sound-pure Keeps-preorder _
  poll_step-Keeps (suc left) = Sound-bind Keeps-preorder _ _ (call-Keeps h.poll_halted) λ reply.
      Sound-if (not (is_ok reply.err)) _ _ (Sound-pure Keeps-preorder (Polled.lost _)) (
        Sound-if reply.stop.halted _ _ (Sound-pure Keeps-preorder (Polled.halted reply.stop))
          (poll_step-Keeps left))

  restore_entry-Keeps : (i : ℕ) (found : Option SwBp) → Sound Keeps (restore_entry h i found)
  unfolding restore_entry
  restore_entry-Keeps i none = Sound-pure Keeps-preorder _
  restore_entry-Keeps i (some e) =
      search (sound_rules, Keeps-preorder, sw_bp_restore_one-Keeps, mark_installed-Keeps) depth 12

  restore_at-Keeps : (bp : Option ℕ) → Sound Keeps (restore_at h bp)
  unfolding restore_at
  restore_at-Keeps none = Sound-pure Keeps-preorder _
  restore_at-Keeps (some i) = search (sound_rules, Keeps-preorder, restore_entry-Keeps) depth 12

  reinstall_at-Keeps : (bp : Option ℕ) → Sound Keeps (reinstall_at h bp)
  unfolding reinstall_at
  reinstall_at-Keeps none = Sound-pure Keeps-preorder _
  reinstall_at-Keeps (some i) = sw_bp_install_one-Keeps h i

  no_step_over-Keeps : Sound Keeps (
      modify λ (s : Session W). record s { sw_step_over_pending = false; sw_step_over_address = 0 })
  no_step_over-Keeps = modify-Keeps _ λ s. ground arith

  finish_step-Keeps :
      (bp : Option ℕ) (action : ℕ) (polled : Polled) → Sound Keeps (finish_step h bp action polled)
  unfolding finish_step
  finish_step-Keeps bp action (Polled.lost reason) = Sound-pure Keeps-preorder _
  finish_step-Keeps bp action (Polled.halted stop) =
      search (sound_rules, Keeps-preorder, no_step_over-Keeps, reinstall_at-Keeps) depth 12

  step_restored-Keeps : (bp : Option ℕ) (pc action : ℕ) → Sound Keeps (step_restored h bp pc action)
  unfolding step_restored
  step_restored-Keeps bp pc action =
      search
        (
          sound_rules, Keeps-preorder, call-Keeps, write_current_pc-Keeps, reinstall_at-Keeps,
          poll_step-Keeps, finish_step-Keeps,
        )
        depth 24

  pub execute_step_over-Keeps : (action : ℕ) → Sound Keeps (execute_step_over h action)
  unfolding execute_step_over
  execute_step_over-Keeps action =
      search (sound_rules, Keeps-preorder, restore_at-Keeps, step_restored-Keeps) depth 12
