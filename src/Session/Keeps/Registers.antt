-- ===== src/Session/Keeps/Registers.antt =====
-- The register requests keep the invariant.
use sidp_client.Backend.{Host}
use sidp_client.Base.{ℕ, ◌+◌, ◌≤◌, ltb, if◌then◌else◌, Option, none, some, List, arith}
use sidp_client.Defs.{Status}
use sidp_client.Defs.Limits
use sidp_client.Defs.Opcode
use sidp_client.Session.Frame.{respond}
use sidp_client.Session.Keeps.Defs.{Keeps, Keeps-preorder}
use sidp_client.Session.Keeps.Frames.{
  respond-Keeps, finish_frame-Keeps, begin_frame-Keeps, call-Keeps, modify-Keeps, put-Keeps,
}
use sidp_client.Session.Keeps.Memory.{unless_refused-Keeps}
use sidp_client.Session.Keeps.Stops.{send_backend_failure-Keeps}
use sidp_client.Session.RegisterOps.{
  op_read_registers, write_target_registers, answer_registers, op_write_registers,
  read_target_registers, blob_capacity,
}
use sidp_client.Session.Registers.{
  note_written_pc, drop_step_over, update_step_over_after_register_write,
}
use sidp_client.Session.Sound.{sound_rules, Sound, Sound-skip, Sound-if', Sound-bind, Sound-gets}
use sidp_client.Session.State.{Session, modify}

module _ {W : Type 0} (h : Host W) where
  frame_size-Keeps :
      (size : ℕ)
      → size ≤ blob_capacity
      → Sound Keeps (
          modify λ (s : Session W). record s {
            tx_frame_size = Limits.header_size + Limits.read_registers_response_size + size;
          })
  frame_size-Keeps size fits = modify-Keeps _ λ s. ground arith

  answer_registers-Keeps :
      (bytes : List ℕ) (size : ℕ)
      → size ≤ blob_capacity
      → Sound Keeps (answer_registers h bytes size)
  unfolding answer_registers
  answer_registers-Keeps bytes size fits =
      Sound-bind Keeps-preorder _ _ (Sound-gets Keeps-preorder _) λ s.
        Sound-bind Keeps-preorder _ _ (put-Keeps h _ _) λ _.
          Sound-bind Keeps-preorder _ _ (frame_size-Keeps size fits)
            λ _. search (sound_rules, Keeps-preorder, put-Keeps, finish_frame-Keeps) depth 24

  -- The test of the size that the backend returns stands before the frame takes that size.
  checked_answer-Keeps :
      (id : ℕ) (bytes : List ℕ) (size : ℕ)
      → Sound Keeps (
          if ltb blob_capacity size
          then respond h Opcode.read_registers id Status.swd_error
          else answer_registers h bytes size)
  checked_answer-Keeps id bytes size =
      Sound-if' (ltb blob_capacity size) (respond h Opcode.read_registers id Status.swd_error)
        (answer_registers h bytes size)
        (λ long. respond-Keeps h Opcode.read_registers id Status.swd_error)
        (λ fits. answer_registers-Keeps bytes size (ground arith))

  read_target_registers-Keeps :
      (id : ℕ) (payload : List ℕ) → Sound Keeps (read_target_registers h id payload)
  unfolding read_target_registers
  read_target_registers-Keeps id payload =
      search
        (
          sound_rules, Keeps-preorder, call-Keeps, begin_frame-Keeps, put-Keeps, respond-Keeps,
          send_backend_failure-Keeps, checked_answer-Keeps,
        )
        depth 24

  pub op_read_registers-Keeps :
      (id : ℕ) (payload : List ℕ) → Sound Keeps (op_read_registers h id payload)
  unfolding op_read_registers
  op_read_registers-Keeps id payload =
      search (sound_rules, Keeps-preorder, unless_refused-Keeps, read_target_registers-Keeps) depth
        12

  drop_step_over-Keeps : Sound Keeps (drop_step_over h)
  unfolding drop_step_over
  drop_step_over-Keeps = modify-Keeps _ λ s. ground arith

  note_written_pc-Keeps : (address : ℕ) (pc : Option ℕ) → Sound Keeps (note_written_pc h address pc)
  unfolding note_written_pc
  note_written_pc-Keeps address none = Sound-skip Keeps-preorder
  note_written_pc-Keeps address (some pc) =
      search (sound_rules, Keeps-preorder, drop_step_over-Keeps) depth 12

  update_step_over-Keeps :
      (blob : List ℕ) (count : ℕ) → Sound Keeps (update_step_over_after_register_write h blob count)
  unfolding update_step_over_after_register_write
  update_step_over-Keeps blob count =
      search (sound_rules, Keeps-preorder, note_written_pc-Keeps) depth 12

  write_target_registers-Keeps :
      (id : ℕ) (payload : List ℕ) → Sound Keeps (write_target_registers h id payload)
  unfolding write_target_registers
  write_target_registers-Keeps id payload =
      search
        (
          sound_rules, Keeps-preorder, call-Keeps, respond-Keeps, send_backend_failure-Keeps,
          update_step_over-Keeps,
        )
        depth 24

  pub op_write_registers-Keeps :
      (id : ℕ) (payload : List ℕ) → Sound Keeps (op_write_registers h id payload)
  unfolding op_write_registers
  op_write_registers-Keeps id payload =
      search (sound_rules, Keeps-preorder, unless_refused-Keeps, write_target_registers-Keeps) depth
        12
