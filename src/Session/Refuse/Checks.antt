-- ===== src/Session/Refuse/Checks.antt =====
-- Requests that their checks refuse.
-- The requests, by opcode, that may not pass.
use sidp_client.Backend.{Host}
use sidp_client.Base.{ℕ, ◌≡◌, refl, Option, none, some, List}
use sidp_client.Defs.{Status}
use sidp_client.Defs.Cap
use sidp_client.Defs.Opcode
use sidp_client.Session.Control.{reset_refusal, op_reset_halt, op_reset_run}
use sidp_client.Session.Dispatch.{serve}
use sidp_client.Session.Frame.{unless_refused}
use sidp_client.Session.Memory.{write_refusal, op_read_memory, op_write_memory, read_refusal}
use sidp_client.Session.Plan.{Check, plan_run, RunPlan}
use sidp_client.Session.Refuse.Defs.{Answers}
use sidp_client.Session.Refuse.Frames.{respond-Answers}
use sidp_client.Session.Refuse.Passing.{
  IsReadable, read_registers-RegisterRead, IsRegisterRead, plan_run-Runnable, IsRunnable,
  IsRegisterWrite, write_refusal-Writable, reset_refusal-Reset, IsWritable, read_refusal-Readable,
  IsReset, write_registers-RegisterWrite,
}
use sidp_client.Session.RegisterOps.{
  read_registers_refusal, op_read_registers, op_write_registers, write_registers_refusal,
}
use sidp_client.Session.Run.{run_checked, op_run}
use sidp_client.Session.State.{Session, ◌>>=◌, gets, M}

pub data Refused {W : Type 0} (s : Session W) (payload : List ℕ) : ℕ → Type 0 where
  run_request : ¬ IsRunnable s payload → Refused s payload Opcode.run
  read_memory : ¬ IsReadable s payload → Refused s payload Opcode.read_memory
  write_memory : ¬ IsWritable s payload → Refused s payload Opcode.write_memory
  read_registers : ¬ IsRegisterRead s payload → Refused s payload Opcode.read_registers
  write_registers : ¬ IsRegisterWrite s payload → Refused s payload Opcode.write_registers
  reset_halt : ¬ IsReset s Cap.reset_halt payload → Refused s payload Opcode.reset_halt
  reset_run : ¬ IsReset s Cap.reset_run payload → Refused s payload Opcode.reset_run

module _ {W : Type 0} (h : Host W) where
  refusal-Answers :
      (opcode id : ℕ) (refusal : Option Status) (m : M W (Unit {0})) (s : Session W)
      → ¬ (refusal ≡ none)
      → Answers h s (unless_refused h opcode id refusal m s).1
  unfolding unless_refused
  refusal-Answers opcode id none m s refused = absurd (refused refl)
  refusal-Answers opcode id (some other) m s refused = (respond-Answers h opcode id other).at s

  denied_run-Answers :
      (id : ℕ) (result : Check RunPlan) (s : Session W)
      → ((plan : RunPlan) → ¬ (result ≡ Check.pass plan))
      → Answers h s (run_checked h id result s).1
  unfolding run_checked
  denied_run-Answers id (Check.pass plan) s denied = absurd (denied plan refl)
  denied_run-Answers id (Check.deny other) s denied = (respond-Answers h Opcode.run id other).at s

  -- A RUN, memory, register or reset request that lacks something it must have, as its record
  -- in Session/Refuse/Passing lists it (a whole payload, the right target state and stop generation, sizes within the limits,
  -- a memory map that permits the access, the capability it needs; for RUN, the stop generation and
  -- the exact size alone): the
  -- backend is not called, and no member but those of the frame assembly changes.
  pub refused-Answers :
      (s : Session W) (opcode id : ℕ) (payload : List ℕ)
      → Refused s payload opcode
      → Answers h s (serve h opcode id payload s).1
  unfolding serve op_run op_read_memory op_write_memory op_read_registers op_write_registers
      op_reset_halt op_reset_run ◌>>=◌ gets
  refused-Answers s opcode id payload (Refused.run_request lacks) =
      denied_run-Answers id (plan_run s payload) s
        (λ plan e. lacks (plan_run-Runnable s payload plan e))
  refused-Answers s opcode id payload (Refused.read_memory lacks) =
      refusal-Answers Opcode.read_memory id (read_refusal s payload) _ s
        (λ e. lacks (read_refusal-Readable s payload e))
  refused-Answers s opcode id payload (Refused.write_memory lacks) =
      refusal-Answers Opcode.write_memory id (write_refusal s payload) _ s
        (λ e. lacks (write_refusal-Writable s payload e))
  refused-Answers s opcode id payload (Refused.read_registers lacks) =
      refusal-Answers Opcode.read_registers id (read_registers_refusal s payload) _ s
        (λ e. lacks (read_registers-RegisterRead s payload e))
  refused-Answers s opcode id payload (Refused.write_registers lacks) =
      refusal-Answers Opcode.write_registers id (write_registers_refusal s payload) _ s
        (λ e. lacks (write_registers-RegisterWrite s payload e))
  refused-Answers s opcode id payload (Refused.reset_halt lacks) =
      refusal-Answers Opcode.reset_halt id (reset_refusal s Cap.reset_halt payload) _ s
        (λ e. lacks (reset_refusal-Reset s Cap.reset_halt payload e))
  refused-Answers s opcode id payload (Refused.reset_run lacks) =
      refusal-Answers Opcode.reset_run id (reset_refusal s Cap.reset_run payload) _ s
        (λ e. lacks (reset_refusal-Reset s Cap.reset_run payload e))
