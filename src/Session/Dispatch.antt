-- ===== src/Session/Dispatch.antt =====
-- `handle_request` of sidp_session.cpp with its gating table.
use sidp_client.Base.{ℕ, not, List, ◌||◌, ◌==◌, if◌then◌else◌, length, drop, field}
use sidp_client.Defs.{Status, TargetState, is_lost, kind_request}
use sidp_client.Defs.Limits
use sidp_client.Defs.Opcode
use sidp_client.Backend.{Host}
use sidp_client.Crc.{is_valid_message_size}
use sidp_client.Session.State.{M, gets, skip, ◌>>=◌}
use sidp_client.Session.Frame.{respond}
use sidp_client.Session.Attach.{op_attach, op_detach, op_get_state}
use sidp_client.Session.Memory.{op_read_memory, op_write_memory}
use sidp_client.Session.RegisterOps.{op_read_registers, op_write_registers}
use sidp_client.Session.Run.{op_run}
use sidp_client.Session.Control.{op_halt, op_reset_halt, op_reset_run}

-- `gate_column_index`; `unknown` is 0xFF.
pub data Column : Type 0 where
  attach detach get_state read_mem write_mem read_regs write_regs run halt reset unknown : Column

unfoldable pub gate_column : ℕ → Column
gate_column opcode =
    if opcode == Opcode.attach
    then Column.attach
    else if opcode == Opcode.detach
    then Column.detach
    else if opcode == Opcode.get_state
    then Column.get_state
    else if opcode == Opcode.read_memory
    then Column.read_mem
    else if opcode == Opcode.write_memory
    then Column.write_mem
    else if opcode == Opcode.read_registers
    then Column.read_regs
    else if opcode == Opcode.write_registers
    then Column.write_regs
    else if opcode == Opcode.run
    then Column.run
    else if opcode == Opcode.halt
    then Column.halt
    else if opcode == Opcode.reset_halt || opcode == Opcode.reset_run
    then Column.reset
    else Column.unknown

-- `gate_type`.
pub data Gate : Type 0 where
  allow attach_busy detached_error running_deny lost : Gate

-- `GATE_TABLE`.
unfoldable pub gate_table : TargetState → Column → Gate
gate_table TargetState.detached Column.attach = Gate.allow
gate_table TargetState.detached Column.get_state = Gate.allow
gate_table TargetState.detached _ = Gate.detached_error
gate_table TargetState.halted Column.attach = Gate.attach_busy
gate_table TargetState.halted _ = Gate.allow
gate_table TargetState.running Column.attach = Gate.attach_busy
gate_table TargetState.running Column.read_regs = Gate.running_deny
gate_table TargetState.running Column.write_regs = Gate.running_deny
gate_table TargetState.running Column.run = Gate.running_deny
gate_table TargetState.running _ = Gate.allow
gate_table TargetState.lost Column.get_state = Gate.allow
gate_table TargetState.lost _ = Gate.lost

module _ {W : Type 0} (h : Host W) where
  -- The last `switch`, on an opcode that has a column.
  unfoldable pub serve : ℕ → ℕ → List ℕ → M W (Unit {0})
  serve opcode request_id payload =
      if opcode == Opcode.attach
      then op_attach h request_id payload
      else if opcode == Opcode.detach
      then op_detach h request_id payload
      else if opcode == Opcode.get_state
      then op_get_state h request_id payload
      else if opcode == Opcode.read_memory
      then op_read_memory h request_id payload
      else if opcode == Opcode.write_memory
      then op_write_memory h request_id payload
      else if opcode == Opcode.read_registers
      then op_read_registers h request_id payload
      else if opcode == Opcode.write_registers
      then op_write_registers h request_id payload
      else if opcode == Opcode.run
      then op_run h request_id payload
      else if opcode == Opcode.halt
      then op_halt h request_id payload
      else if opcode == Opcode.reset_halt
      then op_reset_halt h request_id payload
      else if opcode == Opcode.reset_run
      then op_reset_run h request_id payload
      else skip

  -- The switch on the gate.
  unfoldable pub gated : Gate → ℕ → ℕ → List ℕ → M W (Unit {0})
  gated Gate.attach_busy opcode request_id payload = respond h opcode request_id Status.busy
  gated Gate.detached_error opcode request_id payload = respond h opcode request_id Status.error
  gated Gate.running_deny opcode request_id payload =
      respond h opcode request_id Status.target_running
  gated Gate.lost opcode request_id payload = respond h opcode request_id Status.target_lost
  gated Gate.allow opcode request_id payload = serve opcode request_id payload

  unfoldable pub dispatch : Column → ℕ → ℕ → List ℕ → M W (Unit {0})
  dispatch Column.unknown opcode request_id payload = do
    gone ← gets (λ s. is_lost s.state)
    respond h opcode request_id (if gone then Status.target_lost else Status.unsupported)
  dispatch column opcode request_id payload = do
    state ← gets (λ s. s.state)
    gated (gate_table state column) opcode request_id payload

  unfoldable pub handle_request : List ℕ → M W (Unit {0})
  handle_request message = do
    s ← gets (λ s. s)
    if s.transport_dead || not (is_valid_message_size (length message))
        then skip
        else if not (field message 0 1 == Limits.protocol_version)
        then skip
        else if not (field message 1 1 == kind_request) || field message 4 4 == 0
        then skip
        else dispatch (gate_column (field message 2 2)) (field message 2 2) (field message 4 4)
            (drop Limits.header_size message)
