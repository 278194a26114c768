-- ===== src/Defs.antt =====
-- include/sidp_defs.hpp. An enumeration whose values arrive on the wire unchecked (opcodes, access
-- flags, run actions) is a family of numbers, in a child module; one that only the session produces
-- is a data type here, with its wire code.
pub mod Opcode
pub mod Cap
pub mod Mem
pub mod Limits
pub mod Action
use sidp_client.Base.{ℕ, Bool, true, false}

-- `msg_kind_t`.
abbrev pub kind_request : ℕ
kind_request = 1

abbrev pub kind_response : ℕ
kind_response = 2

abbrev pub kind_event : ℕ
kind_event = 3

abbrev pub kind_log_stream : ℕ
kind_log_stream = 4

-- `reset_kind_t`, `detach_action_t`.
abbrev pub reset_system : ℕ
reset_system = 1

abbrev pub reset_nrst : ℕ
reset_nrst = 2

abbrev pub detach_keep_halted : ℕ
detach_keep_halted = 1

abbrev pub detach_resume : ℕ
detach_resume = 2

-- `breakpoint_kind_t`, `watchpoint_access_t`.
abbrev pub breakpoint_hardware : ℕ
breakpoint_hardware = 1

abbrev pub breakpoint_software : ℕ
breakpoint_software = 2

abbrev pub watch_read : ℕ
watch_read = 1

abbrev pub watch_write : ℕ
watch_write = 2

abbrev pub watch_read_write : ℕ
watch_read_write = 3

-- `register_id_t`: the two registers that the session itself reads.
abbrev pub arm_reg_sp : ℕ
arm_reg_sp = 0x0d

abbrev pub arm_reg_pc : ℕ
arm_reg_pc = 0x0f

-- `status_t`, with the constants that the session sends.
pub data Status : Type 0 where
  ok error invalid_argument unsupported busy timeout : Status
  target_running target_halted target_lost stale_stop : Status
  swd_error address_error no_breakpoint_slot no_watchpoint_slot alignment_error : Status

abbrev pub status_code : Status → ℕ
status_code Status.ok = 0
status_code Status.error = 1
status_code Status.invalid_argument = 2
status_code Status.unsupported = 3
status_code Status.busy = 4
status_code Status.timeout = 5
status_code Status.target_running = 10
status_code Status.target_halted = 11
status_code Status.target_lost = 12
status_code Status.stale_stop = 13
status_code Status.swd_error = 20
status_code Status.address_error = 21
status_code Status.no_breakpoint_slot = 22
status_code Status.no_watchpoint_slot = 23
status_code Status.alignment_error = 24

abbrev pub status_is_ok : Status → Bool
status_is_ok Status.ok = true
status_is_ok _ = false

-- `target_state_t`.
pub data TargetState : Type 0 where
  detached halted running lost : TargetState

abbrev pub state_code : TargetState → ℕ
state_code TargetState.detached = 0
state_code TargetState.halted = 1
state_code TargetState.running = 2
state_code TargetState.lost = 3

abbrev pub is_halted : TargetState → Bool
is_halted TargetState.halted = true
is_halted _ = false

abbrev pub is_running : TargetState → Bool
is_running TargetState.running = true
is_running _ = false

abbrev pub is_lost : TargetState → Bool
is_lost TargetState.lost = true
is_lost _ = false

-- `stop_reason_t`.
pub data StopReason : Type 0 where
  unknown breakpoint watchpoint single_step user_halt vector_catch fault : StopReason
  reset lockup run_to_address : StopReason

abbrev pub reason_code : StopReason → ℕ
reason_code StopReason.unknown = 0
reason_code StopReason.breakpoint = 1
reason_code StopReason.watchpoint = 2
reason_code StopReason.single_step = 3
reason_code StopReason.user_halt = 4
reason_code StopReason.vector_catch = 5
reason_code StopReason.fault = 6
reason_code StopReason.reset = 7
reason_code StopReason.lockup = 8
reason_code StopReason.run_to_address = 9

-- `target_lost_reason_t`, with the constants that the session sends.
pub data LostReason : Type 0 where
  swd_fault timeout : LostReason

abbrev pub lost_code : LostReason → ℕ
lost_code LostReason.swd_fault = 1
lost_code LostReason.timeout = 4
