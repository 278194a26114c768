-- ===== src/Session/Plan.antt =====
-- The checks of `op_run` in sidp_session.cpp, up to the first call of the backend: the request
-- with its tables of breakpoints and watchpoints, or the status that refuses it.
use sidp_client.Base.{
  ℕ, zero, suc, ◌+◌, ◌-◌, ◌*◌, ◌%◌, ◌^◌, Bool, true, false, not, List, [], ◌∷◌, ◌++◌, ◌&&◌, ◌||◌,
  ltb, leb, ◌==◌, if◌then◌else◌, length, field, from_le,
}
use sidp_client.Defs.{
  Status, breakpoint_hardware, breakpoint_software, watch_read, watch_write, watch_read_write,
}
use sidp_client.Defs.Action
use sidp_client.Defs.Cap
use sidp_client.Defs.Limits
use sidp_client.Backend.{BpEntry, WpEntry}
use sidp_client.Session.State.{Session}
use sidp_client.Session.Access.{has_bits, is_executable_range}

pub data Check (A : Type 0) : Type 0 where
  pass : A → Check A
  deny : Status → Check A

infixl 5 ◌>>=◌ ◌>>◌
abbrev pub ◌>>=◌ : {A B : Type 0} → Check A → (A → Check B) → Check B
pass a >>= f = f a
deny status >>= f = deny status

abbrev pub ◌>>◌ : {B : Type 0} → Check (Unit {0}) → Check B → Check B
m >> n = m >>= λ _. n

-- `if (test) { send_response(status); return; }`
abbrev pub refuse_if : Bool → Status → Check (Unit {0})
refuse_if true status = deny status
refuse_if false status = pass tt

-- `run_request_t`.
pub record RunRequest : Type 0 where
  pub stop_id : ℕ
  pub core_id : ℕ
  pub action : ℕ
  pub vector_catch_mask : ℕ
  pub run_to_address : ℕ
  pub breakpoint_count : ℕ
  pub watchpoint_count : ℕ

unfoldable pub parse_run_request : List ℕ → RunRequest
unfolding from_le
parse_run_request payload = record {
  stop_id = field payload 0 4;
  core_id = field payload 4 2;
  action = field payload 6 1;
  vector_catch_mask = field payload 8 4;
  run_to_address = field payload 12 8;
  breakpoint_count = field payload 20 2;
  watchpoint_count = field payload 22 2;
}

-- The requested breakpoints so far, in the order of the wire.
pub record Tables : Type 0 where
  pub hw : List BpEntry
  pub sw : List BpEntry

pub record RunPlan : Type 0 where
  pub request : RunRequest
  pub tables : Tables
  pub watchpoints : List WpEntry

-- The checks of the fixed part.
unfoldable pub check_request : {W : Type 0} → Session W → RunRequest → Check (Unit {0})
unfolding is_executable_range
check_request s req = do
  refuse_if (not (req.core_id == 0)) Status.invalid_argument
  refuse_if (not (req.stop_id == s.stop_id)) Status.stale_stop
  refuse_if
      (not (
          req.action == Action.run_continue
          || req.action == Action.run_single_step
          || req.action == Action.run_to_address)
        || (not (req.action == Action.run_to_address) && not (req.run_to_address == 0)
            || (req.action == Action.run_to_address && req.run_to_address == 0)))
      Status.invalid_argument
  refuse_if
      (req.action == Action.run_to_address
        && (has_bits req.run_to_address 1
            || not (is_executable_range s.regions req.run_to_address 2 false)))
      Status.address_error
  refuse_if (req.action == Action.run_single_step && not (has_bits s.capabilities Cap.single_step))
      Status.unsupported
  refuse_if (has_bits req.vector_catch_mask (2 ^ 32 - 1 - s.supported_vector_catch))
      Status.unsupported

-- The checks of the announced counts against the payload and the limits.
unfoldable pub check_counts : List ℕ → RunRequest → Check (Unit {0})
check_counts payload req = do
  refuse_if
      (not (
        length payload
        == Limits.run_request_size
          + req.breakpoint_count * Limits.breakpoint_size
          + req.watchpoint_count * Limits.watchpoint_size))
      Status.invalid_argument
  refuse_if
      (ltb (Limits.max_hardware_breakpoints + Limits.max_software_breakpoints) req.breakpoint_count)
      Status.no_breakpoint_slot
  refuse_if (ltb Limits.max_hardware_watchpoints req.watchpoint_count) Status.no_watchpoint_slot

-- `breakpoint_t` at an offset; the byte at 14 is `enabled`.
abbrev pub parse_breakpoint : List ℕ → ℕ → BpEntry
parse_breakpoint payload offset = record {
  breakpoint_id = field payload offset 4;
  address = field payload (offset + 4) 8;
  kind = field payload (offset + 12) 1;
  instruction_size = field payload (offset + 13) 1;
  temporary = field payload (offset + 15) 1;
}

unfoldable pub add_software : {W : Type 0} → Session W → Tables → BpEntry → Check Tables
unfolding is_executable_range
add_software s tables entry = do
  refuse_if (not (has_bits s.capabilities Cap.software_bp)) Status.no_breakpoint_slot
  refuse_if
      (not (entry.instruction_size == 2) && not (entry.instruction_size == 4)
        || (has_bits entry.address 1
            || not (is_executable_range s.regions entry.address entry.instruction_size true)))
      Status.invalid_argument
  refuse_if (length tables.sw == Limits.max_software_breakpoints) Status.no_breakpoint_slot
  pass (record tables { sw = tables.sw ++ entry ∷ [] })

unfoldable pub add_hardware : {W : Type 0} → Session W → Tables → BpEntry → Check Tables
unfolding is_executable_range
add_hardware s tables entry = do
  refuse_if (not (has_bits s.capabilities Cap.hardware_bp) || s.hardware_breakpoint_limit == 0)
      Status.no_breakpoint_slot
  refuse_if
      (not (entry.instruction_size == 0)
        || (has_bits entry.address 1 || not (is_executable_range s.regions entry.address 2 false)))
      Status.invalid_argument
  refuse_if (leb s.hardware_breakpoint_limit (length tables.hw)) Status.no_breakpoint_slot
  pass (record tables { hw = tables.hw ++ record entry { instruction_size = 0 } ∷ [] })

unfoldable pub add_breakpoint : {W : Type 0} → Session W → List ℕ → ℕ → Tables → Check Tables
unfolding add_software add_hardware from_le
add_breakpoint s payload offset tables = do
  refuse_if
      (field payload offset 4 == 0
        || (not (field payload (offset + 14) 1 == 1)
            || not (
                field payload (offset + 12) 1 == breakpoint_hardware
                || field payload (offset + 12) 1 == breakpoint_software)))
      Status.invalid_argument
  if field payload (offset + 12) 1 == breakpoint_software
      then add_software s tables (parse_breakpoint payload offset)
      else add_hardware s tables (parse_breakpoint payload offset)

-- The loop over the breakpoints, with `left` of them from `offset` on.
unfoldable pub scan_breakpoints : {W : Type 0} → Session W → ℕ → List ℕ → ℕ → Tables → Check Tables
unfolding add_breakpoint
scan_breakpoints s zero payload offset tables = pass tables
scan_breakpoints s (suc left) payload offset tables =
    add_breakpoint s payload offset tables >>= λ tables'.
    scan_breakpoints s left payload (offset + Limits.breakpoint_size) tables'

unfoldable pub has_address : List BpEntry → ℕ → Bool
has_address [] address = false
has_address (entry ∷ entries) address = entry.address == address || has_address entries address

-- RUN_TO_ADDRESS needs a comparator of its own, or a requested one at the address.
unfoldable pub check_target : {W : Type 0} → Session W → RunRequest → Tables → Check (Unit {0})
unfolding has_address
check_target s req tables = do
  refuse_if (req.action == Action.run_to_address && not (has_bits s.capabilities Cap.hardware_bp))
      Status.no_breakpoint_slot
  refuse_if
      (req.action == Action.run_to_address
        && (not (has_address tables.hw req.run_to_address)
            && leb s.hardware_breakpoint_limit (length tables.hw)))
      Status.no_breakpoint_slot

-- `watchpoint_t` at an offset; the byte at 14 is `enabled`.
abbrev pub parse_watchpoint : List ℕ → ℕ → WpEntry
parse_watchpoint payload offset = record {
  watchpoint_id = field payload offset 4;
  address = field payload (offset + 4) 8;
  access = field payload (offset + 12) 1;
  size = field payload (offset + 13) 1;
}

unfoldable pub check_watchpoint : WpEntry → ℕ → Check (Unit {0})
check_watchpoint entry enabled = do
  refuse_if
      (entry.watchpoint_id == 0
        || (not (enabled == 1)
            || (not (
                  entry.access == watch_read
                  || entry.access == watch_write
                  || entry.access == watch_read_write)
                || not (entry.size == 1 || entry.size == 2 || entry.size == 4))))
      Status.invalid_argument
  refuse_if (not (entry.address % entry.size == 0)) Status.alignment_error

-- The loop over the watchpoints.
unfoldable pub scan_watchpoints : ℕ → List ℕ → ℕ → Check (List WpEntry)
unfolding check_watchpoint from_le
scan_watchpoints zero payload offset = pass []
scan_watchpoints (suc left) payload offset =
    check_watchpoint (parse_watchpoint payload offset) (field payload (offset + 14) 1)
    >> (scan_watchpoints left payload (offset + Limits.watchpoint_size) >>= λ rest.
        pass (parse_watchpoint payload offset ∷ rest))

unfoldable pub plan_watchpoints :
    {W : Type 0} → Session W → List ℕ → RunRequest → Check (List WpEntry)
unfolding scan_watchpoints
plan_watchpoints s payload req = do
  refuse_if (not (req.watchpoint_count == 0) && not (has_bits s.capabilities Cap.watchpoint))
      Status.no_watchpoint_slot
  refuse_if (ltb s.hardware_watchpoint_limit req.watchpoint_count) Status.no_watchpoint_slot
  scan_watchpoints req.watchpoint_count payload
      (Limits.run_request_size + req.breakpoint_count * Limits.breakpoint_size)

unfoldable pub plan_run : {W : Type 0} → Session W → List ℕ → Check RunPlan
unfolding parse_run_request check_request check_counts scan_breakpoints check_target
    plan_watchpoints
plan_run s payload = do
  refuse_if (ltb (length payload) Limits.run_request_size) Status.invalid_argument
  let req = parse_run_request payload
  check_request s req
  check_counts payload req
  tables ←
      scan_breakpoints s req.breakpoint_count payload Limits.run_request_size
        (record { hw = []; sw = [] })
  check_target s req tables
  watchpoints ← plan_watchpoints s payload req
  pass (record { request = req; tables = tables; watchpoints = watchpoints })
