-- ===== src/Defs/Limits.antt =====
-- The limits of include/sidp_defs.hpp and include/sidp_session.hpp, and the sizes of the packed wire
-- structs, which the source fixes by `static_assert`.
use sidp_client.Base.{ℕ, ◌-◌}

abbrev pub protocol_version : ℕ
protocol_version = 1

abbrev pub max_frame_size : ℕ
max_frame_size = 8192

abbrev pub max_software_breakpoints : ℕ
max_software_breakpoints = 32

abbrev pub max_hardware_breakpoints : ℕ
max_hardware_breakpoints = 16

abbrev pub max_hardware_watchpoints : ℕ
max_hardware_watchpoints = 16

abbrev pub default_max_memory_transfer : ℕ
default_max_memory_transfer = 4096

abbrev pub max_memory_regions : ℕ
max_memory_regions = 64

abbrev pub stack_snapshot_below : ℕ
stack_snapshot_below = 64

abbrev pub stack_snapshot_above : ℕ
stack_snapshot_above = 512

abbrev pub halt_timeout_ms : ℕ
halt_timeout_ms = 3000

abbrev pub header_size : ℕ
header_size = 12

abbrev pub response_prefix_size : ℕ
response_prefix_size = 4

abbrev pub memory_region_size : ℕ
memory_region_size = 20

abbrev pub attach_request_size : ℕ
attach_request_size = 8

abbrev pub attach_response_size : ℕ
attach_response_size = 32

abbrev pub get_state_response_size : ℕ
get_state_response_size = 12

abbrev pub register_value_size : ℕ
register_value_size = 4

abbrev pub register_id_size : ℕ
register_id_size = 2

abbrev pub read_registers_request_size : ℕ
read_registers_request_size = 8

abbrev pub read_registers_response_size : ℕ
read_registers_response_size = 12

abbrev pub write_registers_request_size : ℕ
write_registers_request_size = 8

abbrev pub read_memory_request_size : ℕ
read_memory_request_size = 20

abbrev pub read_memory_response_size : ℕ
read_memory_response_size = 16

abbrev pub write_memory_request_size : ℕ
write_memory_request_size = 20

abbrev pub breakpoint_size : ℕ
breakpoint_size = 16

abbrev pub watchpoint_size : ℕ
watchpoint_size = 16

abbrev pub run_request_size : ℕ
run_request_size = 24

abbrev pub reset_request_size : ℕ
reset_request_size = 4

abbrev pub detach_request_size : ℕ
detach_request_size = 4

abbrev pub stopped_event_size : ℕ
stopped_event_size = 36

abbrev pub target_lost_event_size : ℕ
target_lost_event_size = 8

abbrev pub uint64_max : ℕ
uint64_max = 18446744073709551615

-- `MAX_MEMORY_TRANSFER`, the largest transfer of which the write request fits a frame.
abbrev pub max_memory_transfer : ℕ
max_memory_transfer = max_frame_size - header_size - write_memory_request_size
