-- ===== src/Defs/Cap.antt =====
-- `capability_t` of include/sidp_defs.hpp, and the mask of the capabilities that the session serves.
use sidp_client.Base.{ℕ, ◌+◌}

abbrev pub stop_snapshot : ℕ
stop_snapshot = 1

abbrev pub software_bp : ℕ
software_bp = 4

abbrev pub hardware_bp : ℕ
hardware_bp = 8

abbrev pub watchpoint : ℕ
watchpoint = 16

abbrev pub single_step : ℕ
single_step = 32

abbrev pub reset_halt : ℕ
reset_halt = 64

abbrev pub fpu : ℕ
fpu = 512

abbrev pub reset_system : ℕ
reset_system = 1024

abbrev pub reset_nrst : ℕ
reset_nrst = 2048

abbrev pub reset_run : ℕ
reset_run = 4096

-- `HANDLED_CAPABILITIES` of include/sidp_session.hpp, the sum of the ten bits above.
abbrev pub handled : ℕ
handled =
    stop_snapshot + software_bp + hardware_bp + watchpoint + single_step + reset_halt + reset_system
    + reset_nrst + reset_run + fpu
