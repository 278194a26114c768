-- ===== src/Defs/Opcode.antt =====
-- `opcode_t` of include/sidp_defs.hpp: the opcodes that the session serves, and its two events.
use sidp_client.Base.{ℕ}

abbrev pub attach : ℕ
attach = 0x01

abbrev pub detach : ℕ
detach = 0x02

abbrev pub get_state : ℕ
get_state = 0x03

abbrev pub read_memory : ℕ
read_memory = 0x10

abbrev pub write_memory : ℕ
write_memory = 0x12

abbrev pub read_registers : ℕ
read_registers = 0x13

abbrev pub write_registers : ℕ
write_registers = 0x14

abbrev pub run : ℕ
run = 0x20

abbrev pub halt : ℕ
halt = 0x21

abbrev pub reset_halt : ℕ
reset_halt = 0x22

abbrev pub reset_run : ℕ
reset_run = 0x23

abbrev pub evt_stopped : ℕ
evt_stopped = 0x80

abbrev pub evt_target_lost : ℕ
evt_target_lost = 0x81
