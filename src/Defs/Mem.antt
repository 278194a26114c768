-- ===== src/Defs/Mem.antt =====
-- The flag bits, widths and region types of memory accesses (include/sidp_defs.hpp).
use sidp_client.Base.{ℕ}

abbrev pub ram : ℕ
ram = 1

abbrev pub flash : ℕ
flash = 2

abbrev pub mmio : ℕ
mmio = 3

abbrev pub read : ℕ
read = 1

abbrev pub write : ℕ
write = 2

abbrev pub execute : ℕ
execute = 4

abbrev pub require_halted : ℕ
require_halted = 1

abbrev pub allow_running : ℕ
allow_running = 2

abbrev pub allow_mmio : ℕ
allow_mmio = 4

abbrev pub width_default : ℕ
width_default = 0

abbrev pub width_8 : ℕ
width_8 = 1

abbrev pub width_16 : ℕ
width_16 = 2

abbrev pub width_32 : ℕ
width_32 = 4
