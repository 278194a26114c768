-- ===== src/Session/Board.antt =====
-- A host for the tests: an STM32-like target that is always halted, with a memory of zeros. The world
-- counts the frames that the sink has taken.
use sidp_client.Backend.{StopDetect, AttachInfo, Host, EspErr}
use sidp_client.Base.{ℕ, zero, suc, ◌+◌, true, false, List, [], ◌∷◌}
use sidp_client.Defs.{TargetState}
use sidp_client.Session.Start.{new_session}
use sidp_client.Session.State.{Region, Session}

abbrev pub stopped_now : StopDetect
stopped_now = record {
  halted = true;
  dfsr = 1;
  dhcsr = 0;
  lockup = false;
  pc = 0x0800_0100;
  comparator_match = false;
  comparator_index = 0;
  watchpoint_match = false;
  watchpoint_address = 0;
  fault = false;
}

-- 4 KiB of RAM that may be read, written and executed, as an entry of the map and as a region.
abbrev pub ram_bytes : List ℕ
ram_bytes = 0 ∷ 0 ∷ 0 ∷ 0x20 ∷ 0 ∷ 0 ∷ 0 ∷ 0 ∷ 0 ∷ 0x10 ∷ 0 ∷ 0 ∷ 0 ∷ 0 ∷ 0 ∷ 0 ∷ 1 ∷ 7 ∷ 0 ∷ 0 ∷ []

abbrev pub ram_region : Region
ram_region = record { start = 0x2000_0000; length = 0x1000; type = 1; flags = 7 }

abbrev pub board_info : AttachInfo
board_info = record {
  architecture = 1;
  profile = 1;
  address_width = 32;
  capabilities = 0xffff_ffff;
  target_id = 0;
  cpu_id = 0;
  supported_vector_catch_mask = 1;
  hardware_breakpoints = 6;
  hardware_watchpoints = 4;
  max_memory_transfer = 0;
  memory_regions = ram_bytes;
}

abbrev pub zero_bytes : ℕ → List ℕ
zero_bytes zero = []
zero_bytes (suc n) = 0 ∷ zero_bytes n

abbrev pub board : Host ℕ
board = record {
  attach = λ params w. (record { err = EspErr.esp_ok; info = board_info }, w);
  detach = λ action w. (EspErr.esp_ok, w);
  reset = λ kind halt_after w. (record { err = EspErr.esp_ok; stop = stopped_now }, w);
  poll_halted = λ w. (record { err = EspErr.esp_ok; stop = stopped_now }, w);
  halt = λ timeout w. (record { err = EspErr.esp_ok; stop = stopped_now }, w);
  resume = λ action address w. (EspErr.esp_ok, w);
  read_regs = λ ids capacity w. (record { err = EspErr.esp_ok; bytes = []; out_size = 0 }, w);
  write_regs = λ bytes w. (EspErr.esp_ok, w);
  read_mem = λ address size width w. (record { err = EspErr.esp_ok; bytes = zero_bytes size }, w);
  write_mem = λ address bytes width w. (EspErr.esp_ok, w);
  apply_breakpoints = λ entries w. (EspErr.esp_ok, w);
  apply_watchpoints = λ entries w. (EspErr.esp_ok, w);
  set_vector_catch = λ mask w. (EspErr.esp_ok, w);
  tx_sink = λ frame w. (true, w + 1);
  calloc = λ size w. (true, w);
}

-- A request: its header, without a checksum, and its payload.
abbrev pub request_bytes : ℕ → ℕ → List ℕ → List ℕ
request_bytes opcode id payload = 1 ∷ 1 ∷ opcode ∷ 0 ∷ id ∷ 0 ∷ 0 ∷ 0 ∷ 0 ∷ 0 ∷ 0 ∷ 0 ∷ payload

abbrev pub attach_request : List ℕ
attach_request = request_bytes 0x01 1 (0 ∷ 0 ∷ 0 ∷ 0 ∷ 0 ∷ 1 ∷ 0 ∷ 0 ∷ [])

abbrev pub halt_request : List ℕ
halt_request = request_bytes 0x21 2 []

abbrev pub power_on : Session ℕ
power_on = record (new_session zero true) {
  has_regions = true;
  has_sw_table = true;
  regions = ram_region ∷ [];
}

-- An attached session with one armed breakpoint.
abbrev pub armed : Session ℕ
armed = record power_on {
  attached = true;
  state = TargetState.halted;
  stop_id = 1;
  sw_table =
      record {
        id = 1;
        address = 0x2000_0100;
        instruction_size = 2;
        installed = true;
        original = 1 ∷ 2 ∷ 3 ∷ 4 ∷ [];
      }
      ∷ [];
}

abbrev pub gone : Session ℕ
gone = record armed { state = TargetState.lost }

-- A RUN that continues, without breakpoints and watchpoints, at stop 1.
abbrev pub run_payload : List ℕ
run_payload =
    1 ∷ 0 ∷ 0 ∷ 0 ∷ 0 ∷ 0 ∷ 1 ∷ 0 ∷ 0 ∷ 0 ∷ 0 ∷ 0 ∷ 0 ∷ 0 ∷ 0 ∷ 0 ∷ 0 ∷ 0 ∷ 0 ∷ 0 ∷ 0 ∷ 0 ∷ 0 ∷ 0
    ∷ []
