-- ===== src/Backend.antt =====
-- What the session calls and the repository does not implement. `Backend` is the interface
-- `target_backend_t` of include/sidp_backend.hpp, whose implementations live elsewhere: each method is
-- a function of the state `W` of the world outside. `Host` adds the TX sink that the integrator
-- passes to the session, and the ESP-IDF allocator.
use sidp_client.Base.{ℕ, Bool, true, false, List}

-- `esp_err_t`: the results that the code tells apart, and all others.
pub data EspErr : Type 0 where
  esp_ok esp_fail : EspErr
  invalid_arg invalid_state no_mem timeout invalid_size not_finished : EspErr
  other : ℕ → EspErr

abbrev pub is_ok : EspErr → Bool
is_ok EspErr.esp_ok = true
is_ok _ = false

abbrev pub is_fail : EspErr → Bool
is_fail EspErr.esp_fail = true
is_fail _ = false

abbrev pub is_timeout : EspErr → Bool
is_timeout EspErr.timeout = true
is_timeout _ = false

-- `attach_info_t`; `memory_regions` are the bytes of its span.
pub record AttachInfo : Type 0 where
  pub architecture : ℕ
  pub profile : ℕ
  pub address_width : ℕ
  pub capabilities : ℕ
  pub target_id : ℕ
  pub cpu_id : ℕ
  pub supported_vector_catch_mask : ℕ
  pub hardware_breakpoints : ℕ
  pub hardware_watchpoints : ℕ
  pub max_memory_transfer : ℕ
  pub memory_regions : List ℕ

-- `attach_params_t`.
pub record AttachParams : Type 0 where
  pub connect_under_reset : Bool
  pub halt_after_attach : Bool

-- `stop_detect_t`.
pub record StopDetect : Type 0 where
  pub halted : Bool
  pub dfsr : ℕ
  pub dhcsr : ℕ
  pub lockup : Bool
  pub pc : ℕ
  pub comparator_match : Bool
  pub comparator_index : ℕ
  pub watchpoint_match : Bool
  pub watchpoint_address : ℕ
  pub fault : Bool

-- `bp_entry_t`.
pub record BpEntry : Type 0 where
  pub breakpoint_id : ℕ
  pub address : ℕ
  pub kind : ℕ
  pub instruction_size : ℕ
  pub temporary : ℕ

-- `wp_entry_t`.
pub record WpEntry : Type 0 where
  pub watchpoint_id : ℕ
  pub address : ℕ
  pub access : ℕ
  pub size : ℕ

-- What `read_regs` leaves behind: its result, the bytes written into the buffer, and `out_size`.
pub record RegsReply : Type 0 where
  pub err : EspErr
  pub bytes : List ℕ
  pub out_size : ℕ

-- What `read_mem` leaves behind: its result, and the bytes written into the buffer.
pub record MemReply : Type 0 where
  pub err : EspErr
  pub bytes : List ℕ

-- What a call that observes the target leaves behind.
pub record StopReply : Type 0 where
  pub err : EspErr
  pub stop : StopDetect

-- What `attach` leaves behind.
pub record AttachReply : Type 0 where
  pub err : EspErr
  pub info : AttachInfo

-- `target_backend_t`, the sink `tx_sink_t` and `heap_caps_calloc`. The arguments stand in the order of
-- the source, and a buffer argument is its capacity.
pub record Host (W : Type 0) : Type 0 where
  pub attach : AttachParams → W → AttachReply × W
  pub detach : ℕ → W → EspErr × W
  pub reset : ℕ → Bool → W → StopReply × W
  pub poll_halted : W → StopReply × W
  pub halt : ℕ → W → StopReply × W
  pub resume : ℕ → ℕ → W → EspErr × W
  pub read_regs : List ℕ → ℕ → W → RegsReply × W
  pub write_regs : List ℕ → W → EspErr × W
  pub read_mem : ℕ → ℕ → ℕ → W → MemReply × W
  pub write_mem : ℕ → List ℕ → ℕ → W → EspErr × W
  pub apply_breakpoints : List BpEntry → W → EspErr × W
  pub apply_watchpoints : List WpEntry → W → EspErr × W
  pub set_vector_catch : ℕ → W → EspErr × W
  pub tx_sink : List ℕ → W → Bool × W
  pub calloc : ℕ → W → Bool × W
