-- ===== src/Session/Start.antt =====
-- A session as the constructor of sidp_session.cpp leaves it: the members have the default values of
-- include/sidp_session.hpp.
use sidp_client.Base.{Bool, false, none, []}
use sidp_client.Defs.{StopReason, TargetState}
use sidp_client.Defs.Action
use sidp_client.Defs.Limits
use sidp_client.Session.State.{Session}

abbrev pub new_session : {W : Type 0} → W → Bool → Session W
new_session world has_sink = record {
  world = world;
  sent = [];
  has_sink = has_sink;
  state = TargetState.detached;
  stop_id = 0;
  stop_reported = false;
  attached = false;
  transport_dead = false;
  capabilities = 0;
  supported_vector_catch = 0;
  hardware_breakpoint_limit = 0;
  hardware_watchpoint_limit = 0;
  max_memory_transfer = Limits.default_max_memory_transfer;
  running_action = Action.run_continue;
  run_to_active = false;
  active_run_to_address = 0;
  hw_breakpoint_ids = [];
  sw_step_over_pending = false;
  sw_step_over_address = 0;
  scratch = none;
  tx_frame_size = 0;
  pending = record {
    reason = StopReason.unknown;
    detail = 0;
    breakpoint_id = 0;
    watchpoint_address = 0;
    registers_size = 0;
    stack_address = 0;
    stack_size = 0;
  };
  pending_registers = none;
  has_regions = false;
  regions = [];
  has_sw_table = false;
  sw_table = [];
}
