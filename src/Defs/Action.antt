-- ===== src/Defs/Action.antt =====
-- `run_action_t` of include/sidp_defs.hpp.
use sidp_client.Base.{ℕ}

abbrev pub run_continue : ℕ
run_continue = 1

abbrev pub run_single_step : ℕ
run_single_step = 2

abbrev pub run_to_address : ℕ
run_to_address = 3
