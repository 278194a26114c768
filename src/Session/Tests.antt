-- ===== src/Session/Tests.antt =====
-- The theorems on the session at concrete inputs.
use sidp_client.Base.{ℕ}
use sidp_client.Base.{◌⊎◌}
use sidp_client.Base.{inl, inr}
use sidp_client.Base.{zero, ◌≤◌, ◌≡◌, refl, ◌↔◌, true, List, [], ◌∷◌, arith, from_le}
use sidp_client.Session.Access.{normalize_attach_info, validate_memory_access, is_executable_range}
use sidp_client.Session.Admit.{plan_run-IsAdmissible, IsAdmissible}
use sidp_client.Session.Board.{
  board_info, armed, halt_request, attach_request, run_payload, ram_region, power_on, board, gone,
  ram_bytes,
}
use sidp_client.Session.Dispatch.{serve, handle_request}
use sidp_client.Session.Keeps.Defs.{HasCrc, IsValid, All}
use sidp_client.Session.Keeps.Requests.{Input, handle_all}
use sidp_client.Session.Lifecycle.{handle_disconnect}
use sidp_client.Session.Map.{
  is_executable_range_iff, IsWord64, validate_memory_access-Permits, Permits, Any, Executes,
  normalize_attach_info_bounds,
}
use sidp_client.Session.Plan.{RunPlan, Check, plan_run}
use sidp_client.Session.Readback.{substitute_read-write_image}
use sidp_client.Session.Refuse.Passing.{IsReadable}
use sidp_client.Session.Refuse.Checks.{refused-Answers, Refused}
use sidp_client.Session.Refuse.Defs.{Answers}
use sidp_client.Session.Refuse.Gate.{denied-Answers}
use sidp_client.Session.Refuse.Lost.{lost_terminal}
use sidp_client.Session.Restore.{Disconnected, handle_disconnect-Disconnected}
use sidp_client.Session.MemoryBoard.{memory_board, memory_laws, patched}
use sidp_client.Session.Unpatch.{Settled, sw_bp_restore_all-Settled}
use sidp_client.Session.Safety.{sent-HasCrc, dead_silent, buffers-IsValid}
use sidp_client.Session.Shadow.{sw_bp_write_overlap, write_image, sw_bp_substitute_read}
use sidp_client.Session.Start.{new_session}
use sidp_client.Session.Table.{sw_bp_restore_all}
use sidp_client.Session.Transparent.{IsEntry}

abbrev connect : List Input
connect = Input.start ∷ Input.request attach_request ∷ Input.request halt_request ∷ Input.poll ∷ []

sent-HasCrc_example : All HasCrc (handle_all board connect (new_session zero true)).sent
sent-HasCrc_example = sent-HasCrc board zero true connect

buffers-IsValid_example : IsValid (handle_all board connect (new_session zero true))
buffers-IsValid_example = buffers-IsValid board zero true connect

dead_silent_example :
    ((handle_all board connect (record armed { transport_dead = true })).transport_dead ≡ true)
    × ((handle_all board connect (record armed { transport_dead = true })).sent ≡ [])
dead_silent_example = dead_silent board (record armed { transport_dead = true }) connect refl

denied-Answers_example : Answers board power_on (handle_request board halt_request power_on).1
unfolding from_le
denied-Answers_example = denied-Answers board power_on halt_request refl

lost_terminal_example :
    Answers board gone (handle_all board (Input.request attach_request ∷ Input.poll ∷ []) gone)
lost_terminal_example =
    lost_terminal board gone (Input.request attach_request ∷ Input.poll ∷ []) refl
      (refl, (refl, tt))

-- A read of four bytes of the RAM in halted state, but of another stop than the present one.
abbrev stale_read : List ℕ
stale_read = 2 ∷ 0 ∷ 0 ∷ 0 ∷ 0 ∷ 0 ∷ 0 ∷ 0x20 ∷ 0 ∷ 0 ∷ 0 ∷ 0 ∷ 4 ∷ 0 ∷ 0 ∷ 0 ∷ 1 ∷ 0 ∷ 0 ∷ 0 ∷ []

stale_read_refused : ¬ IsReadable armed stale_read
unfolding from_le
stale_read_refused readable = elim readable.timely [
  | inl now ↦ ground arith
  | inr unnamed ↦ ground arith
]

refused-Answers_example : Answers board armed (serve board 0x10 3 stale_read armed).1
refused-Answers_example =
    refused-Answers board armed 0x10 3 stale_read (Refused.read_memory stale_read_refused)

handle_disconnect-Disconnected_example :
    Disconnected (handle_disconnect board armed).0 (handle_disconnect board armed).1
handle_disconnect-Disconnected_example = handle_disconnect-Disconnected board armed refl

sw_bp_restore_all-Settled_example :
    let t = (sw_bp_restore_all memory_board patched).1 in
    All (Settled memory_board memory_laws t.world t.sw_table) patched.sw_table
    × (((sw_bp_restore_all memory_board patched).0 ≡ true) ↔ (t.sw_table ≡ []))
sw_bp_restore_all-Settled_example =
    sw_bp_restore_all-Settled memory_board memory_laws patched ((inl (omega arith), tt), (tt, tt))

abbrev run_plan : RunPlan
run_plan = record {
  request = record {
    stop_id = 1;
    core_id = 0;
    action = 1;
    vector_catch_mask = 0;
    run_to_address = 0;
    breakpoint_count = 0;
    watchpoint_count = 0;
  };
  tables = record { hw = []; sw = [] };
  watchpoints = [];
}

run_plan_admitted : plan_run armed run_payload ≡ Check.pass run_plan
unfolding plan_run
run_plan_admitted = refl

plan_run-IsAdmissible_example : IsAdmissible armed run_payload run_plan
plan_run-IsAdmissible_example = plan_run-IsAdmissible armed run_payload run_plan run_plan_admitted

ram_word : All IsWord64 (ram_region ∷ [])
ram_word = ground arith

validate_memory_access-Permits_example :
    Any (λ r. Permits r 0x2000_0010 8 1 4 true) (ram_region ∷ []) × (1 ≤ 8)
unfolding validate_memory_access
validate_memory_access-Permits_example =
    validate_memory_access-Permits (ram_region ∷ []) 0x2000_0010 8 1 4 true ram_word (omega arith)
      refl

is_executable_range_iff_example :
    (is_executable_range (ram_region ∷ []) 0x2000_0010 2 true ≡ true)
    ↔ (Any (λ r. Executes r 0x2000_0010 2 true) (ram_region ∷ []) × (1 ≤ 2))
is_executable_range_iff_example =
    is_executable_range_iff (ram_region ∷ []) 0x2000_0010 2 true ram_word (omega arith)

normalize_attach_info_bounds_example :
    let t = normalize_attach_info board_info in
    (t.hardware_breakpoints ≤ 16)
    × (t.hardware_breakpoints ≤ 6)
    × (t.hardware_watchpoints ≤ 16)
    × (t.hardware_watchpoints ≤ 4)
    × (1 ≤ t.max_memory_transfer)
    × (t.max_memory_transfer ≤ 8160)
    × ((board_info.max_memory_transfer ≡ 0)
        ⊎ (t.max_memory_transfer ≤ board_info.max_memory_transfer))
    × (t.architecture ≡ board_info.architecture)
    × (t.profile ≡ board_info.profile)
    × (t.address_width ≡ board_info.address_width)
    × (t.target_id ≡ board_info.target_id)
    × (t.cpu_id ≡ board_info.cpu_id)
    × (t.supported_vector_catch_mask ≡ board_info.supported_vector_catch_mask)
    × (t.memory_regions ≡ ram_bytes)
normalize_attach_info_bounds_example = normalize_attach_info_bounds board_info

armed_entries : All IsEntry armed.sw_table
armed_entries = ground arith

-- Three bytes over the end of the patch.
substitute_read-write_image_example :
    sw_bp_substitute_read
      (sw_bp_write_overlap armed.sw_table 0x2000_0101 (7 ∷ 8 ∷ 9 ∷ []))
      0x2000_0101
      (write_image armed.sw_table 0x2000_0101 (7 ∷ 8 ∷ 9 ∷ []))
    ≡ 7 ∷ 8 ∷ 9 ∷ []
substitute_read-write_image_example =
    substitute_read-write_image armed.sw_table 0x2000_0101 (7 ∷ 8 ∷ 9 ∷ []) armed_entries
      (omega arith)
