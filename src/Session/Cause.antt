-- ===== src/Session/Cause.antt =====
-- Why the target halted, and which memory goes into the snapshot: what `enter_halted` and
-- `capture_stack_snapshot` of sidp_session.cpp compute, apart from their calls.
use sidp_client.Base.{
  ℕ, ◌+◌, ◌-◌, not, Option, none, some, List, [], ◌∷◌, ◌&&◌, ◌||◌, ltb, leb, ◌==◌, if◌then◌else◌,
  get_or, length, field, from_le, u64,
}
use sidp_client.Defs.{StopReason, arm_reg_sp}
use sidp_client.Defs.Action
use sidp_client.Defs.Limits
use sidp_client.Defs.Mem
use sidp_client.Backend.{StopDetect}
use sidp_client.Session.State.{Session, Region, SwBp}
use sidp_client.Session.Registers.{find_entry}
use sidp_client.Session.Shadow.{sw_bp_find_by_halt_pc}
use sidp_client.Session.Access.{has_bits, overruns}

-- What `enter_halted` finds out about a stop.
pub record Cause : Type 0 where
  pub reason : StopReason
  pub breakpoint_id : ℕ
  pub watchpoint_address : ℕ
  pub step_over : Option ℕ

abbrev pub plain : StopReason → Cause
plain reason = record {
  reason = reason;
  breakpoint_id = 0;
  watchpoint_address = 0;
  step_over = none;
}

-- A BKPT without a comparator match: the installed entry at the PC, if there is one.
abbrev pub software_stop : Option SwBp → Cause
software_stop none = plain StopReason.breakpoint
software_stop (some e) = record {
  reason = StopReason.breakpoint;
  breakpoint_id = e.id;
  watchpoint_address = 0;
  step_over = some e.address;
}

abbrev pub dfsr_halted : ℕ
dfsr_halted = 1

abbrev pub dfsr_bkpt : ℕ
dfsr_bkpt = 2

abbrev pub dfsr_dwttrap : ℕ
dfsr_dwttrap = 4

abbrev pub dfsr_vcatch : ℕ
dfsr_vcatch = 8

unfoldable pub classify : {W : Type 0} → Session W → StopDetect → Cause
unfolding sw_bp_find_by_halt_pc
classify s stop =
    if stop.lockup
    then plain StopReason.lockup
    else if stop.watchpoint_match || has_bits stop.dfsr dfsr_dwttrap
    then record {
      reason = StopReason.watchpoint;
      breakpoint_id = 0;
      watchpoint_address = stop.watchpoint_address;
      step_over = none;
    }
    else if s.run_to_active && (stop.comparator_match && stop.pc == s.active_run_to_address)
    then plain StopReason.run_to_address
    else if not stop.comparator_match && has_bits stop.dfsr dfsr_bkpt
    then software_stop (sw_bp_find_by_halt_pc s.sw_table stop.pc)
    else if stop.comparator_match || has_bits stop.dfsr dfsr_bkpt
    then record {
      reason = StopReason.breakpoint;
      breakpoint_id =
          if stop.comparator_match && ltb stop.comparator_index (length s.hw_breakpoint_ids)
          then get_or s.hw_breakpoint_ids stop.comparator_index 0
          else 0;
      watchpoint_address = 0;
      step_over = none;
    }
    else if stop.fault
    then plain StopReason.fault
    else if has_bits stop.dfsr dfsr_vcatch
    then plain StopReason.vector_catch
    else if has_bits stop.dfsr dfsr_halted && s.running_action == Action.run_single_step
    then plain StopReason.single_step
    else plain StopReason.user_halt

-- The loop of `capture_stack_snapshot` over the regions: the first readable RAM around SP.
unfoldable pub find_stack_region : List Region → ℕ → Option Region
find_stack_region [] sp = none
find_stack_region (r ∷ regions) sp =
    if not (r.type == Mem.ram) || (not (has_bits r.flags Mem.read) || overruns r)
    then find_stack_region regions sp
    else if leb r.start sp && ltb sp (u64 (r.start + r.length))
    then some r
    else find_stack_region regions sp

-- The range around SP, cut to the region and to what the frame still holds.
pub record Range : Type 0 where
  pub start : ℕ
  pub size : ℕ

abbrev pub raise_to : ℕ → ℕ → ℕ
raise_to low n = if ltb n low then low else n

abbrev pub lower_to : ℕ → ℕ → ℕ
lower_to high n = if ltb high n then high else n

unfoldable pub stack_range : Region → ℕ → ℕ → Option Range
stack_range r sp registers_size =
    let low = if ltb Limits.stack_snapshot_below sp then sp - Limits.stack_snapshot_below else 0 in
    let start = raise_to r.start low in
    let end = lower_to (u64 (r.start + r.length)) (sp + Limits.stack_snapshot_above) in
    let capacity =
      Limits.max_frame_size - Limits.header_size - Limits.stopped_event_size - registers_size in
    if leb end start
    then none
    else some (record { start = start; size = lower_to capacity (end - start) })

-- The range to read, from the register blob and the memory map.
unfoldable pub snapshot_range : List ℕ → ℕ → List Region → Option Range
unfolding find_entry find_stack_region stack_range from_le
snapshot_range blob size regions = elim (find_entry size arm_reg_sp blob size 0) [
  | none ↦ none
  | some offset ↦
      let sp = field blob (offset + Limits.register_value_size) 4 in
      elim (find_stack_region regions sp) [ none ↦ none | some r ↦ stack_range r sp size ]
]

abbrev pub snapshot_capacity : ℕ
snapshot_capacity = Limits.max_frame_size - Limits.header_size - Limits.stopped_event_size
