-- ===== src/Session/Keeps/Snapshot.antt =====
-- The snapshot of a stop fits the frame of the STOPPED event.
use sidp_client.Base.{ℕ, ◌+◌, ◌≤◌, ◌≡◌, Option, none, some, List, arith, field}
use sidp_client.Defs.{arm_reg_sp}
use sidp_client.Defs.Limits
use sidp_client.Session.Cause.{
  snapshot_capacity, stack_range, Range, find_stack_region, snapshot_range,
}
use sidp_client.Session.Registers.{find_entry}
use sidp_client.Session.State.{Region}

stack_range-fits :
    (r : Region) (sp registers_size : ℕ) (range : Range)
    → registers_size ≤ snapshot_capacity
    → stack_range r sp registers_size ≡ some range
    → registers_size + range.size ≤ snapshot_capacity
unfolding stack_range
stack_range-fits r sp registers_size range fits found = ground arith

-- The two searches of `snapshot_range`, at what they found.
region_range-fits :
    (found : Option Region) (sp size : ℕ) (range : Range)
    → size ≤ snapshot_capacity
    → elim found [ none ↦ none | some r ↦ stack_range r sp size ] ≡ some range
    → size + range.size ≤ snapshot_capacity
region_range-fits none sp size range fits e = ground arith
region_range-fits (some r) sp size range fits e = stack_range-fits r sp size range fits e

entry_range-fits :
    (found : Option ℕ) (blob : List ℕ) (size : ℕ) (regions : List Region) (range : Range)
    → size ≤ snapshot_capacity
    → elim found [
      | none ↦ none
      | some offset ↦
          let sp = field blob (offset + Limits.register_value_size) 4 in
          elim (find_stack_region regions sp) [ none ↦ none | some r ↦ stack_range r sp size ]
    ]
      ≡ some range
    → size + range.size ≤ snapshot_capacity
entry_range-fits none blob size regions range fits e = ground arith
entry_range-fits (some offset) blob size regions range fits e =
    let sp = field blob (offset + Limits.register_value_size) 4 in
    region_range-fits (find_stack_region regions sp) sp size range fits e

pub snapshot_range-fits :
    (blob : List ℕ) (size : ℕ) (regions : List Region) (range : Range)
    → size ≤ snapshot_capacity
    → snapshot_range blob size regions ≡ some range
    → size + range.size ≤ snapshot_capacity
unfolding snapshot_range
snapshot_range-fits blob size regions range fits found =
    entry_range-fits (find_entry size arm_reg_sp blob size 0) blob size regions range fits found
