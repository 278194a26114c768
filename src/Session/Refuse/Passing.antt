-- ===== src/Session/Refuse/Passing.antt =====
-- The requests that may pass: what a RUN, memory, register or reset request must have, and that the
-- checks of the source pass no other.
-- A request that needs the target halted has it halted, at the stop it names; any other names none.
use sidp_client.Base.{◌==◌}
use sidp_client.Base.{ltb}
use sidp_client.Base.{if◌then◌else◌}
use sidp_client.Base.{
  ℕ, ◌+◌, ◌-◌, ◌*◌, ◌≤◌, ◌≡◌, refl, sym, ap, subst, ◌∙◌, ◌⊎◌, Bool, true, false, not, ◌||◌, Option,
  none, some, List, arith, length, drop, field,
}
use sidp_client.Defs.{reset_system, reset_nrst, status_is_ok, TargetState, Status}
use sidp_client.Defs.Cap
use sidp_client.Defs.Limits
use sidp_client.Defs.Mem
use sidp_client.Session.Access.{has_bits, validate_memory_access}
use sidp_client.Session.Admit.{plan_run-IsAdmissible, plan_run-request}
use sidp_client.Session.Control.{reset_refusal}
use sidp_client.Session.Memory.{
  MemRequest, contradicts, state_refusal, requires_halted, read_refusal, parse_mem_request,
  write_refusal, allows_running,
}
use sidp_client.Session.Plan.{RunRequest, parse_run_request, RunPlan, plan_run, Check}
use sidp_client.Session.RegisterOps.{
  write_registers_refusal, read_registers_refusal, registers_valid,
}
use sidp_client.Session.Registers.{scan_registers}
use sidp_client.Session.State.{Session}

abbrev pub IsTimely : {W : Type 0} → Session W → List ℕ → Type 0
IsTimely s payload =
    ((has_bits (field payload 16 2) Mem.require_halted ≡ true)
      × (s.state ≡ TargetState.halted)
      × (field payload 0 4 ≡ s.stop_id))
    ⊎ ((has_bits (field payload 16 2) Mem.require_halted ≡ false) × (field payload 0 4 ≡ 0))

-- `READ_MEMORY`: the bytes from 4 on are the address, from 12 the length, from 16 the flags and at 18
-- the access width.
pub record IsReadable {W : Type 0} (s : Session W) (payload : List ℕ) : Type 0 where
  pub whole : length payload ≡ Limits.read_memory_request_size
  pub one_flag :
      has_bits (field payload 16 2) Mem.require_halted
      ≡ not (has_bits (field payload 16 2) Mem.allow_running)
  pub timely : IsTimely s payload
  pub some_bytes : 1 ≤ field payload 12 4
  pub few_bytes : field payload 12 4 ≤ s.max_memory_transfer
  pub fits_frame :
      Limits.header_size + Limits.read_memory_response_size + field payload 12 4
      ≤ Limits.max_frame_size
  pub mapped :
      validate_memory_access s.regions
        (field payload 4 8)
        (field payload 12 4)
        (field payload 16 2)
        (field payload 18 1)
        false
      ≡ Status.ok

-- `WRITE_MEMORY`: the same fields, and behind them the bytes.
pub record IsWritable {W : Type 0} (s : Session W) (payload : List ℕ) : Type 0 where
  pub whole : length payload ≡ Limits.write_memory_request_size + field payload 12 4
  pub one_flag :
      has_bits (field payload 16 2) Mem.require_halted
      ≡ not (has_bits (field payload 16 2) Mem.allow_running)
  pub timely : IsTimely s payload
  pub some_bytes : 1 ≤ field payload 12 4
  pub few_bytes : field payload 12 4 ≤ s.max_memory_transfer
  pub mapped :
      validate_memory_access s.regions
        (field payload 4 8)
        (field payload 12 4)
        (field payload 16 2)
        (field payload 18 1)
        true
      ≡ Status.ok

-- `READ_REGISTERS`: the stop, two reserved bytes, a count and as many IDs.
pub record IsRegisterRead {W : Type 0} (s : Session W) (payload : List ℕ) : Type 0 where
  pub whole :
      length payload
      ≡ Limits.read_registers_request_size + field payload 6 2 * Limits.register_id_size
  pub reserved_zero : field payload 4 2 ≡ 0
  pub fresh : field payload 0 4 ≡ s.stop_id
  pub few_ids : field payload 6 2 ≤ 64

-- `WRITE_REGISTERS`: the stop, two reserved bytes, a count and as many values, with nothing behind.
pub record IsRegisterWrite {W : Type 0} (s : Session W) (payload : List ℕ) : Type 0 where
  pub whole : Limits.write_registers_request_size ≤ length payload
  pub reserved_zero : field payload 4 2 ≡ 0
  pub fresh : field payload 0 4 ≡ s.stop_id
  pub some_values : 1 ≤ field payload 6 2
  pub values_end :
      let blob = drop Limits.write_registers_request_size payload in
      scan_registers (field payload 6 2) blob 0 ≡ some (length blob)

-- `RESET_HALT` and `RESET_RUN`: the target has the needed capability and the kind that is asked for.
pub record IsReset {W : Type 0} (s : Session W) (needed : ℕ) (payload : List ℕ) : Type 0 where
  pub whole : length payload ≡ Limits.reset_request_size
  pub able : has_bits s.capabilities needed ≡ true
  pub known :
      ((field payload 0 1 ≡ reset_system) × (has_bits s.capabilities Cap.reset_system ≡ true))
      ⊎ ((field payload 0 1 ≡ reset_nrst) × (has_bits s.capabilities Cap.reset_nrst ≡ true))

status_ok : (status : Status) → status_is_ok status ≡ true → status ≡ Status.ok
status_ok status e = ground arith

state_refusal-Timely :
    {W : Type 0} (s : Session W) (payload : List ℕ)
    → state_refusal s (parse_mem_request payload) ≡ none
    → IsTimely s payload
unfolding state_refusal parse_mem_request
state_refusal-Timely s payload passed = ground arith

or_left : (a b : Bool) → (a || b) ≡ false → a ≡ false
or_left a b e = ground arith

or_right : (a b : Bool) → (a || b) ≡ false → b ≡ false
or_right a b e = ground arith

flags_one :
    (req : MemRequest) → contradicts req ≡ false → requires_halted req ≡ not (allows_running req)
flags_one req e = ground arith

read_whole :
    (n : ℕ) (b : Bool)
    → (not (n == Limits.read_memory_request_size) || b) ≡ false
    → n ≡ Limits.read_memory_request_size
read_whole n b e = ground arith

write_whole :
    (n k : ℕ) (b : Bool)
    → (ltb n Limits.write_memory_request_size
        || (b || not (n - Limits.write_memory_request_size == k)))
      ≡ false
    → n ≡ Limits.write_memory_request_size + k
write_whole n k b e = ground arith

some_length : (n : ℕ) (b : Bool) → (n == 0 || b) ≡ false → 1 ≤ n
some_length n b e = ground arith

few_length : (n most : ℕ) → (n == 0 || ltb most n) ≡ false → n ≤ most
few_length n most e = ground arith

or_split : (n : ℕ) (a b : Bool) → (n == 0 || (a || b)) ≡ false → (n == 0 || a) ≡ false
or_split n a b e = ground arith

room_length :
    (n most : ℕ)
    → (n == 0
        || (ltb most n
            || ltb
                (Limits.max_frame_size - Limits.header_size - Limits.read_memory_response_size)
                n))
      ≡ false
    → Limits.header_size + Limits.read_memory_response_size + n ≤ Limits.max_frame_size
room_length n most e = ground arith

-- A request that passes has passed each of the four checks.
four_checks :
    (odd large sound : Bool) (state : Option Status) (a b c : Status)
    → (if odd then some a else elim state [
      | some status ↦ some status
      | none ↦ if large then some b else if sound then none else some c
    ])
      ≡ none
    → (odd ≡ false) × (state ≡ none) × (large ≡ false) × (sound ≡ true)
four_checks true large sound state a b c passed = absurd (ground arith)
four_checks false large sound (some status) a b c passed = absurd (ground arith)
four_checks false true sound none a b c passed = absurd (ground arith)
four_checks false false false none a b c passed = absurd (ground arith)
four_checks false false true none a b c passed = (refl, refl, refl, refl)

pub read_refusal-Readable :
    {W : Type 0} (s : Session W) (payload : List ℕ)
    → read_refusal s payload ≡ none
    → IsReadable s payload
unfolding read_refusal parse_mem_request
read_refusal-Readable s payload passed =
    let req = parse_mem_request payload in
    let mapped =
      validate_memory_access s.regions req.address req.length req.flags req.access_width false in
    let (even, timely, small, sound) =
      four_checks (not (length payload == Limits.read_memory_request_size) || contradicts req)
        (req.length == 0
          || (ltb s.max_memory_transfer req.length
              || ltb (Limits.max_frame_size - Limits.header_size - Limits.read_memory_response_size)
                  req.length))
        (status_is_ok mapped) (state_refusal s req) Status.invalid_argument Status.invalid_argument
        mapped passed in
    record {
      whole = read_whole (length payload) (contradicts req) even;
      one_flag = flags_one req (or_right _ _ even);
      timely = state_refusal-Timely s payload timely;
      some_bytes = some_length req.length _ small;
      few_bytes = few_length req.length s.max_memory_transfer (or_split req.length _ _ small);
      fits_frame = room_length req.length s.max_memory_transfer small;
      mapped = status_ok mapped sound;
    }

pub write_refusal-Writable :
    {W : Type 0} (s : Session W) (payload : List ℕ)
    → write_refusal s payload ≡ none
    → IsWritable s payload
unfolding write_refusal parse_mem_request
write_refusal-Writable s payload passed =
    let req = parse_mem_request payload in
    let mapped =
      validate_memory_access s.regions req.address req.length req.flags req.access_width true in
    let (even, timely, small, sound) =
      four_checks
        (ltb (length payload) Limits.write_memory_request_size
          || (contradicts req
              || not (length payload - Limits.write_memory_request_size == req.length)))
        (req.length == 0 || ltb s.max_memory_transfer req.length) (status_is_ok mapped)
        (state_refusal s req) Status.invalid_argument Status.invalid_argument mapped passed in
    record {
      whole = write_whole (length payload) req.length (contradicts req) even;
      one_flag = flags_one req (or_left _ _ (or_right _ _ even));
      timely = state_refusal-Timely s payload timely;
      some_bytes = some_length req.length _ small;
      few_bytes = few_length req.length s.max_memory_transfer small;
      mapped = status_ok mapped sound;
    }

pub read_registers-RegisterRead :
    {W : Type 0} (s : Session W) (payload : List ℕ)
    → read_registers_refusal s payload ≡ none
    → IsRegisterRead s payload
unfolding read_registers_refusal
read_registers-RegisterRead s payload passed = record {
  whole = ground arith;
  reserved_zero = ground arith;
  fresh = ground arith;
  few_ids = ground arith;
}

pub write_registers-RegisterWrite :
    {W : Type 0} (s : Session W) (payload : List ℕ)
    → write_registers_refusal s payload ≡ none
    → IsRegisterWrite s payload
unfolding write_registers_refusal registers_valid
write_registers-RegisterWrite s payload passed = record {
  whole = ground arith;
  reserved_zero = ground arith;
  fresh = ground arith;
  some_values = ground arith;
  values_end = ground arith;
}

pub reset_refusal-Reset :
    {W : Type 0} (s : Session W) (needed : ℕ) (payload : List ℕ)
    → reset_refusal s needed payload ≡ none
    → IsReset s needed payload
unfolding reset_refusal
reset_refusal-Reset s needed payload passed = record {
  whole = ground arith;
  able = ground arith;
  known = ground arith;
}

-- `RUN`: the stop, and as many entries of breakpoints and watchpoints as announced.
pub record IsRunnable {W : Type 0} (s : Session W) (payload : List ℕ) : Type 0 where
  pub fresh : (parse_run_request payload).stop_id ≡ s.stop_id
  pub exact :
      length payload
      ≡ Limits.run_request_size
        + (parse_run_request payload).breakpoint_count * Limits.breakpoint_size
        + (parse_run_request payload).watchpoint_count * Limits.watchpoint_size

pub plan_run-Runnable :
    {W : Type 0} (s : Session W) (payload : List ℕ) (plan : RunPlan)
    → plan_run s payload ≡ Check.pass plan
    → IsRunnable s payload
plan_run-Runnable s payload plan e =
    let ok = plan_run-IsAdmissible s payload plan e in
    let same = plan_run-request s payload plan e in
    record {
      fresh = ap (λ (r : RunRequest). r.stop_id) (sym same) ∙ ok.fresh;
      exact =
          subst
            (λ (r : RunRequest).
              length payload
              ≡ Limits.run_request_size
                + r.breakpoint_count * Limits.breakpoint_size
                + r.watchpoint_count * Limits.watchpoint_size)
            same ok.exact;
    }
