-- ===== src/Session/Generation.antt =====
-- A stop of sidp_session.cpp: `enter_halted` opens a new generation.
use sidp_client.Base.{◌==◌}
use sidp_client.Backend.{StopDetect}
use sidp_client.Base.{ℕ, ◌+◌, ◌≡◌, ◌≢◌, ◌⊎◌, Bool, true, false, ◌&&◌, ◌||◌, u32}
use sidp_client.Defs.{StopReason, TargetState}
use sidp_client.Defs.Action
use sidp_client.Defs.Cap
use sidp_client.Session.Access.{has_bits}
use sidp_client.Session.Cause.{dfsr_vcatch, dfsr_bkpt, dfsr_dwttrap, classify, dfsr_halted}
use sidp_client.Session.Sound.{Sound}
use sidp_client.Session.State.{Session}

-- The members that tell the peer which stop it is and why.
abbrev Stop : Type 0
Stop = TargetState × ℕ × Bool × StopReason × ℕ × ℕ

abbrev stop_of : {W : Type 0} → Session W → Stop
stop_of s = (
  s.state, s.stop_id, s.stop_reported, s.pending.reason, s.pending.breakpoint_id,
  s.pending.watchpoint_address,
)

-- A halt that is not reported yet, with the cause that `classify` finds.
abbrev new_stop : {W : Type 0} → Session W → StopDetect → ℕ → Stop
new_stop s stop id =
    let cause = classify s stop in
    (TargetState.halted, id, false, cause.reason, cause.breakpoint_id, cause.watchpoint_address)

-- The signs of a stop, from the backend's report and what RUN had asked for.
abbrev is_watched : StopDetect → Bool
is_watched stop = stop.watchpoint_match || has_bits stop.dfsr dfsr_dwttrap

abbrev is_arrived : {W : Type 0} → Session W → StopDetect → Bool
is_arrived s stop = s.run_to_active && (stop.comparator_match && stop.pc == s.active_run_to_address)

abbrev is_broken : StopDetect → Bool
is_broken stop = stop.comparator_match || has_bits stop.dfsr dfsr_bkpt

abbrev is_stepped : {W : Type 0} → Session W → StopDetect → Bool
is_stepped s stop = has_bits stop.dfsr dfsr_halted && s.running_action == Action.run_single_step

-- None of the signs of a lockup, a watchpoint or a breakpoint.
abbrev IsPlain : StopDetect → Type 0
IsPlain stop = (stop.lockup ≡ false) × (is_watched stop ≡ false) × (is_broken stop ≡ false)

-- When a reason is the right one for a stop: its own sign is there, and none that goes before it. A
-- lockup goes first, then a watchpoint, the address to run to, a breakpoint, a fault, a caught
-- vector, a single step; a stop without a sign is a halt by the user.
abbrev Justifies : {W : Type 0} → Session W → StopDetect → StopReason → Type 0
Justifies s stop StopReason.lockup = stop.lockup ≡ true
Justifies s stop StopReason.watchpoint = (stop.lockup ≡ false) × (is_watched stop ≡ true)
Justifies s stop StopReason.run_to_address =
    (stop.lockup ≡ false) × (is_watched stop ≡ false) × (is_arrived s stop ≡ true)
Justifies s stop StopReason.breakpoint =
    (stop.lockup ≡ false)
    × (is_watched stop ≡ false)
    × (is_arrived s stop ≡ false)
    × (is_broken stop ≡ true)
Justifies s stop StopReason.fault = IsPlain stop × (stop.fault ≡ true)
Justifies s stop StopReason.vector_catch =
    IsPlain stop × (stop.fault ≡ false) × (has_bits stop.dfsr dfsr_vcatch ≡ true)
Justifies s stop StopReason.single_step =
    IsPlain stop
    × (stop.fault ≡ false)
    × (has_bits stop.dfsr dfsr_vcatch ≡ false)
    × (is_stepped s stop ≡ true)
Justifies s stop StopReason.user_halt =
    IsPlain stop
    × (stop.fault ≡ false)
    × (has_bits stop.dfsr dfsr_vcatch ≡ false)
    × (is_stepped s stop ≡ false)
Justifies s stop _ = ⊥

-- A new generation.
abbrev Stopped : {W : Type 0} → Session W → StopDetect → Session W → Type 0
Stopped s stop t =
    (t.state ≡ TargetState.halted)
    × (t.stop_id ≡ u32 (s.stop_id + 1))
    × (t.stop_id ≢ 0)
    × (t.stop_reported ≡ false)
    × Justifies s stop t.pending.reason

-- The outcomes of a stop.
abbrev pub Entered : {W : Type 0} → Session W → StopDetect → Session W → Type 0
Entered s stop t =
    ((s.state ≡ TargetState.lost) × (t ≡ s))
    ⊎ ((u32 (s.stop_id + 1) ≡ 0) × (t.state ≡ TargetState.lost))
    ⊎ Stopped s stop t

abbrev SameStop : {W : Type 0} → Session W → Session W → Type 0
SameStop s t = stop_of t ≡ stop_of s
