-- ===== src/Session/Registers.antt =====
-- The register blobs of sidp_session.cpp: a sequence of `register_value_t`, each with `value_size`
-- bytes behind it. A scan moves by at least four bytes a round, so the blob's size in rounds is
-- enough.
use sidp_client.Base.{
  ℕ, zero, suc, ◌+◌, ◌-◌, Bool, false, not, Option, none, some, List, ◌∷◌, ◌++◌, ◌&&◌, ◌||◌, ltb,
  leb, ◌==◌, if◌then◌else◌, length, field, store, from_le, le_bytes, u32, bit_and,
}
use sidp_client.Defs.{arm_reg_pc}
use sidp_client.Defs.Limits
use sidp_client.Backend.{Host, is_ok}
use sidp_client.Session.State.{M, pure, gets, call, modify, skip, ◌>>=◌}
use sidp_client.Session.Frame.{entry_id, entry_value_size, entry_flags}

-- A four-byte entry of the register that is not marked unavailable.
abbrev pub entry_holds : List ℕ → ℕ → ℕ → Bool
entry_holds buf reg offset =
    entry_id buf offset == reg
    && entry_value_size buf offset == 4
    && bit_and (entry_flags buf offset) 1 == 0

-- The loop of `capture_stack_snapshot` and of `normalize_pc_in_register_blob`: the offset of the
-- first such entry.
unfoldable pub find_entry : ℕ → ℕ → List ℕ → ℕ → ℕ → Option ℕ
unfolding from_le
find_entry zero reg buf size offset = none
find_entry (suc fuel) reg buf size offset =
    let next = offset + (Limits.register_value_size + entry_value_size buf offset) in
    let rest = find_entry fuel reg buf size next in
    if leb (offset + Limits.register_value_size) size
    then (if leb next size
        then (if entry_holds buf reg offset then some offset else rest)
        else none)
    else none

unfoldable pub normalize_pc_in_register_blob : Bool → ℕ → List ℕ → ℕ → List ℕ
unfolding find_entry store le_bytes
normalize_pc_in_register_blob pending address blob size =
    if not pending then blob else elim (find_entry size arm_reg_pc blob size 0) [
      | none ↦ blob
      | some offset ↦ store blob (offset + Limits.register_value_size) (le_bytes 4 (u32 address))
    ]

-- The loop of `op_write_registers` that checks the wire list, from `offset` on with `left` rounds
-- left: the offset behind the last entry, or `none` for `valid = false`.
unfoldable pub scan_registers : ℕ → List ℕ → ℕ → Option ℕ
unfolding from_le
scan_registers zero blob offset = some offset
scan_registers (suc left) blob offset =
    let size = entry_value_size blob offset in
    let value = offset + Limits.register_value_size in
    let rest = scan_registers left blob (value + size) in
    if ltb (length blob - offset) Limits.register_value_size
    then none
    else if size == 0 || not (entry_flags blob offset == 0) || ltb (length blob - value) size
    then none
    else rest

-- The loop of `update_step_over_after_register_write`: the value that the list gives the PC, if it
-- has a four-byte entry for it.
unfoldable pub written_pc : ℕ → List ℕ → ℕ → Option ℕ
unfolding from_le
written_pc zero blob offset = none
written_pc (suc left) blob offset =
    let value = offset + Limits.register_value_size in
    let next = value + entry_value_size blob offset in
    let rest = written_pc left blob next in
    if ltb (length blob) value
    then none
    else if ltb (length blob) next
    then none
    else if entry_id blob offset == arm_reg_pc && entry_value_size blob offset == 4
    then some (field blob value 4)
    else rest

-- The bytes that `write_current_pc` builds: one entry that sets the PC.
unfoldable pub pc_entry : ℕ → List ℕ
unfolding le_bytes
pc_entry pc = le_bytes 2 arm_reg_pc ++ 4 ∷ 0 ∷ le_bytes 4 pc

module _ {W : Type 0} (h : Host W) where
  unfoldable pub write_current_pc : ℕ → M W Bool
  write_current_pc pc = do err ← call (h.write_regs (pc_entry pc)); pure (is_ok err)

  unfoldable pub drop_step_over : M W (Unit {0})
  drop_step_over = modify λ s. record s { sw_step_over_pending = false; sw_step_over_address = 0 }

  -- A PC other than the pending one ends the step-over.
  unfoldable pub note_written_pc : ℕ → Option ℕ → M W (Unit {0})
  note_written_pc address none = skip
  note_written_pc address (some pc) = if pc == address then skip else drop_step_over

  unfoldable pub update_step_over_after_register_write : List ℕ → ℕ → M W (Unit {0})
  update_step_over_after_register_write blob register_count = do
    s ← gets (λ s. s)
    if not s.sw_step_over_pending
        then skip
        else note_written_pc s.sw_step_over_address (written_pc register_count blob 0)
