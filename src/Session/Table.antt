-- ===== src/Session/Table.antt =====
-- The methods of sidp_session.cpp that write the breakpoint patches to the target, and that roll a
-- RUN configuration back.
use sidp_client.Base.{Option}
use sidp_client.Base.{
  ℕ, zero, suc, ◌+◌, Bool, true, false, not, none, some, List, [], ◌∷◌, ◌++◌, ◌&&◌, ◌==◌,
  if◌then◌else◌, length, take, get_elem?, set,
}
use sidp_client.Defs.{Status}
use sidp_client.Defs.Limits
use sidp_client.Defs.Mem
use sidp_client.Defs.Action
use sidp_client.Backend.{Host, BpEntry, is_ok}
use sidp_client.Session.State.{SwBp, M, pure, gets, call, modify, ◌>>=◌, ◌>>◌}
use sidp_client.Session.Shadow.{bkpt_patch, overlaps_any, is_patched, original_of}

module _ {W : Type 0} (h : Host W) where
  -- The result; on `true` the caller marks or drops the entry.
  unfoldable pub sw_bp_restore_one : SwBp → M W Bool
  sw_bp_restore_one e = if not e.installed then pure true else do
    err ← call (h.write_mem e.address (take e.instruction_size e.original) Mem.width_default)
    pure (is_ok err)

  -- The flag `all_restored`, and the entries that stay in the table: those whose restoring write
  -- failed, in their order.
  unfoldable pub restore_list : List SwBp → M W (Bool × List SwBp)
  restore_list [] = pure (true, [])
  restore_list (e ∷ table) = do
    restored ← sw_bp_restore_one e
    rest ← restore_list table
    pure (if restored then rest else (false, e ∷ rest.1))

  unfoldable pub sw_bp_restore_all : M W Bool
  sw_bp_restore_all = do
    table ← gets (λ s. s.sw_table)
    done ← restore_list table
    modify λ s. record s { sw_table = done.1 }
    pure done.0

  -- Marks or unmarks the entry at an index.
  unfoldable pub mark_installed : ℕ → Bool → SwBp → M W (Unit {0})
  mark_installed i mark e =
      modify λ s. record s { sw_table = set s.sw_table i (record e { installed = mark }) }

  -- The entry is marked before the write, which may change the target and fail.
  unfoldable pub install_entry : ℕ → Option SwBp → M W Bool
  install_entry i none = pure true
  install_entry i (some e) = do
    mark_installed i true e
    err ← call (h.write_mem e.address bkpt_patch Mem.width_default)
    pure (is_ok err)

  unfoldable pub sw_bp_install_one : ℕ → M W Bool
  sw_bp_install_one i = do found ← gets (λ s. get_elem? s.sw_table i); install_entry i found

  -- `(void)sw_bp_restore_all(); return status;`
  unfoldable pub give_up : Status → M W Status
  give_up status = do sw_bp_restore_all; pure status

  unfoldable pub push_entry : BpEntry → List ℕ → M W (Unit {0})
  push_entry entry bytes = modify λ s. record s {
    sw_table =
        s.sw_table
        ++ record {
          id = entry.breakpoint_id;
          address = entry.address;
          instruction_size = entry.instruction_size;
          installed = false;
          original = original_of bytes;
        }
          ∷ [];
  }

  -- Stage 1 of `sw_bp_apply`.
  unfoldable pub read_originals : List BpEntry → M W Status
  read_originals [] = pure Status.ok
  read_originals (entry ∷ entries) = do
    table ← gets (λ s. s.sw_table)
    if length table == Limits.max_software_breakpoints
        then give_up Status.invalid_argument
        else if overlaps_any table entry
        then give_up Status.invalid_argument
        else do
          reply ← call (h.read_mem entry.address entry.instruction_size Mem.width_default)
          if not (is_ok reply.err)
              then give_up Status.swd_error
              else if is_patched entry reply.bytes
              then give_up Status.invalid_argument
              else do push_entry entry reply.bytes; read_originals entries

  -- Stage 2, with `left` entries from `index` on.
  unfoldable pub install_patches : ℕ → ℕ → M W Status
  install_patches zero index = pure Status.ok
  install_patches (suc left) index = do
    installed ← sw_bp_install_one index
    if not installed then give_up Status.swd_error else install_patches left (index + 1)

  -- Stage 2 follows a stage 1 without an error.
  unfoldable pub install_after : Status → M W Status
  install_after Status.ok = do count ← gets (λ s. length s.sw_table); install_patches count 0
  install_after status = pure status

  unfoldable pub sw_bp_apply : List BpEntry → M W Status
  sw_bp_apply entries = do
    restored ← sw_bp_restore_all
    if not restored
        then pure Status.swd_error
        else do status ← read_originals entries; install_after status

  unfoldable pub clear_run_tracking : M W (Unit {0})
  clear_run_tracking = modify λ s. record s {
    running_action = Action.run_continue;
    run_to_active = false;
    active_run_to_address = 0;
    hw_breakpoint_ids = [];
  }

  -- Every part is tried, whatever the ones before it returned.
  unfoldable pub rollback_run_config : M W Bool
  rollback_run_config = do
    restored ← sw_bp_restore_all
    breakpoints ← call (h.apply_breakpoints [])
    watchpoints ← call (h.apply_watchpoints [])
    vectors ← call (h.set_vector_catch 0)
    clear_run_tracking
    pure (is_ok vectors && (is_ok watchpoints && (is_ok breakpoints && restored)))
