-- ===== src/Session/Keeps/Attach.antt =====
-- Attach, detach and the state query keep the invariant.
use sidp_client.Backend.{AttachInfo, Host, StopDetect}
use sidp_client.Base.{
  ℕ, zero, suc, ◌+◌, ◌≤◌, ◌≡◌, refl, ap, Bool, true, false, not, Option, none, some, List, [],
  arith, length,
}
use sidp_client.Defs.Limits
use sidp_client.Session.Attach.{
  parse_regions, refuse_attach, op_detach, settle_attached, accept_attach, regions_fit,
  answer_attach, rewind_pc, adopt, op_attach, halt_attached, region_entries, op_get_state,
  note_halt, clean_up_detach, note_entry,
}
use sidp_client.Session.Keeps.Defs.{Keeps-preorder, Keeps}
use sidp_client.Session.Keeps.Frames.{
  finish_frame-Keeps, begin_frame-Keeps, call-Keeps, modify-Keeps, put-Keeps, respond-Keeps,
}
use sidp_client.Session.Keeps.Lifecycle.{
  forget_target-Keeps, handle_disconnect-Keeps, set_state-Keeps,
}
use sidp_client.Session.Keeps.Stops.{
  send_backend_failure-Keeps, clear_debug_state-Keeps, enter_halted-Keeps, enter_lost-Keeps,
  emit_pending_stopped-Keeps,
}
use sidp_client.Session.Keeps.Tables.{sw_bp_restore_all-Keeps, clear_run_tracking-Keeps}
use sidp_client.Session.Registers.{write_current_pc}
use sidp_client.Session.Sound.{Sound, Sound-skip, Sound-if', Sound-bind, sound_rules}
use sidp_client.Session.State.{modify, Region, SwBp, Session}

length-parse_regions :
    (left : ℕ) (bytes : List ℕ) (offset : ℕ) → length (parse_regions left bytes offset) ≡ left
unfolding parse_regions
length-parse_regions zero bytes offset = refl
length-parse_regions (suc left) bytes offset =
    ap suc (length-parse_regions left bytes (offset + Limits.memory_region_size))

module _ {W : Type 0} (h : Host W) where
  adopt_info-Keeps :
      (info : AttachInfo)
      → Sound Keeps (
          modify λ (s : Session W). record s {
            attached = true;
            capabilities = info.capabilities;
            hardware_breakpoint_limit = info.hardware_breakpoints;
            hardware_watchpoint_limit = info.hardware_watchpoints;
            max_memory_transfer = info.max_memory_transfer;
            supported_vector_catch = info.supported_vector_catch_mask;
            stop_id = 0;
          })
  adopt_info-Keeps info = modify-Keeps _ λ s. ground arith

  empty_tables-Keeps :
      Sound Keeps (modify λ (s : Session W). record s { sw_table = []; regions = [] })
  empty_tables-Keeps = modify-Keeps _ λ s. ground arith

  adopt-Keeps : (info : AttachInfo) → Sound Keeps (adopt h info)
  unfolding adopt
  adopt-Keeps info =
      search
        (
          sound_rules, Keeps-preorder, adopt_info-Keeps, clear_debug_state-Keeps,
          clear_run_tracking-Keeps, empty_tables-Keeps,
        )
        depth 16

  refuse_attach-Keeps : (id : ℕ) → Sound Keeps (refuse_attach h id)
  unfolding refuse_attach
  refuse_attach-Keeps id =
      search (sound_rules, Keeps-preorder, respond-Keeps, handle_disconnect-Keeps) depth 12

  settle_attached-Keeps : (halt : Bool) → Sound Keeps (settle_attached h halt)
  unfolding settle_attached halt_attached
  settle_attached-Keeps halt =
      search
        (
          sound_rules, Keeps-preorder, call-Keeps, set_state-Keeps, enter_lost-Keeps,
          enter_halted-Keeps, emit_pending_stopped-Keeps,
        )
        depth 24

  answer_attach-Keeps :
      (id : ℕ) (halt : Bool) (info : AttachInfo) → Sound Keeps (answer_attach h id halt info)
  unfolding answer_attach
  answer_attach-Keeps id halt info =
      search
        (
          sound_rules, Keeps-preorder, refuse_attach-Keeps, begin_frame-Keeps, put-Keeps,
          finish_frame-Keeps, settle_attached-Keeps,
        )
        depth 16

  set_regions-Keeps :
      (regions : List Region)
      → length regions ≤ Limits.max_memory_regions
      → Sound Keeps (modify λ (s : Session W). record s { regions = regions })
  set_regions-Keeps regions fits = modify-Keeps _ λ s. ground arith

  parsed-Keeps :
      (info : AttachInfo)
      → not (regions_fit info) ≡ false
      → Sound Keeps (
          modify λ (s : Session W). record s {
            regions = parse_regions (region_entries info) info.memory_regions 0;
          })
  parsed-Keeps info fit =
      set_regions-Keeps _
        (ground (arith, length-parse_regions (region_entries info) info.memory_regions 0))

  accept_attach-Keeps :
      (id : ℕ) (halt : Bool) (info : AttachInfo) → Sound Keeps (accept_attach h id halt info)
  unfolding accept_attach
  accept_attach-Keeps id halt info = Sound-bind Keeps-preorder _ _ (adopt-Keeps info) λ done.
      Sound-if' (not (regions_fit info)) _ _ (λ e. refuse_attach-Keeps id)
        λ fit.
          Sound-bind Keeps-preorder _ _ (parsed-Keeps info fit)
            λ set. answer_attach-Keeps id halt info

  pub op_attach-Keeps : (id : ℕ) (payload : List ℕ) → Sound Keeps (op_attach h id payload)
  unfolding op_attach
  op_attach-Keeps id payload =
      search
        (
          sound_rules, Keeps-preorder, call-Keeps, respond-Keeps, send_backend_failure-Keeps,
          accept_attach-Keeps,
        )
        depth 24

  step_over_at-Keeps :
      (address : ℕ)
      → Sound Keeps (
          modify λ (s : Session W). record s {
            sw_step_over_pending = true;
            sw_step_over_address = address;
          })
  step_over_at-Keeps address = modify-Keeps _ λ s. ground arith

  note_entry-Keeps : (found : Option SwBp) → Sound Keeps (note_entry h found)
  unfolding note_entry
  note_entry-Keeps none = Sound-skip Keeps-preorder
  note_entry-Keeps (some e) = step_over_at-Keeps e.address

  note_halt-Keeps : (stop : StopDetect) → Sound Keeps (note_halt h stop)
  unfolding note_halt
  note_halt-Keeps stop = search (sound_rules, Keeps-preorder, note_entry-Keeps) depth 12

  pub write_current_pc-Keeps : (pc : ℕ) → Sound Keeps (write_current_pc h pc)
  unfolding write_current_pc
  write_current_pc-Keeps pc = search (sound_rules, Keeps-preorder, call-Keeps) depth 12

  clean_up_detach-Keeps : (id action : ℕ) → Sound Keeps (clean_up_detach h id action)
  unfolding clean_up_detach rewind_pc
  clean_up_detach-Keeps id action =
      search
        (
          sound_rules, Keeps-preorder, call-Keeps, respond-Keeps, write_current_pc-Keeps,
          sw_bp_restore_all-Keeps, forget_target-Keeps,
        )
        depth 24

  pub op_detach-Keeps : (id : ℕ) (payload : List ℕ) → Sound Keeps (op_detach h id payload)
  unfolding op_detach
  op_detach-Keeps id payload =
      search
        (
          sound_rules, Keeps-preorder, call-Keeps, respond-Keeps, send_backend_failure-Keeps,
          note_halt-Keeps, clean_up_detach-Keeps,
        )
        depth 24

  pub op_get_state-Keeps : (id : ℕ) (payload : List ℕ) → Sound Keeps (op_get_state h id payload)
  unfolding op_get_state
  op_get_state-Keeps id payload =
      search
        (
          sound_rules, Keeps-preorder, respond-Keeps, begin_frame-Keeps, put-Keeps,
          finish_frame-Keeps,
        )
        depth 24
