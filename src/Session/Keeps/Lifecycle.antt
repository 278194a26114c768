-- ===== src/Session/Keeps/Lifecycle.antt =====
-- The life of a connection, but for its requests, keeps the invariant.
use sidp_client.Backend.{Host}
use sidp_client.Base.{true, false, some, arith}
use sidp_client.Defs.{TargetState}
use sidp_client.Defs.Limits
use sidp_client.Session.Keeps.Defs.{Keeps-preorder, Keeps}
use sidp_client.Session.Keeps.Frames.{modify-Keeps, call-Keeps}
use sidp_client.Session.Keeps.Stops.{
  enter_halted-Keeps, clear_debug_state-Keeps, emit_pending_stopped-Keeps, enter_lost-Keeps,
}
use sidp_client.Session.Keeps.Tables.{sw_bp_restore_all-Keeps, clear_run_tracking-Keeps}
use sidp_client.Session.Lifecycle.{
  alloc_pending, keep_for_retry, release_storage, alloc_regions, handle_poll, poll_once,
  alloc_sw_table, handle_disconnect, forget_target, zeroes, init, out_of_memory,
}
use sidp_client.Session.Sound.{Sound, sound_rules}
use sidp_client.Session.State.{Session, modify}

-- Members that the invariant does not speak of.
pub set_state-Keeps :
    {W : Type 0} (state : TargetState)
    → Sound Keeps (modify λ (s : Session W). record s { state = state })
set_state-Keeps state = modify-Keeps _ λ s. ground arith

module _ {W : Type 0} (h : Host W) where
  release_storage-Keeps : Sound Keeps (release_storage h)
  unfolding release_storage
  release_storage-Keeps = modify-Keeps _ λ s. ground arith

  out_of_memory-Keeps : Sound Keeps (out_of_memory h)
  unfolding out_of_memory
  out_of_memory-Keeps = search (sound_rules, Keeps-preorder, release_storage-Keeps) depth 12

  has_sw_table-Keeps : Sound Keeps (modify λ (s : Session W). record s { has_sw_table = true })
  has_sw_table-Keeps = modify-Keeps _ λ s. ground arith

  has_regions-Keeps : Sound Keeps (modify λ (s : Session W). record s { has_regions = true })
  has_regions-Keeps = modify-Keeps _ λ s. ground arith

  pending_buffer-Keeps : Sound Keeps (
      modify
        λ (s : Session W). record s { pending_registers = some (zeroes Limits.max_frame_size) })
  pending_buffer-Keeps = modify-Keeps _ λ s. ground arith

  scratch_buffer-Keeps :
      Sound Keeps
        (modify λ (s : Session W). record s { scratch = some (zeroes Limits.max_frame_size) })
  scratch_buffer-Keeps = modify-Keeps _ λ s. ground arith

  pub init-Keeps : Sound Keeps (init h)
  unfolding init alloc_pending alloc_regions alloc_sw_table
  init-Keeps =
      search
        (
          sound_rules, Keeps-preorder, call-Keeps, out_of_memory-Keeps, has_sw_table-Keeps,
          has_regions-Keeps, pending_buffer-Keeps, scratch_buffer-Keeps,
        )
        depth 30

  keep_for_retry-Keeps : Sound Keeps (keep_for_retry h)
  unfolding keep_for_retry
  keep_for_retry-Keeps = search (sound_rules, Keeps-preorder, set_state-Keeps) depth 12

  detached-Keeps : Sound Keeps (
      modify
        λ (s : Session W). record s { attached = false; state = TargetState.detached; stop_id = 0 })
  detached-Keeps = modify-Keeps _ λ s. ground arith

  pub forget_target-Keeps : Sound Keeps (forget_target h)
  unfolding forget_target
  forget_target-Keeps =
      search
        (
          sound_rules, Keeps-preorder, detached-Keeps, clear_debug_state-Keeps,
          clear_run_tracking-Keeps,
        )
        depth 12

  dead_transport-Keeps : Sound Keeps (modify λ (s : Session W). record s { transport_dead = true })
  dead_transport-Keeps = modify-Keeps _ λ s. ground arith

  pub handle_disconnect-Keeps : Sound Keeps (handle_disconnect h)
  unfolding handle_disconnect
  handle_disconnect-Keeps =
      search
        (
          sound_rules, Keeps-preorder, call-Keeps, dead_transport-Keeps, keep_for_retry-Keeps,
          sw_bp_restore_all-Keeps, forget_target-Keeps,
        )
        depth 24

  pub poll_once-Keeps : Sound Keeps (poll_once h)
  unfolding poll_once
  poll_once-Keeps =
      search
        (
          sound_rules, Keeps-preorder, call-Keeps, enter_lost-Keeps, enter_halted-Keeps,
          emit_pending_stopped-Keeps,
        )
        depth 16

  pub handle_poll-Keeps : Sound Keeps (handle_poll h)
  unfolding handle_poll
  handle_poll-Keeps = search (sound_rules, Keeps-preorder, poll_once-Keeps) depth 12
