-- ===== src/Session/Restore.antt =====
-- The patches leave the target: what `sw_bp_restore_all` and `handle_disconnect` promise.
use sidp_client.Backend.{is_ok, Host}
use sidp_client.Base.{
  ◌≡◌, refl, ◌∙◌, ◌↔◌, Bool, true, false, not, ◌&&◌, List, [], ◌∷◌, arith, if◌then◌else◌,
}
use sidp_client.Defs.{TargetState, detach_keep_halted}
use sidp_client.Defs.Limits
use sidp_client.Session.Lifecycle.{forget_target, handle_disconnect, keep_for_retry}
use sidp_client.Session.Sound.{if-ends}
use sidp_client.Session.State.{modify, Session, call, gets, SwBp, ◌>>◌, pure, ◌>>=◌}
use sidp_client.Session.Stops.{clear_debug_state}
use sidp_client.Session.Table.{
  restore_list, clear_run_tracking, sw_bp_restore_all, sw_bp_restore_one,
}

-- The transport and the ownership of the target, before and after.
abbrev SameLink : {W : Type 0} → Session W → Session W → Type 0
SameLink s t = (t.transport_dead ≡ s.transport_dead) × (t.attached ≡ s.attached)

-- The session after a disconnect, by its result.
abbrev pub Disconnected : {W : Type 0} → Bool → Session W → Type 0
Disconnected true t =
    (t.transport_dead ≡ true)
    × ((t.attached ≡ false)
        × ((t.state ≡ TargetState.detached) × ((t.sw_table ≡ []) × (t.stop_id ≡ 0))))
Disconnected false t =
    (t.transport_dead ≡ true) × ((t.attached ≡ true) × (t.state ≡ TargetState.lost))

module _ {W : Type 0} (h : Host W) where
  -- The flag and the entries that stay agree.
  restore_list_iff :
      (table : List SwBp) (s : Session W)
      → ((restore_list h table s).0.0 ≡ true) ↔ ((restore_list h table s).0.1 ≡ [])
  unfolding restore_list ◌>>=◌ pure
  restore_list_iff [] s = (λ e. refl, λ e. refl)
  restore_list_iff (e ∷ table) s =
      let rest = restore_list_iff table (sw_bp_restore_one h e s).1 in
      decided (sw_bp_restore_one h e s).0 (restore_list h table (sw_bp_restore_one h e s).1).0 rest
    where
      decided :
          (restored : Bool) (rest : Bool × List SwBp)
          → (rest.0 ≡ true) ↔ (rest.1 ≡ [])
          → ((if restored then rest else (false, e ∷ rest.1)).0 ≡ true)
            ↔ ((if restored then rest else (false, e ∷ rest.1)).1 ≡ [])
      decided true rest same = same
      decided false rest same = ground arith

  pub sw_bp_restore_all_iff :
      (s : Session W)
      → ((sw_bp_restore_all h s).0 ≡ true) ↔ ((sw_bp_restore_all h s).1.sw_table ≡ [])
  unfolding sw_bp_restore_all ◌>>=◌ gets modify pure
  sw_bp_restore_all_iff s = restore_list_iff s.sw_table s

  restore_one-same : (e : SwBp) (s : Session W) → SameLink s (sw_bp_restore_one h e s).1
  unfolding sw_bp_restore_one ◌>>=◌
  restore_one-same e s = ground arith

  restore_list-same : (table : List SwBp) (s : Session W) → SameLink s (restore_list h table s).1
  unfolding restore_list ◌>>=◌
  restore_list-same [] s = (refl, refl)
  restore_list-same (e ∷ table) s =
      let one = restore_one-same e s in
      let rest = restore_list-same table (sw_bp_restore_one h e s).1 in
      (rest.0 ∙ one.0, rest.1 ∙ one.1)

  restore_all-same : (s : Session W) → SameLink s (sw_bp_restore_all h s).1
  unfolding sw_bp_restore_all ◌>>=◌ gets modify pure
  restore_all-same s = restore_list-same s.sw_table s

  -- From the restored patches on.
  detach_restored-Disconnected :
      (s : Session W) (restored : Bool)
      → s.transport_dead ≡ true
      → s.attached ≡ true
      → (restored ≡ true → s.sw_table ≡ [])
      → let m = if not restored then keep_for_retry h else (do
        err ← call (h.detach detach_keep_halted)
        if not (is_ok err) then keep_for_retry h else do forget_target h; pure true) in
        Disconnected (m s).0 (m s).1
  unfolding keep_for_retry forget_target clear_debug_state clear_run_tracking ◌>>=◌ modify pure
  detach_restored-Disconnected s false dead attached empty = (dead, (attached, refl))
  detach_restored-Disconnected s true dead attached empty =
      if-ends Disconnected (not (is_ok (h.detach detach_keep_halted s.world).0)) (keep_for_retry h)
        _ (call (h.detach detach_keep_halted) s).1 (λ e. (dead, (attached, refl)))
        λ e. (dead, (refl, (refl, (empty refl, refl))))

  -- A disconnect of an attached session kills the transport. If it reports success, the session is
  -- detached, its table is empty and its stop counter is zero. If not, the session stays attached
  -- for another try, in the state LOST.
  pub handle_disconnect-Disconnected :
      (s : Session W)
      → s.attached ≡ true
      → Disconnected (handle_disconnect h s).0 (handle_disconnect h s).1
  unfolding handle_disconnect keep_for_retry ◌>>=◌ gets modify pure call
  handle_disconnect-Disconnected s attached =
      let s1 = record s { transport_dead = true } in
      let reply = (h.halt Limits.halt_timeout_ms s.world).0 in
      let s2 = record s1 { world = (h.halt Limits.halt_timeout_ms s.world).1 } in
      let all = sw_bp_restore_all h s2 in
      let same = restore_all-same s2 in
      if-ends Disconnected (not s.attached) (pure true) _ s1 (λ e. ground arith)
        λ e.
          if-ends Disconnected (not (is_ok reply.err && reply.stop.halted)) (keep_for_retry h) _ s2
            (λ e. (refl, (attached, refl)))
            λ e.
              detach_restored-Disconnected all.1 all.0 same.0 (same.1 ∙ attached)
                (sw_bp_restore_all_iff s2).0
