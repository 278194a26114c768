-- ===== src/Session/Keeps/Tables.antt =====
-- The breakpoint table never outgrows its buffer.
use sidp_client.Backend.{is_ok, BpEntry, Host}
use sidp_client.Base.{
  ℕ, zero, suc, ◌≤◌, ◌≡◌, refl, sym, ap, subst, ◌∙◌, ◌≢◌, Bool, true, false, not, Option, none,
  some, List, [], ◌∷◌, ◌++◌, arith, if◌then◌else◌, ◌==◌, length, length-append, length-set,
}
use sidp_client.Defs.{Status}
use sidp_client.Defs.Limits
use sidp_client.Defs.Mem
use sidp_client.Session.Keeps.Defs.{Keeps, Keeps-preorder, Keeps-trans}
use sidp_client.Session.Keeps.Frames.{modify-Keeps, call-Keeps}
use sidp_client.Session.Shadow.{is_patched, sw_bp_write_overlap, overlaps_any}
use sidp_client.Session.Sound.{Sound-bind, Sound, sound_rules, if-at, Sound-pure}
use sidp_client.Session.State.{Session, gets, modify, ◌>>=◌, ◌>>◌, pure, call, SwBp}
use sidp_client.Session.Table.{
  give_up, install_after, sw_bp_restore_one, sw_bp_restore_all, install_entry, restore_list,
  clear_run_tracking, rollback_run_config, read_originals, install_patches, sw_bp_apply,
  mark_installed, push_entry, sw_bp_install_one,
}

pub length-write_overlap :
    (table : List SwBp) (address : ℕ) (bytes : List ℕ)
    → length (sw_bp_write_overlap table address bytes) ≡ length table
unfolding sw_bp_write_overlap
length-write_overlap [] address bytes = refl
length-write_overlap (e ∷ table) address bytes = ap suc (length-write_overlap table address bytes)

neq : {a b : ℕ} → (a == b) ≡ false → a ≢ b
neq e = ground arith

module _ {W : Type 0} (h : Host W) where
  pub sw_bp_restore_one-Keeps : (e : SwBp) → Sound Keeps (sw_bp_restore_one h e)
  unfolding sw_bp_restore_one
  sw_bp_restore_one-Keeps e = search (sound_rules, Keeps-preorder, call-Keeps) depth 12

  restore_list-Keeps : (table : List SwBp) → Sound Keeps (restore_list h table)
  unfolding restore_list
  restore_list-Keeps [] = Sound-pure Keeps-preorder (true, [])
  restore_list-Keeps (e ∷ table) =
      Sound-bind Keeps-preorder (sw_bp_restore_one h e) _ (sw_bp_restore_one-Keeps e) λ restored.
        Sound-bind Keeps-preorder (restore_list h table) _ (restore_list-Keeps table)
          λ rest. Sound-pure Keeps-preorder _

  length-restore_list :
      (table : List SwBp) (s : Session W) → length (restore_list h table s).0.1 ≤ length table
  unfolding restore_list ◌>>=◌
  length-restore_list [] s = ground arith
  length-restore_list (e ∷ table) s =
      ground (arith, length-restore_list table (sw_bp_restore_one h e s).1)

  keep_remaining-Keeps :
      (s : Session W) (remaining : List SwBp)
      → length remaining ≤ length s.sw_table
      → Keeps s (record s { sw_table = remaining })
  keep_remaining-Keeps s remaining fits = ground arith

  restore_one-table : (e : SwBp) (s : Session W) → (sw_bp_restore_one h e s).1.sw_table ≡ s.sw_table
  unfolding sw_bp_restore_one ◌>>=◌
  restore_one-table e s = ground arith

  restore_list-table :
      (table : List SwBp) (s : Session W) → (restore_list h table s).1.sw_table ≡ s.sw_table
  unfolding restore_list ◌>>=◌
  restore_list-table [] s = refl
  restore_list-table (e ∷ table) s =
      restore_list-table table (sw_bp_restore_one h e s).1 ∙ restore_one-table e s

  pub sw_bp_restore_all-Keeps : Sound Keeps (sw_bp_restore_all h)
  unfolding sw_bp_restore_all ◌>>=◌ gets modify pure
  sw_bp_restore_all-Keeps = record {
    at = λ s.
        let t = (restore_list h s.sw_table s).1 in
        Keeps-trans s t _ ((restore_list-Keeps s.sw_table).at s) (
          keep_remaining-Keeps t (restore_list h s.sw_table s).0.1 (
            subst (λ l. length (restore_list h s.sw_table s).0.1 ≤ length l)
              (sym (restore_list-table s.sw_table s)) (length-restore_list s.sw_table s)));
  }

  pub mark_installed-Keeps :
      (i : ℕ) (mark : Bool) (e : SwBp) → Sound Keeps (mark_installed h i mark e)
  unfolding mark_installed
  mark_installed-Keeps i mark e =
      modify-Keeps _ λ s. ground (arith, length-set s.sw_table i (record e { installed = mark }))

  install_entry-Keeps : (i : ℕ) (found : Option SwBp) → Sound Keeps (install_entry h i found)
  unfolding install_entry
  install_entry-Keeps i none = Sound-pure Keeps-preorder true
  install_entry-Keeps i (some e) =
      search (sound_rules, Keeps-preorder, call-Keeps, mark_installed-Keeps) depth 12

  pub sw_bp_install_one-Keeps : (i : ℕ) → Sound Keeps (sw_bp_install_one h i)
  unfolding sw_bp_install_one
  sw_bp_install_one-Keeps i = search (sound_rules, Keeps-preorder, install_entry-Keeps) depth 12

  give_up-Keeps : (status : Status) → Sound Keeps (give_up h status)
  unfolding give_up
  give_up-Keeps status = search (sound_rules, Keeps-preorder, sw_bp_restore_all-Keeps) depth 12

  append-Keeps :
      (s : Session W) (e : SwBp)
      → length s.sw_table ≢ Limits.max_software_breakpoints
      → Keeps s (record s { sw_table = s.sw_table ++ e ∷ [] })
  append-Keeps s e room = ground (arith, length-append s.sw_table (e ∷ []))

  read_one-Keeps :
      (entry : BpEntry) (entries : List BpEntry)
      → Sound Keeps (read_originals h entries)
      → (s : Session W) → length s.sw_table ≢ Limits.max_software_breakpoints
      → Keeps s
          (((call (h.read_mem entry.address entry.instruction_size Mem.width_default)) >>= λ reply.
              if not (is_ok reply.err)
              then give_up h Status.swd_error
              else if is_patched entry reply.bytes
              then give_up h Status.invalid_argument
              else (push_entry h entry reply.bytes >> read_originals h entries))
            s).1
  unfolding ◌>>=◌ push_entry modify
  read_one-Keeps entry entries rest s room =
      let source = h.read_mem entry.address entry.instruction_size Mem.width_default in
      let read = call source s in
      Keeps-trans s read.1 _ ((call-Keeps source).at s) (
        if-at Keeps (not (is_ok (read.0).err)) (give_up h Status.swd_error) _ read.1
          ((give_up-Keeps Status.swd_error).at read.1)
          λ done.
            if-at Keeps (is_patched entry (read.0).bytes) (give_up h Status.invalid_argument) _
              read.1 ((give_up-Keeps Status.invalid_argument).at read.1)
              λ fresh. Keeps-trans read.1 _ _ (append-Keeps read.1 _ room) (rest.at _))

  -- The guard on the table's size stands before the entry is pushed.
  read_originals-Keeps : (entries : List BpEntry) → Sound Keeps (read_originals h entries)
  unfolding read_originals ◌>>=◌ gets
  read_originals-Keeps [] = Sound-pure Keeps-preorder Status.ok
  read_originals-Keeps (entry ∷ entries) = record {
    at = λ s.
        let invalid = give_up-Keeps Status.invalid_argument in
        if-at Keeps (length s.sw_table == Limits.max_software_breakpoints) _ _ s (invalid.at s)
          λ room.
            if-at Keeps (overlaps_any s.sw_table entry) _ _ s (invalid.at s)
              λ disjoint. read_one-Keeps entry entries (read_originals-Keeps entries) s (neq room);
  }

  install_patches-Keeps : (left index : ℕ) → Sound Keeps (install_patches h left index)
  unfolding install_patches
  install_patches-Keeps zero index = Sound-pure Keeps-preorder Status.ok
  install_patches-Keeps (suc left) index =
      search
        (
          sound_rules,
          Keeps-preorder,
          sw_bp_install_one-Keeps,
          give_up-Keeps,
          install_patches-Keeps left,
        )
        depth 12

  install_after-Keeps : (status : Status) → Sound Keeps (install_after h status)
  unfolding install_after
  install_after-Keeps Status.ok =
      search (sound_rules, Keeps-preorder, install_patches-Keeps) depth 12
  install_after-Keeps status = Sound-pure Keeps-preorder status

  pub clear_run_tracking-Keeps : Sound Keeps (clear_run_tracking h)
  unfolding clear_run_tracking
  clear_run_tracking-Keeps = modify-Keeps _ λ s. ground arith

  pub rollback_run_config-Keeps : Sound Keeps (rollback_run_config h)
  unfolding rollback_run_config
  rollback_run_config-Keeps =
      search
        (sound_rules, Keeps-preorder, call-Keeps, sw_bp_restore_all-Keeps, clear_run_tracking-Keeps)
        depth 16

  pub sw_bp_apply-Keeps : (entries : List BpEntry) → Sound Keeps (sw_bp_apply h entries)
  unfolding sw_bp_apply
  sw_bp_apply-Keeps entries =
      search
        (
          sound_rules, Keeps-preorder, sw_bp_restore_all-Keeps, read_originals-Keeps,
          install_after-Keeps,
        )
        depth 12
