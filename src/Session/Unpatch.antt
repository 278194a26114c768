-- ===== src/Session/Unpatch.antt =====
-- What `sw_bp_restore_all` leaves in the memory of the target.
use sidp_client.Base.{if◌then◌else◌}
use sidp_client.Backend.{Host, is_ok}
use sidp_client.Base.{
  ℕ, ◌+◌, ◌≤◌, ◌≡◌, refl, ◌∙◌, ◌↔◌, ◌⊎◌, inl, inr, Bool, true, false, List, [], ◌∷◌, arith, take,
  length,
}
use sidp_client.Defs.Mem
use sidp_client.Session.Keeps.Defs.{All}
use sidp_client.Session.Restore.{sw_bp_restore_all_iff}
use sidp_client.Session.State.{Session, call, modify, ◌>>=◌, pure, gets, SwBp}
use sidp_client.Session.Table.{restore_list, sw_bp_restore_all, sw_bp_restore_one}

-- What the session relies on of the host's memory writes: a write that succeeds leaves its bytes in
-- the range, and no write changes a range apart from its own. `held w a n` is what the target holds
-- in the `n` bytes from `a` on.
pub record MemoryLaws {W : Type 0} (h : Host W) : Type 0 where
  pub held : W → ℕ → ℕ → List ℕ
  pub writes_there :
      (w : W) (a : ℕ) (bs : List ℕ) (width : ℕ)
      → is_ok (h.write_mem a bs width w).0 ≡ true
      → held (h.write_mem a bs width w).1 a (length bs) ≡ bs
  pub writes_only :
      (w : W) (a : ℕ) (bs : List ℕ) (width b n : ℕ)
      → (b + n ≤ a) ⊎ (a + length bs ≤ b)
      → held (h.write_mem a bs width w).1 b n ≡ held w b n

-- The bytes that an entry has saved.
abbrev saved : SwBp → List ℕ
saved e = take e.instruction_size e.original

-- The entry's range and the range of `n` bytes from `b` on have no byte in common.
abbrev Apart : ℕ → ℕ → SwBp → Type 0
Apart b n e = (b + n ≤ e.address) ⊎ (e.address + length (saved e) ≤ b)

abbrev AllApart : List SwBp → Type 0
AllApart [] = Unit
AllApart (e ∷ table) = All (Apart e.address (length (saved e))) table × AllApart table

-- The entry is one of these.
abbrev Kept : SwBp → List SwBp → Type 0
Kept e [] = ⊥
Kept e (x ∷ xs) = (x ≡ e) ⊎ Kept e xs

All-map :
    {A : Type 0} (P Q : A → Type 0) (xs : List A) → ((x : A) → P x → Q x) → All P xs → All Q xs
All-map P Q [] f all = tt
All-map P Q (x ∷ xs) f all = (f x all.0, All-map P Q xs f all.1)

module _ {W : Type 0} (h : Host W) (laws : MemoryLaws h) where
  -- The entry is not installed, or its saved bytes are in place, or it is still in the table.
  abbrev pub Settled : W → List SwBp → SwBp → Type 0
  Settled w remaining e =
      (e.installed ≡ false)
      ⊎ (laws.held w e.address (length (saved e)) ≡ saved e)
      ⊎ Kept e remaining

  restore_one-held :
      (e : SwBp) (s : Session W)
      → (sw_bp_restore_one h e s).0 ≡ true
      → (e.installed ≡ false)
        ⊎ (laws.held (sw_bp_restore_one h e s).1.world e.address (length (saved e)) ≡ saved e)
  unfolding sw_bp_restore_one ◌>>=◌ call pure
  restore_one-held e s ok = by_mark e.installed refl
    where
      by_mark :
          (b : Bool)
          → e.installed ≡ b
          → (e.installed ≡ false)
            ⊎ (laws.held (sw_bp_restore_one h e s).1.world e.address (length (saved e)) ≡ saved e)
      by_mark false off = inl off
      by_mark true on =
          let there = laws.writes_there s.world e.address (saved e) Mem.width_default in
          inr (ground arith)

  restore_one-leaves :
      (e : SwBp) (s : Session W) (b n : ℕ)
      → Apart b n e
      → laws.held (sw_bp_restore_one h e s).1.world b n ≡ laws.held s.world b n
  unfolding sw_bp_restore_one ◌>>=◌ call pure
  restore_one-leaves e s b n apart =
      let only = laws.writes_only s.world e.address (saved e) Mem.width_default b n apart in
      ground arith

  restore_list-leaves :
      (table : List SwBp) (s : Session W) (b n : ℕ)
      → All (Apart b n) table
      → laws.held (restore_list h table s).1.world b n ≡ laws.held s.world b n
  unfolding restore_list ◌>>=◌ pure
  restore_list-leaves [] s b n apart = refl
  restore_list-leaves (e ∷ table) s b n apart =
      restore_list-leaves table (sw_bp_restore_one h e s).1 b n apart.1
      ∙ restore_one-leaves e s b n apart.0

  -- From the first entry's result on.
  settle :
      (w : W) (e : SwBp) (table : List SwBp) (restored : Bool) (rest : Bool × List SwBp)
      → (restored ≡ true
          → (e.installed ≡ false) ⊎ (laws.held w e.address (length (saved e)) ≡ saved e))
      → All (Settled w rest.1) table
      → All (Settled w (if restored then rest else (false, e ∷ rest.1)).1) (e ∷ table)
  settle w e table true rest own others =
      (elim (own refl) [ inl off ↦ inl off | inr there ↦ inr (inl there) ], others)
  settle w e table false rest own others = (
    inr (inr (inl refl)),
    All-map (Settled w rest.1) (Settled w (e ∷ rest.1)) table
        (λ x known. elim known [
          | inl off ↦ inl off
          | inr (inl there) ↦ inr (inl there)
          | inr (inr kept) ↦ inr (inr (inr kept))
        ])
        others,
  )

  restore_list-Settled :
      (table : List SwBp) (s : Session W)
      → AllApart table
      → All (Settled (restore_list h table s).1.world (restore_list h table s).0.1) table
  unfolding restore_list ◌>>=◌ pure
  restore_list-Settled [] s apart = tt
  restore_list-Settled (e ∷ table) s apart =
      let t = (sw_bp_restore_one h e s).1 in
      let after = restore_list-leaves table t e.address (length (saved e)) apart.0 in
      settle (restore_list h table t).1.world e table (sw_bp_restore_one h e s).0
        (restore_list h table t).0
        (λ ok. elim (restore_one-held e s ok) [
          | inl off ↦ inl off
          | inr there ↦ inr (after ∙ there)
        ])
        (restore_list-Settled table t apart.1)

  -- For a host that keeps the laws of memory and a table whose entries do not overlap: after
  -- `sw_bp_restore_all` each entry that was installed either has its saved bytes back in the target's
  -- memory or is still in the table, and the result is true exactly if the table is empty, that is, if
  -- no patch is left behind.
  pub sw_bp_restore_all-Settled :
      (s : Session W)
      → AllApart s.sw_table
      → let t = (sw_bp_restore_all h s).1 in
        All (Settled t.world t.sw_table) s.sw_table
        × (((sw_bp_restore_all h s).0 ≡ true) ↔ (t.sw_table ≡ []))
  unfolding sw_bp_restore_all ◌>>=◌ gets modify pure
  sw_bp_restore_all-Settled s apart =
      (restore_list-Settled s.sw_table s apart, sw_bp_restore_all_iff h s)
