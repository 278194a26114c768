-- ===== src/Session/Readback.antt =====
-- A write through `op_write_memory` reads back through `op_read_memory` of sidp_session.cpp, over any
-- breakpoints.
use sidp_client.Base.{
  ℕ, ◌+◌, ◌-◌, ◌^◌, ◌≤◌, ◌<◌, ◌≡◌, refl, sym, subst, ◌∙◌, ◌⊎◌, inl, inr, Bool, true, false, not,
  ◌&&◌, ◌||◌, List, [], ◌∷◌, arith, u64, if◌then◌else◌, ltb, leb, length-set, get_or, length, set,
}
use sidp_client.Session.Keeps.Defs.{All}
use sidp_client.Session.Shadow.{
  overlap_bytes, sw_bp_substitute_read, misses, substitute_bytes, overlap_one, write_image,
  substitute_one, bp_end, sw_bp_write_overlap,
}
use sidp_client.Session.State.{SwBp}
use sidp_client.Session.Transparent.{
  Close-eq, IsEntry, get_or-set_self, length-Close, Close, overlap_bytes-below, write_image-Close,
  overlap_byte, Close-refl, Covered,
}

-- The saved bytes of an entry are those of a buffer, where the entry covers it.
abbrev Stored : SwBp → ℕ → List ℕ → List ℕ → Type 0
Stored e absolute original [] = Unit
Stored e absolute original (b ∷ bs) =
    (e.address ≤ absolute
      → absolute < e.address + e.instruction_size
      → get_or original (absolute - e.address) 0 ≡ b)
    × Stored e (absolute + 1) original bs

length-overlap_byte :
    (e : SwBp) (absolute b : ℕ) (original : List ℕ)
    → length (overlap_byte e absolute b original) ≡ length original
length-overlap_byte e absolute b original =
    by_test (leb e.address absolute && ltb absolute (bp_end e))
  where
    by_test :
        (t : Bool)
        → length (if t then set original (absolute - e.address) b else original) ≡ length original
    by_test true = length-set original (absolute - e.address) b
    by_test false = refl

overlap_byte_self :
    (e : SwBp) (absolute b : ℕ) (original : List ℕ)
    → IsEntry e
    → length original ≡ 4
    → e.address ≤ absolute
    → absolute < e.address + e.instruction_size
    → get_or (overlap_byte e absolute b original) (absolute - e.address) 0 ≡ b
overlap_byte_self e absolute b original entry four low high =
    by_test (leb e.address absolute && ltb absolute (bp_end e)) refl
  where
    by_test :
        (t : Bool)
        → (leb e.address absolute && ltb absolute (bp_end e)) ≡ t
        → get_or
            (if t then set original (absolute - e.address) b else original)
            (absolute - e.address)
            0
          ≡ b
    by_test true inside =
        get_or-set_self original (absolute - e.address) b 0 (omega (arith, entry.at_most))
    by_test false outside = ground (arith, entry.in_range)

overlap_bytes-Stored :
    (e : SwBp) (absolute : ℕ) (bs original : List ℕ)
    → IsEntry e
    → length original ≡ 4
    → absolute + length bs < 2 ^ 64
    → Stored e absolute (overlap_bytes e absolute bs original) bs
unfolding overlap_bytes
overlap_bytes-Stored e absolute [] original entry four fits = tt
overlap_bytes-Stored e absolute (b ∷ bs) original entry four fits =
    subst
      (λ n. Stored e absolute (overlap_bytes e n bs (overlap_byte e absolute b original)) (b ∷ bs))
      (sym next)
      (
        λ low high.
            overlap_bytes-below e (absolute + 1) bs (overlap_byte e absolute b original)
              (absolute - e.address) (omega arith) (omega arith)
            ∙ overlap_byte_self e absolute b original entry four low high,
        overlap_bytes-Stored e (absolute + 1) bs (overlap_byte e absolute b original) entry
            (length-overlap_byte e absolute b original ∙ four) (omega arith),
      )
  where
    next : u64 (absolute + 1) ≡ absolute + 1
    next = omega arith

-- With its saved bytes put back, an entry no longer sets the buffers apart.
substitute_bytes-Close :
    (table : List SwBp) (e : SwBp) (original : List ℕ) (absolute : ℕ) (cs bs : List ℕ)
    → IsEntry e
    → Stored e absolute original bs
    → absolute + length cs < 2 ^ 64
    → Close (e ∷ table) absolute cs bs
    → Close table absolute (substitute_bytes (record e { original = original }) absolute cs) bs
unfolding substitute_bytes
substitute_bytes-Close table e original absolute [] [] entry stored fits close = tt
substitute_bytes-Close table e original absolute [] (b ∷ bs) entry stored fits close =
    elim close [ ]
substitute_bytes-Close table e original absolute (c ∷ cs) [] entry stored fits close =
    elim close [ ]
substitute_bytes-Close table e original absolute (c ∷ cs) (b ∷ bs) entry stored fits close = (
  by_test (leb e.address absolute && ltb absolute (bp_end e)) refl close.0,
  subst
      (λ n.
        Close table (absolute + 1) (substitute_bytes (record e { original = original }) n cs) bs)
      (sym next)
      (substitute_bytes-Close table e original (absolute + 1) cs bs entry stored.1 (omega arith)
        close.1),
)
  where
    next : u64 (absolute + 1) ≡ absolute + 1
    next = omega arith

    by_test :
        (t : Bool)
        → (leb e.address absolute && ltb absolute (bp_end e)) ≡ t
        → ((c ≡ b) ⊎ Covered (e ∷ table) absolute)
        → ((if t then get_or original (absolute - e.address) 0 else c) ≡ b) ⊎ Covered table absolute
    by_test true inside agree =
        inl (stored.0 (ground (arith, entry.in_range)) (ground (arith, entry.in_range)))
    by_test false outside (inl eq) = inl eq
    by_test false outside (inr (inl covers)) = ground (arith, entry.in_range, covers.1, covers.2)
    by_test false outside (inr (inr other)) = inr other

-- An entry that a test passes over covers none of the bytes.
drop-Close :
    (table : List SwBp) (e : SwBp) (absolute : ℕ) (cs bs : List ℕ)
    → (e.installed ≡ false)
      ⊎ ((e.address + e.instruction_size ≤ absolute) ⊎ (absolute + length cs ≤ e.address))
    → Close (e ∷ table) absolute cs bs
    → Close table absolute cs bs
drop-Close table e absolute [] [] clear close = tt
drop-Close table e absolute [] (b ∷ bs) clear close = elim close [ ]
drop-Close table e absolute (c ∷ cs) [] clear close = elim close [ ]
drop-Close table e absolute (c ∷ cs) (b ∷ bs) clear close =
    (head close.0, drop-Close table e (absolute + 1) cs bs (ground arith) close.1)
  where
    head : ((c ≡ b) ⊎ Covered (e ∷ table) absolute) → (c ≡ b) ⊎ Covered table absolute
    head (inl eq) = inl eq
    head (inr (inl covers)) = ground (arith, covers.0, covers.1, covers.2)
    head (inr (inr other)) = inr other

overlapped-Close :
    (table : List SwBp) (e : SwBp) (address : ℕ) (cs bs : List ℕ)
    → IsEntry e
    → address + length bs < 2 ^ 64
    → length cs ≡ length bs
    → Close (e ∷ table) address cs bs
    → Close table address (substitute_one (overlap_one e address bs) address cs) bs
unfolding overlap_one substitute_one
overlapped-Close table e address cs bs entry fits same close =
    subst
      (λ n.
        Close table address
          (if not (overlap_one e address bs).installed
              || misses (overlap_one e address bs) address n
            then cs
            else substitute_bytes (overlap_one e address bs) address cs)
          bs)
      (sym same) (by_test (not e.installed || misses e address (length bs)) refl)
  where
    by_test :
        (skip : Bool)
        → (not e.installed || misses e address (length bs)) ≡ skip
        → let entry' =
            if skip then e else record e { original = overlap_bytes e address bs e.original } in
          Close table address
            (if not entry'.installed || misses entry' address (length bs)
              then cs
              else substitute_bytes entry' address cs)
            bs
    by_test true passed =
        subst (λ t. Close table address (if t then cs else substitute_bytes e address cs) bs)
          (sym passed)
          (drop-Close table e address cs bs (ground (arith, entry.in_range, same)) close)
    by_test false hit =
        let original = overlap_bytes e address bs e.original in
        subst
          (λ t.
            Close table address
              (if t then cs else substitute_bytes (record e { original = original }) address cs) bs)
          (sym hit)
          (substitute_bytes-Close table e original address cs bs entry
            (overlap_bytes-Stored e address bs e.original entry entry.saved fits) (omega arith)
            close)

-- A write of bytes to the target, as `op_write_memory` does it with the patches kept armed and the
-- saved bytes updated, reads back as those bytes through the substitution of `op_read_memory`,
-- whatever breakpoints the range meets: for every table of entries as `sw_bp_apply` makes them, and
-- every range that does not wrap around.
pub substitute_read-write_image :
    (table : List SwBp) (address : ℕ) (bytes : List ℕ)
    → All IsEntry table
    → address + length bytes < 2 ^ 64
    → sw_bp_substitute_read
        (sw_bp_write_overlap table address bytes)
        address
        (write_image table address bytes)
      ≡ bytes
unfolding sw_bp_substitute_read sw_bp_write_overlap
substitute_read-write_image table address bytes entries fits =
    read_back table (write_image table address bytes) entries (
      write_image-Close table table address bytes bytes entries (λ at c. c) fits
        (Close-refl table address bytes))
  where
    read_back :
        (left : List SwBp) (cs : List ℕ)
        → All IsEntry left
        → Close left address cs bytes
        → sw_bp_substitute_read (sw_bp_write_overlap left address bytes) address cs ≡ bytes
    read_back [] cs sane close = Close-eq address cs bytes close
    read_back (e ∷ left) cs sane close =
        read_back left (substitute_one (overlap_one e address bytes) address cs) sane.1 (
          overlapped-Close left e address cs bytes sane.0 fits
            (length-Close (e ∷ left) address cs bytes close) close)
