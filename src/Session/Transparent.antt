-- ===== src/Session/Transparent.antt =====
-- Software breakpoints are invisible to the peer: `op_write_memory` and `op_read_memory` of
-- sidp_session.cpp hide the patches, whatever memory they cover.
use sidp_client.Base.{
  ℕ, zero, suc, ◌+◌, ◌-◌, ◌^◌, ◌≤◌, ◌<◌, ◌≡◌, refl, sym, ap, subst, ◌∙◌, ◌≢◌, ◌⊎◌, inl, inr, Bool,
  true, false, not, ◌&&◌, ◌||◌, List, [], ◌∷◌, arith, u64, ltb, if◌then◌else◌, leb, length, set,
  get_or,
}
use sidp_client.Session.Keeps.Defs.{All}
use sidp_client.Session.Shadow.{
  keep_patch, keep_patch_bytes, overlap_bytes, bp_end, bkpt_patch, write_image,
}
use sidp_client.Session.State.{SwBp}

-- An entry as `sw_bp_apply` makes it: a Thumb instruction that does not wrap around.
pub record IsEntry (e : SwBp) : Type 0 where
  pub at_least : 2 ≤ e.instruction_size
  pub at_most : e.instruction_size ≤ 4
  pub in_range : e.address + e.instruction_size < 2 ^ 64
  pub saved : length e.original ≡ 4

abbrev pub Covers : SwBp → ℕ → Type 0
Covers e absolute =
    (e.installed ≡ true) × (e.address ≤ absolute) × (absolute < e.address + e.instruction_size)

abbrev pub Covered : List SwBp → ℕ → Type 0
Covered [] absolute = ⊥
Covered (e ∷ table) absolute = Covers e absolute ⊎ Covered table absolute

-- Two buffers from an address on agree but where an entry covers them.
abbrev pub Close : List SwBp → ℕ → List ℕ → List ℕ → Type 0
Close table absolute [] [] = Unit
Close table absolute (c ∷ cs) (b ∷ bs) =
    ((c ≡ b) ⊎ Covered table absolute) × Close table (absolute + 1) cs bs
Close table absolute _ _ = ⊥

pub Close-refl : (table : List SwBp) (absolute : ℕ) (bs : List ℕ) → Close table absolute bs bs
Close-refl table absolute [] = tt
Close-refl table absolute (b ∷ bs) = (inl refl, Close-refl table (absolute + 1) bs)

pub Close-eq : (absolute : ℕ) (cs bs : List ℕ) → Close [] absolute cs bs → cs ≡ bs
Close-eq absolute [] [] close = refl
Close-eq absolute [] (b ∷ bs) close = elim close [ ]
Close-eq absolute (c ∷ cs) [] close = elim close [ ]
Close-eq absolute (c ∷ cs) (b ∷ bs) close =
    let rest = Close-eq (absolute + 1) cs bs close.1 in ground arith

pub length-Close :
    (table : List SwBp) (absolute : ℕ) (cs bs : List ℕ)
    → Close table absolute cs bs
    → length cs ≡ length bs
length-Close table absolute [] [] close = refl
length-Close table absolute [] (b ∷ bs) close = elim close [ ]
length-Close table absolute (c ∷ cs) [] close = elim close [ ]
length-Close table absolute (c ∷ cs) (b ∷ bs) close =
    ap suc (length-Close table (absolute + 1) cs bs close.1)

-- The image that is written keeps the patches of entries of the table.
keep_patch_bytes-Close :
    (full : List SwBp) (e : SwBp) (absolute : ℕ) (cs bs : List ℕ)
    → IsEntry e
    → e.installed ≡ true
    → ((at : ℕ) → Covers e at → Covered full at)
    → absolute + length cs < 2 ^ 64
    → Close full absolute cs bs
    → Close full absolute (keep_patch_bytes e absolute cs) bs
unfolding keep_patch_bytes
keep_patch_bytes-Close full e absolute [] bs entry here member fits close = close
keep_patch_bytes-Close full e absolute (c ∷ cs) [] entry here member fits close = elim close [ ]
keep_patch_bytes-Close full e absolute (c ∷ cs) (b ∷ bs) entry here member fits close = (
  patched (leb e.address absolute && ltb absolute (u64 (e.address + 2))) refl,
  subst (λ n. Close full (absolute + 1) (keep_patch_bytes e n cs) bs) (sym next)
      (keep_patch_bytes-Close full e (absolute + 1) cs bs entry here member (omega arith) close.1),
)
  where
    next : u64 (absolute + 1) ≡ absolute + 1
    next = omega arith

    patched :
        (b1 : Bool)
        → (leb e.address absolute && ltb absolute (u64 (e.address + 2))) ≡ b1
        → ((if b1 then get_or bkpt_patch (absolute - e.address) 0 else c) ≡ b)
          ⊎ Covered full absolute
    patched true inside = inr (member absolute (ground arith))
    patched false outside = close.0

keep_patch-Close :
    (full : List SwBp) (e : SwBp) (address : ℕ) (cs bs : List ℕ)
    → IsEntry e
    → ((at : ℕ) → Covers e at → Covered full at)
    → address + length cs < 2 ^ 64
    → Close full address cs bs
    → Close full address (keep_patch e address cs) bs
unfolding keep_patch
keep_patch-Close full e address cs bs entry member fits close =
    by_test
      (not e.installed
        || (leb (u64 (e.address + 2)) address || leb (u64 (address + length cs)) e.address))
      refl
  where
    by_test :
        (skip : Bool)
        → (not e.installed
            || (leb (u64 (e.address + 2)) address || leb (u64 (address + length cs)) e.address))
          ≡ skip
        → Close full address (if skip then cs else keep_patch_bytes e address cs) bs
    by_test true passed = close
    by_test false hit =
        keep_patch_bytes-Close full e address cs bs entry (ground arith) member fits close

pub write_image-Close :
    (full table : List SwBp) (address : ℕ) (cs bs : List ℕ)
    → All IsEntry table
    → ((at : ℕ) → Covered table at → Covered full at)
    → address + length bs < 2 ^ 64
    → Close full address cs bs
    → Close full address (write_image table address cs) bs
unfolding write_image
write_image-Close full [] address cs bs entries member fits close = close
write_image-Close full (e ∷ table) address cs bs entries member fits close =
    let same = length-Close full address cs bs close in
    write_image-Close full table address (keep_patch e address cs) bs entries.1
      (λ at c. member at (inr c)) fits
      (keep_patch-Close full e address cs bs entries.0 (λ at c. member at (inl c)) (omega arith)
        close)

pub get_or-set_self : (xs : List ℕ) (i v d : ℕ) → i < length xs → get_or (set xs i v) i d ≡ v
get_or-set_self [] i v d inside = absurd (omega arith)
get_or-set_self (x ∷ xs) zero v d inside = refl
get_or-set_self (x ∷ xs) (suc i) v d inside = get_or-set_self xs i v d (omega arith)

get_or-set_other : (xs : List ℕ) (i j v d : ℕ) → i ≢ j → get_or (set xs i v) j d ≡ get_or xs j d
get_or-set_other [] i j v d differ = refl
get_or-set_other (x ∷ xs) zero zero v d differ = absurd (differ refl)
get_or-set_other (x ∷ xs) zero (suc j) v d differ = refl
get_or-set_other (x ∷ xs) (suc i) zero v d differ = refl
get_or-set_other (x ∷ xs) (suc i) (suc j) v d differ =
    get_or-set_other xs i j v d (λ e. differ (ap suc e))

-- One round of `overlap_bytes`.
abbrev pub overlap_byte : SwBp → ℕ → ℕ → List ℕ → List ℕ
overlap_byte e absolute b original =
    if leb e.address absolute && ltb absolute (bp_end e)
    then set original (absolute - e.address) b
    else original

overlap_byte-other :
    (e : SwBp) (absolute b : ℕ) (original : List ℕ) (j : ℕ)
    → e.address + j < absolute
    → get_or (overlap_byte e absolute b original) j 0 ≡ get_or original j 0
overlap_byte-other e absolute b original j below =
    by_test (leb e.address absolute && ltb absolute (bp_end e))
  where
    by_test :
        (t : Bool)
        → get_or (if t then set original (absolute - e.address) b else original) j 0
          ≡ get_or original j 0
    by_test true = get_or-set_other original (absolute - e.address) j b 0 (λ eq. omega arith)
    by_test false = refl

pub overlap_bytes-below :
    (e : SwBp) (absolute : ℕ) (bs original : List ℕ) (j : ℕ)
    → absolute + length bs < 2 ^ 64
    → e.address + j < absolute
    → get_or (overlap_bytes e absolute bs original) j 0 ≡ get_or original j 0
unfolding overlap_bytes
overlap_bytes-below e absolute [] original j fits below = refl
overlap_bytes-below e absolute (b ∷ bs) original j fits below =
    subst
      (λ n.
        get_or (overlap_bytes e n bs (overlap_byte e absolute b original)) j 0
        ≡ get_or original j 0)
      (sym next)
      (overlap_bytes-below e (absolute + 1) bs (overlap_byte e absolute b original) j (omega arith)
          (omega arith)
        ∙ overlap_byte-other e absolute b original j below)
  where
    next : u64 (absolute + 1) ≡ absolute + 1
    next = omega arith
