-- ===== src/Session/Shadow.antt =====
-- The software breakpoint shadow table of sidp_session.cpp. `sw_table` holds the first `sw_count`
-- entries. Addresses are 64 bits wide.
use sidp_client.Base.{
  ℕ, ◌+◌, ◌-◌, Bool, false, not, Option, none, some, List, [], ◌∷◌, ◌++◌, ◌&&◌, ◌||◌, ltb, leb,
  ◌==◌, if◌then◌else◌, length, take, get_or, get_elem?, set, u64,
}
use sidp_client.Backend.{BpEntry}
use sidp_client.Session.State.{SwBp}

abbrev pub bkpt_patch : List ℕ
bkpt_patch = 0x00 ∷ 0xbe ∷ []

-- The end of an entry's interval.
abbrev pub bp_end : SwBp → ℕ
bp_end e = u64 (e.address + e.instruction_size)

-- The test by which `sw_bp_substitute_read` and `sw_bp_write_overlap` pass over an entry.
abbrev pub misses : SwBp → ℕ → ℕ → Bool
misses e address size = leb (bp_end e) address || leb (u64 (address + size)) e.address

-- The loop over the offsets of `sw_bp_substitute_read`: `bytes` is what is left of the buffer, its
-- first byte from `absolute`.
unfoldable pub substitute_bytes : SwBp → ℕ → List ℕ → List ℕ
substitute_bytes e absolute [] = []
substitute_bytes e absolute (b ∷ bytes) =
    (if leb e.address absolute && ltb absolute (bp_end e)
      then get_or e.original (absolute - e.address) 0
      else b)
    ∷ substitute_bytes e (u64 (absolute + 1)) bytes

unfoldable pub substitute_one : SwBp → ℕ → List ℕ → List ℕ
unfolding substitute_bytes
substitute_one e address bytes =
    if not e.installed || misses e address (length bytes)
    then bytes
    else substitute_bytes e address bytes

unfoldable pub sw_bp_substitute_read : List SwBp → ℕ → List ℕ → List ℕ
unfolding substitute_one
sw_bp_substitute_read [] address bytes = bytes
sw_bp_substitute_read (e ∷ table) address bytes =
    sw_bp_substitute_read table address (substitute_one e address bytes)

-- The loop over the offsets of `sw_bp_write_overlap`: the entry's saved bytes after it.
unfoldable pub overlap_bytes : SwBp → ℕ → List ℕ → List ℕ → List ℕ
overlap_bytes e absolute [] original = original
overlap_bytes e absolute (b ∷ bytes) original = overlap_bytes e (u64 (absolute + 1)) bytes (
    if leb e.address absolute && ltb absolute (bp_end e)
    then set original (absolute - e.address) b
    else original)

unfoldable pub overlap_one : SwBp → ℕ → List ℕ → SwBp
unfolding overlap_bytes
overlap_one e address bytes =
    if not e.installed || misses e address (length bytes)
    then e
    else record e { original = overlap_bytes e address bytes e.original }

unfoldable pub sw_bp_write_overlap : List SwBp → ℕ → List ℕ → List SwBp
unfolding overlap_one
sw_bp_write_overlap [] address bytes = []
sw_bp_write_overlap (e ∷ table) address bytes =
    overlap_one e address bytes ∷ sw_bp_write_overlap table address bytes

-- The loop of `op_write_memory` that keeps the patches armed in what is written to the target.
unfoldable pub keep_patch_bytes : SwBp → ℕ → List ℕ → List ℕ
keep_patch_bytes e absolute [] = []
keep_patch_bytes e absolute (b ∷ bytes) =
    (if leb e.address absolute && ltb absolute (u64 (e.address + 2))
      then get_or bkpt_patch (absolute - e.address) 0
      else b)
    ∷ keep_patch_bytes e (u64 (absolute + 1)) bytes

unfoldable pub keep_patch : SwBp → ℕ → List ℕ → List ℕ
unfolding keep_patch_bytes
keep_patch e address bytes =
    if not e.installed
      || (leb (u64 (e.address + 2)) address || leb (u64 (address + length bytes)) e.address)
    then bytes
    else keep_patch_bytes e address bytes

unfoldable pub write_image : List SwBp → ℕ → List ℕ → List ℕ
unfolding keep_patch
write_image [] address bytes = bytes
write_image (e ∷ table) address bytes = write_image table address (keep_patch e address bytes)

-- The index of the entry, from `index` on; `none` is the null pointer.
unfoldable pub find_index : List SwBp → ℕ → ℕ → Option ℕ
find_index [] address index = none
find_index (e ∷ table) address index =
    if e.address == address then some index else find_index table address (index + 1)

unfoldable pub sw_bp_find_by_address : List SwBp → ℕ → Option ℕ
unfolding find_index
sw_bp_find_by_address table address = find_index table address 0

unfoldable pub installed_at : List SwBp → Option ℕ → Option SwBp
installed_at table none = none
installed_at table (some i) = elim (get_elem? table i) [
  | none ↦ none
  | some e ↦ if e.installed then some e else none
]

-- A BKPT leaves the PC at the patch, or two bytes behind it.
unfoldable pub sw_bp_find_by_halt_pc : List SwBp → ℕ → Option SwBp
unfolding sw_bp_find_by_address installed_at
sw_bp_find_by_halt_pc table pc =
    let here = installed_at table (sw_bp_find_by_address table pc) in
    if leb 2 pc
    then elim (installed_at table (sw_bp_find_by_address table (pc - 2))) [
      | some e ↦ some e
      | none ↦ here
    ]
    else here

-- Two intervals of instructions meet.
abbrev pub overlaps : SwBp → BpEntry → Bool
overlaps prior entry =
    ltb entry.address (bp_end prior)
    && ltb prior.address (u64 (entry.address + entry.instruction_size))

unfoldable pub overlaps_any : List SwBp → BpEntry → Bool
overlaps_any [] entry = false
overlaps_any (prior ∷ table) entry = overlaps prior entry || overlaps_any table entry

abbrev pub is_patched : BpEntry → List ℕ → Bool
is_patched entry original =
    leb 2 entry.instruction_size && get_or original 0 0 == 0x00 && get_or original 1 0 == 0xbe

-- The bytes of `original[4]` after a read of `n`.
unfoldable pub original_of : List ℕ → List ℕ
original_of bytes = take 4 (bytes ++ 0 ∷ 0 ∷ 0 ∷ 0 ∷ [])
