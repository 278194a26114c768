-- ===== src/Session/Map.antt =====
-- What the checks of sidp_session.cpp against the memory map let through, and what a session offers
-- after its sanitizing of an attach.
use sidp_client.Backend.{AttachInfo}
use sidp_client.Base.{
  ℕ, ◌+◌, ◌%◌, ◌^◌, ◌≤◌, ◌<◌, ◌≡◌, refl, ◌↔◌, ◌⊎◌, inl, inr, Bool, true, false, not, ◌&&◌, none,
  some, List, [], ◌∷◌, arith, if◌then◌else◌, Bool-cases, ◌==◌,
}
use sidp_client.Defs.{Status}
use sidp_client.Defs.Limits
use sidp_client.Defs.Mem
use sidp_client.Session.Access.{
  find_region, has_bits, executes, check_region, validate_memory_access, is_width, encloses,
  any_executes, normalize_attach_info, is_executable_range, normalize_transfer, overruns,
}
use sidp_client.Session.Keeps.Defs.{All}
use sidp_client.Session.State.{Region}

-- A region of the map as the code reads it: both fields are 64 bits wide.
abbrev pub IsWord64 : Region → Type 0
IsWord64 r = (r.start < 2 ^ 64) × (r.length < 2 ^ 64)

-- The bytes from `address` on, `size` of them, lie in the region; nothing wraps around.
abbrev pub Holds : Region → ℕ → ℕ → Type 0
Holds r address size =
    (r.start ≤ address) × (address + size ≤ r.start + r.length) × (r.start + r.length < 2 ^ 64)

-- One of the regions holds the bytes and has the property.
abbrev pub Any : (Region → Type 0) → List Region → Type 0
Any P [] = ⊥
Any P (r ∷ regions) = P r ⊎ Any P regions

-- What an access to a region needs.
pub record Permits (r : Region) (address size flags width : ℕ) (is_write : Bool) : Type 0 where
  pub holds : Holds r address size
  pub flag : has_bits r.flags (if is_write then Mem.write else Mem.read) ≡ true
  pub not_flash : (r.type == Mem.flash && is_write) ≡ false
  pub mmio_allowed : (r.type == Mem.mmio && not (has_bits flags Mem.allow_mmio)) ≡ false
  pub mmio_exact : (r.type == Mem.mmio && not (is_width width && size == width)) ≡ false
  pub aligned :
      (not (width == Mem.width_default)
        && not (is_width width && (address % width == 0 && size % width == 0)))
      ≡ false

encloses-Holds :
    (r : Region) (address size : ℕ)
    → IsWord64 r
    → address + size < 2 ^ 64
    → (not (overruns r) && encloses r address size) ≡ true
    → Holds r address size
encloses-Holds r address size word fits e = ground arith

check_region-Permits :
    (r : Region) (address size flags width : ℕ) (is_write : Bool)
    → Holds r address size
    → check_region r address size flags width is_write ≡ Status.ok
    → Permits r address size flags width is_write
unfolding check_region
check_region-Permits r address size flags width is_write holds e = ground arith

found-Permits :
    (regions : List Region) (address size flags width : ℕ) (is_write : Bool)
    → All IsWord64 regions
    → address + size < 2 ^ 64
    → elim (find_region regions address size) [
      | none ↦ Status.address_error
      | some r ↦ check_region r address size flags width is_write
    ]
      ≡ Status.ok
    → Any (λ r. Permits r address size flags width is_write) regions
unfolding find_region
found-Permits [] address size flags width is_write words fits e = ground arith
found-Permits (r ∷ regions) address size flags width is_write words fits e =
    at_region (not (overruns r) && encloses r address size) refl e
      (λ ok. found-Permits regions address size flags width is_write words.1 fits ok)
  where
    at_region :
        (b : Bool)
        → (not (overruns r) && encloses r address size) ≡ b
        → elim (if b then some r else find_region regions address size) [
          | none ↦ Status.address_error
          | some r ↦ check_region r address size flags width is_write
        ]
          ≡ Status.ok
        → (elim (find_region regions address size) [
          | none ↦ Status.address_error
          | some r ↦ check_region r address size flags width is_write
        ]
              ≡ Status.ok
            → Any (λ r. Permits r address size flags width is_write) regions)
        → Any (λ r. Permits r address size flags width is_write) (r ∷ regions)
    at_region true here ok rest =
        let holds = encloses-Holds r address size words.0 fits here in
        inl (check_region-Permits r address size flags width is_write holds ok)
    at_region false next ok rest = inr (rest ok)

-- An access that passes lies, without wrap-around, in one region of the memory map whose flags allow
-- it: no write to flash, MMIO only on request and as one access of its width, and an explicit width
-- divides address and size. It has at least one byte.
pub validate_memory_access-Permits :
    (regions : List Region) (address size flags width : ℕ) (is_write : Bool)
    → All IsWord64 regions
    → size < 2 ^ 64
    → validate_memory_access regions address size flags width is_write ≡ Status.ok
    → Any (λ r. Permits r address size flags width is_write) regions × (1 ≤ size)
unfolding validate_memory_access
validate_memory_access-Permits regions address size flags width is_write words bound e = (
  found-Permits regions address size flags width is_write words (ground arith) (ground arith),
  ground arith,
)

-- The region holds the range and may execute it.
pub record Executes (r : Region) (address size : ℕ) (writable : Bool) : Type 0 where
  pub holds : Holds r address size
  pub execute : has_bits r.flags Mem.execute ≡ true
  pub patch :
      (writable
        && not (r.type == Mem.ram && (has_bits r.flags Mem.read && has_bits r.flags Mem.write)))
      ≡ false

executes-Holds :
    (r : Region) (address size : ℕ) (writable : Bool)
    → IsWord64 r
    → address + size < 2 ^ 64
    → executes r address size writable ≡ true
    → Executes r address size writable
executes-Holds r address size writable word fits e = ground arith

Any-Executes :
    (regions : List Region) (address size : ℕ) (writable : Bool)
    → All IsWord64 regions
    → address + size < 2 ^ 64
    → any_executes regions address size writable ≡ true
    → Any (λ r. Executes r address size writable) regions
unfolding any_executes
Any-Executes [] address size writable words fits e = ground arith
Any-Executes (r ∷ regions) address size writable words fits e =
    elim (Bool-cases (executes r address size writable)) [
      | inl here ↦ inl (executes-Holds r address size writable words.0 fits here)
      | inr next ↦ inr (Any-Executes regions address size writable words.1 fits (ground arith))
    ]

Executes-Any :
    (regions : List Region) (address size : ℕ) (writable : Bool)
    → All IsWord64 regions
    → 1 ≤ size
    → Any (λ r. Executes r address size writable) regions
    → any_executes regions address size writable ≡ true
unfolding any_executes
Executes-Any [] address size writable words some_bytes e = ground arith
Executes-Any (r ∷ regions) address size writable words some_bytes (inl here) = ground arith
Executes-Any (r ∷ regions) address size writable words some_bytes (inr next) =
    let rest = Executes-Any regions address size writable words.1 some_bytes next in ground arith

Executes-fits :
    (regions : List Region) (address size : ℕ) (writable : Bool)
    → Any (λ r. Executes r address size writable) regions
    → address + size < 2 ^ 64
Executes-fits [] address size writable found = elim found [ ]
Executes-fits (r ∷ regions) address size writable (inl here) =
    omega (arith, here.holds.1, here.holds.2)
Executes-fits (r ∷ regions) address size writable (inr next) =
    Executes-fits regions address size writable next

-- `is_executable_range` decides whether a range of at least one byte lies, without wrap-around, in one
-- executable region, which is readable and writable RAM if the range is to be patched.
pub is_executable_range_iff :
    (regions : List Region) (address size : ℕ) (writable : Bool)
    → All IsWord64 regions
    → size < 2 ^ 64
    → (is_executable_range regions address size writable ≡ true)
      ↔ (Any (λ r. Executes r address size writable) regions × (1 ≤ size))
unfolding is_executable_range
is_executable_range_iff regions address size writable words bound = (
  λ e. (
    Any-Executes regions address size writable words (ground arith) (ground arith),
    ground arith,
  ),
  λ (found, some_bytes).
      let fits = Executes-fits regions address size writable found in
      let any = Executes-Any regions address size writable words some_bytes found in ground arith,
)

-- What `normalize_attach_info` makes of the backend's report: no more breakpoint and watchpoint slots
-- than the session tracks, nor than were reported; at least one byte a memory transfer, no more
-- than one frame holds, and no more than was reported unless none was. The report's architecture,
-- profile, address width, identifiers, vector-catch mask and memory regions stay as they are. Of the
-- capabilities nothing is stated.
pub normalize_attach_info_bounds :
    (info : AttachInfo)
    → let t = normalize_attach_info info in
      (t.hardware_breakpoints ≤ Limits.max_hardware_breakpoints)
      × (t.hardware_breakpoints ≤ info.hardware_breakpoints)
      × (t.hardware_watchpoints ≤ Limits.max_hardware_watchpoints)
      × (t.hardware_watchpoints ≤ info.hardware_watchpoints)
      × (1 ≤ t.max_memory_transfer)
      × (t.max_memory_transfer ≤ Limits.max_memory_transfer)
      × ((info.max_memory_transfer ≡ 0) ⊎ (t.max_memory_transfer ≤ info.max_memory_transfer))
      × (t.architecture ≡ info.architecture)
      × (t.profile ≡ info.profile)
      × (t.address_width ≡ info.address_width)
      × (t.target_id ≡ info.target_id)
      × (t.cpu_id ≡ info.cpu_id)
      × (t.supported_vector_catch_mask ≡ info.supported_vector_catch_mask)
      × (t.memory_regions ≡ info.memory_regions)
unfolding normalize_attach_info normalize_transfer
normalize_attach_info_bounds info = ground arith
