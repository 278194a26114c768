-- ===== src/Session/Access.antt =====
-- The checks of sidp_session.cpp against the memory map, and the sanitizing of what a backend
-- reports at attach.
use sidp_client.Base.{
  ℕ, ◌+◌, ◌-◌, ◌%◌, ◌^◌, Bool, false, not, Option, none, some, List, [], ◌∷◌, ◌&&◌, ◌||◌, ltb, leb,
  ◌==◌, if◌then◌else◌, bit_and, bit_or, u64,
}
use sidp_client.Defs.{Status}
use sidp_client.Defs.Cap
use sidp_client.Defs.Limits
use sidp_client.Defs.Mem
use sidp_client.Backend.{AttachInfo}
use sidp_client.Session.State.{Region}

-- `(x & mask) != 0`.
abbrev pub has_bits : ℕ → ℕ → Bool
has_bits x mask = not (bit_and x mask == 0)

-- `start > UINT64_MAX - length`: the region runs past the address space, and no request fits it.
abbrev pub overruns : Region → Bool
overruns r = ltb (Limits.uint64_max - r.length) r.start

abbrev pub encloses : Region → ℕ → ℕ → Bool
encloses r address length =
    leb r.start address && leb (u64 (address + length)) (u64 (r.start + r.length))

-- The first region that holds the whole request.
unfoldable pub find_region : List Region → ℕ → ℕ → Option Region
find_region [] address length = none
find_region (r ∷ regions) address length =
    if not (overruns r) && encloses r address length
    then some r
    else find_region regions address length

abbrev pub is_width : ℕ → Bool
is_width width = width == Mem.width_8 || width == Mem.width_16 || width == Mem.width_32

-- The rules of the region that was found.
unfoldable pub check_region : Region → ℕ → ℕ → ℕ → ℕ → Bool → Status
check_region r address length flags width is_write =
    if r.type == Mem.flash && is_write
    then Status.unsupported
    else if not (has_bits r.flags (if is_write then Mem.write else Mem.read))
    then Status.address_error
    else if r.type == Mem.mmio
    then (if not (has_bits flags Mem.allow_mmio)
        then Status.address_error
        else if not (is_width width)
        then Status.invalid_argument
        else if not (length == width)
        then Status.invalid_argument
        else if not (address % width == 0)
        then Status.alignment_error
        else Status.ok)
    else if not (width == Mem.width_default)
    then (if not (is_width width)
        then Status.invalid_argument
        else if not (address % width == 0) || not (length % width == 0)
        then Status.alignment_error
        else Status.ok)
    else Status.ok

unfoldable pub validate_memory_access : List Region → ℕ → ℕ → ℕ → ℕ → Bool → Status
unfolding find_region check_region
validate_memory_access regions address length flags width is_write =
    if length == 0 || ltb (Limits.uint64_max - length) address
    then Status.address_error
    else elim (find_region regions address length) [
      | none ↦ Status.address_error
      | some r ↦ check_region r address length flags width is_write
    ]

-- One region of the loop of `is_executable_range`.
abbrev pub executes : Region → ℕ → ℕ → Bool → Bool
executes r address size require_writable =
    not (overruns r)
    && (encloses r address size
        && (has_bits r.flags Mem.execute
            && (not require_writable
                || (r.type == Mem.ram
                    && (has_bits r.flags Mem.read && has_bits r.flags Mem.write)))))

unfoldable pub any_executes : List Region → ℕ → ℕ → Bool → Bool
any_executes [] address size require_writable = false
any_executes (r ∷ regions) address size require_writable =
    executes r address size require_writable || any_executes regions address size require_writable

unfoldable pub is_executable_range : List Region → ℕ → ℕ → Bool → Bool
unfolding any_executes
is_executable_range regions address size require_writable =
    if size == 0 || ltb (Limits.uint64_max - size) address
    then false
    else any_executes regions address size require_writable

-- `caps &= ~bit`.
abbrev pub strip : ℕ → ℕ → ℕ
strip caps bit = bit_and caps (2 ^ 32 - 1 - bit)

abbrev pub strip_if : Bool → ℕ → ℕ → ℕ
strip_if test bit caps = if test then strip caps bit else caps

abbrev pub clamp : ℕ → ℕ → ℕ
clamp limit n = if ltb limit n then limit else n

abbrev pub reset_methods : ℕ
reset_methods = bit_or Cap.reset_system Cap.reset_nrst

-- The capability word of `normalize_attach_info` after the mask and the two strips of features
-- without a slot.
unfoldable pub strip_slots : ℕ → ℕ → ℕ → ℕ
strip_slots caps hw_bp hw_wp =
    let c0 = bit_and caps Cap.handled in
    let c1 = strip_if (has_bits c0 Cap.hardware_bp && hw_bp == 0) Cap.hardware_bp c0 in
    strip_if (has_bits c1 Cap.watchpoint && hw_wp == 0) Cap.watchpoint c1

-- The strips of features that need another feature.
unfoldable pub strip_dependents : ℕ → ℕ
strip_dependents c2 =
    let c3 =
      strip_if (has_bits c2 Cap.software_bp && not (has_bits c2 Cap.single_step)) Cap.software_bp
        c2 in
    let c4 =
      strip_if (has_bits c3 Cap.reset_halt && not (has_bits c3 reset_methods)) Cap.reset_halt c3 in
    strip_if (has_bits c4 Cap.reset_run && not (has_bits c4 reset_methods)) Cap.reset_run c4

unfoldable pub normalize_transfer : ℕ → ℕ
normalize_transfer max_xfer =
    clamp Limits.max_memory_transfer
      (if max_xfer == 0 then Limits.default_max_memory_transfer else max_xfer)

unfoldable pub normalize_attach_info : AttachInfo → AttachInfo
unfolding strip_slots strip_dependents normalize_transfer
normalize_attach_info info =
    let hw_bp = clamp Limits.max_hardware_breakpoints info.hardware_breakpoints in
    let hw_wp = clamp Limits.max_hardware_watchpoints info.hardware_watchpoints in
    let caps = strip_slots info.capabilities hw_bp hw_wp in
    record info {
      capabilities = strip_dependents caps;
      hardware_breakpoints = if has_bits caps Cap.hardware_bp then hw_bp else 0;
      hardware_watchpoints = if has_bits caps Cap.watchpoint then hw_wp else 0;
      max_memory_transfer = normalize_transfer info.max_memory_transfer;
    }
