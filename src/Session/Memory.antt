-- ===== src/Session/Memory.antt =====
-- `op_read_memory`, `op_write_memory`, `op_read_registers` and `op_write_registers` of
-- sidp_session.cpp.
use sidp_client.Base.{
  ℕ, ◌+◌, ◌-◌, Bool, true, false, not, Option, none, some, List, ◌++◌, ◌||◌, ltb, ◌==◌,
  if◌then◌else◌, length, drop, field, from_le, le_bytes,
}
use sidp_client.Defs.{Status, status_code, status_is_ok, is_halted, is_running, kind_response}
use sidp_client.Defs.Limits
use sidp_client.Defs.Mem
use sidp_client.Defs.Opcode
use sidp_client.Backend.{Host, is_ok}
use sidp_client.Session.State.{Session, M, gets, call, modify, skip, ◌>>=◌, ◌>>◌}
use sidp_client.Session.Frame.{store_at, begin_frame, put, finish_frame, respond, unless_refused}
use sidp_client.Session.Shadow.{sw_bp_substitute_read, sw_bp_write_overlap, write_image}
use sidp_client.Session.Access.{has_bits, validate_memory_access}
use sidp_client.Session.Stops.{send_backend_failure}

-- `read_memory_request_t`, and the fixed part of `write_memory_request_t`.
pub record MemRequest : Type 0 where
  pub stop_id : ℕ
  pub address : ℕ
  pub length : ℕ
  pub flags : ℕ
  pub access_width : ℕ

unfoldable pub parse_mem_request : List ℕ → MemRequest
unfolding from_le
parse_mem_request payload = record {
  stop_id = field payload 0 4;
  address = field payload 4 8;
  length = field payload 12 4;
  flags = field payload 16 2;
  access_width = field payload 18 1;
}

abbrev pub requires_halted : MemRequest → Bool
requires_halted req = has_bits req.flags Mem.require_halted

abbrev pub allows_running : MemRequest → Bool
allows_running req = has_bits req.flags Mem.allow_running

-- Both access flags, or neither.
abbrev pub contradicts : MemRequest → Bool
contradicts req = if requires_halted req then allows_running req else not (allows_running req)

-- The test of the access flags against the state and the stop generation: `none` lets the request
-- pass.
unfoldable pub state_refusal : {W : Type 0} → Session W → MemRequest → Option Status
state_refusal s req =
    if requires_halted req
    then (if not (is_halted s.state)
        then some (if is_running s.state then Status.target_running else Status.target_lost)
        else if not (req.stop_id == s.stop_id)
        then some Status.stale_stop
        else none)
    else if not (req.stop_id == 0)
    then some Status.invalid_argument
    else none

-- Every check of `op_read_memory` before it begins a frame.
unfoldable pub read_refusal : {W : Type 0} → Session W → List ℕ → Option Status
unfolding parse_mem_request state_refusal validate_memory_access
read_refusal s payload =
    let req = parse_mem_request payload in
    let map_status =
      validate_memory_access s.regions req.address req.length req.flags req.access_width false in
    if not (length payload == Limits.read_memory_request_size) || contradicts req
    then some Status.invalid_argument
    else elim (state_refusal s req) [
      | some status ↦ some status
      | none ↦
          if req.length == 0
            || (ltb s.max_memory_transfer req.length
                || ltb
                    (Limits.max_frame_size - Limits.header_size - Limits.read_memory_response_size)
                    req.length)
          then some Status.invalid_argument
          else if status_is_ok map_status
          then none
          else some map_status
    ]

-- Every check of `op_write_memory` before it calls the backend.
unfoldable pub write_refusal : {W : Type 0} → Session W → List ℕ → Option Status
unfolding parse_mem_request state_refusal validate_memory_access
write_refusal s payload =
    let req = parse_mem_request payload in
    let map_status =
      validate_memory_access s.regions req.address req.length req.flags req.access_width true in
    if ltb (length payload) Limits.write_memory_request_size
      || (contradicts req || not (length payload - Limits.write_memory_request_size == req.length))
    then some Status.invalid_argument
    else elim (state_refusal s req) [
      | some status ↦ some status
      | none ↦
          if req.length == 0 || ltb s.max_memory_transfer req.length
          then some Status.invalid_argument
          else if status_is_ok map_status
          then none
          else some map_status
    ]

module _ {W : Type 0} (h : Host W) where
  -- The read itself: into the payload area, the patches replaced by the saved bytes.
  unfoldable pub read_target : ℕ → MemRequest → M W (Unit {0})
  read_target request_id req = do
    ready ←
        begin_frame h kind_response Opcode.read_memory request_id
          (Limits.read_memory_response_size + req.length)
    if not ready then skip else do
      reply ← call (h.read_mem req.address req.length req.access_width)
      put h Limits.read_memory_response_size reply.bytes
      if not (is_ok reply.err)
          then send_backend_failure h Opcode.read_memory request_id reply.err Status.address_error
          else do
            table ← gets (λ s. s.sw_table)
            put h Limits.read_memory_response_size
                (sw_bp_substitute_read table req.address reply.bytes)
            put h 0 (
                le_bytes 4 (status_code Status.ok)
                ++ le_bytes 8 req.address
                ++ le_bytes 4 req.length)
            finish_frame h
            skip

  unfoldable pub op_read_memory : ℕ → List ℕ → M W (Unit {0})
  op_read_memory request_id payload = do
    s ← gets (λ s. s)
    unless_refused h Opcode.read_memory request_id (read_refusal s payload)
        (read_target request_id (parse_mem_request payload))

  -- The write itself. `scratch` is the write image, and the frame buffer afterwards.
  unfoldable pub write_target : ℕ → MemRequest → List ℕ → M W (Unit {0})
  write_target request_id req bytes = do
    table ← gets (λ s. s.sw_table)
    let image = write_image table req.address bytes
    modify λ s. record s { scratch = store_at 0 image s.scratch }
    err ← call (h.write_mem req.address image req.access_width)
    if not (is_ok err)
        then send_backend_failure h Opcode.write_memory request_id err Status.address_error
        else do
          modify λ s. record s { sw_table = sw_bp_write_overlap s.sw_table req.address bytes }
          respond h Opcode.write_memory request_id Status.ok

  unfoldable pub op_write_memory : ℕ → List ℕ → M W (Unit {0})
  op_write_memory request_id payload = do
    s ← gets (λ s. s)
    unless_refused h Opcode.write_memory request_id (write_refusal s payload) (
        write_target request_id (parse_mem_request payload)
          (drop Limits.write_memory_request_size payload))
