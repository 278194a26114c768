-- ===== src/Session/RegisterOps.antt =====
-- `op_read_registers` and `op_write_registers` of sidp_session.cpp.
use sidp_client.Base.{
  ℕ, zero, suc, ◌+◌, ◌-◌, ◌*◌, Bool, false, not, Option, none, some, List, [], ◌∷◌, ◌++◌, ◌||◌, ltb,
  ◌==◌, if◌then◌else◌, length, drop, field, from_le, le_bytes,
}
use sidp_client.Defs.{Status, status_code, kind_response}
use sidp_client.Defs.Limits
use sidp_client.Defs.Opcode
use sidp_client.Backend.{Host, is_ok}
use sidp_client.Session.State.{Session, M, gets, call, modify, skip, ◌>>=◌, ◌>>◌}
use sidp_client.Session.Frame.{
  begin_frame, put, finish_frame, respond, unless_refused, count_entries,
}
use sidp_client.Session.Registers.{
  normalize_pc_in_register_blob, scan_registers, update_step_over_after_register_write,
}
use sidp_client.Session.Stops.{send_backend_failure}

abbrev pub max_register_ids : ℕ
max_register_ids = 64

abbrev pub blob_capacity : ℕ
blob_capacity = Limits.max_frame_size - Limits.header_size - Limits.read_registers_response_size

-- The register IDs, `left` of them from `offset` on.
unfoldable pub parse_ids : ℕ → List ℕ → ℕ → List ℕ
unfolding from_le
parse_ids zero payload offset = []
parse_ids (suc left) payload offset =
    field payload offset 2 ∷ parse_ids left payload (offset + Limits.register_id_size)

-- Every check of `op_read_registers` before it begins a frame.
unfoldable pub read_registers_refusal : {W : Type 0} → Session W → List ℕ → Option Status
unfolding from_le
read_registers_refusal s payload =
    let count = field payload 6 2 in
    if ltb (length payload) Limits.read_registers_request_size
    then some Status.invalid_argument
    else if not (field payload 4 2 == 0)
    then some Status.invalid_argument
    else if not
        (length payload == Limits.read_registers_request_size + count * Limits.register_id_size)
    then some Status.invalid_argument
    else if not (field payload 0 4 == s.stop_id)
    then some Status.stale_stop
    else if ltb max_register_ids count
    then some Status.invalid_argument
    else none

-- The list of `op_write_registers` is whole: as many entries as announced, and nothing behind them.
unfoldable pub registers_valid : List ℕ → Bool
unfolding scan_registers from_le
registers_valid payload =
    let count = field payload 6 2 in
    let blob = drop Limits.write_registers_request_size payload in
    if not (field payload 4 2 == 0) || count == 0
    then false
    else elim (scan_registers count blob 0) [ none ↦ false | some offset ↦ offset == length blob ]

unfoldable pub write_registers_refusal : {W : Type 0} → Session W → List ℕ → Option Status
unfolding registers_valid
write_registers_refusal s payload =
    if ltb (length payload) Limits.write_registers_request_size
    then some Status.invalid_argument
    else if not (field payload 0 4 == s.stop_id)
    then some Status.stale_stop
    else if not (registers_valid payload)
    then some Status.invalid_argument
    else none

module _ {W : Type 0} (h : Host W) where
  -- The frame around the blob that the backend wrote into it.
  unfoldable pub answer_registers : List ℕ → ℕ → M W (Unit {0})
  answer_registers bytes out_size = do
    s ← gets (λ s. s)
    let blob =
        normalize_pc_in_register_blob s.sw_step_over_pending s.sw_step_over_address bytes out_size
    put h Limits.read_registers_response_size blob
    modify λ s. record s {
      tx_frame_size = Limits.header_size + Limits.read_registers_response_size + out_size;
    }
    put h 0 (
        le_bytes 4 (status_code Status.ok)
        ++ le_bytes 4 s.stop_id
        ++ le_bytes 2 (count_entries out_size blob out_size 0 0)
        ++ le_bytes 2 0)
    finish_frame h
    skip

  unfoldable pub read_target_registers : ℕ → List ℕ → M W (Unit {0})
  read_target_registers request_id payload = do
    ready ←
        begin_frame h kind_response Opcode.read_registers request_id
          (Limits.max_frame_size - Limits.header_size)
    if not ready then respond h Opcode.read_registers request_id Status.swd_error else do
      reply ← call (
          h.read_regs (parse_ids (field payload 6 2) payload Limits.read_registers_request_size)
            blob_capacity)
      put h Limits.read_registers_response_size reply.bytes
      if not (is_ok reply.err)
          then send_backend_failure h Opcode.read_registers request_id reply.err Status.swd_error
          else if ltb blob_capacity reply.out_size
          then respond h Opcode.read_registers request_id Status.swd_error
          else answer_registers reply.bytes reply.out_size

  unfoldable pub op_read_registers : ℕ → List ℕ → M W (Unit {0})
  op_read_registers request_id payload = do
    s ← gets (λ s. s)
    unless_refused h Opcode.read_registers request_id (read_registers_refusal s payload)
        (read_target_registers request_id payload)

  unfoldable pub write_target_registers : ℕ → List ℕ → M W (Unit {0})
  write_target_registers request_id payload = do
    let blob = drop Limits.write_registers_request_size payload
    err ← call (h.write_regs blob)
    if not (is_ok err)
        then send_backend_failure h Opcode.write_registers request_id err Status.swd_error
        else do
          update_step_over_after_register_write h blob (field payload 6 2)
          respond h Opcode.write_registers request_id Status.ok

  unfoldable pub op_write_registers : ℕ → List ℕ → M W (Unit {0})
  op_write_registers request_id payload = do
    s ← gets (λ s. s)
    unless_refused h Opcode.write_registers request_id (write_registers_refusal s payload)
        (write_target_registers request_id payload)
