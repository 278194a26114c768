-- ===== src/Session/Frame.antt =====
-- The frame assembly of sidp_session.cpp. `scratch` keeps the bytes of earlier frames where a method
-- does not write, as the source's buffer does.
use sidp_client.Base.{drop}
use sidp_client.Base.{
  ℕ, zero, suc, ◌+◌, ◌-◌, Bool, true, false, not, Option, none, some, List, [], ◌∷◌, ◌++◌, ◌||◌,
  leb, if◌then◌else◌, length, take, field, from_le, le_bytes,
}
use sidp_client.Defs.{
  Status, status_code, reason_code, LostReason, lost_code, kind_response, kind_event,
}
use sidp_client.Defs.Limits
use sidp_client.Defs.Opcode
use sidp_client.Backend.{Host}
use sidp_client.Crc.{set_message_crc}
use sidp_client.Session.State.{Session, M, pure, gets, call, modify, skip, ◌>>=◌, ◌>>◌}

-- The bytes behind a pointer; a null pointer has none.
abbrev pub bytes_of : Option (List ℕ) → List ℕ
bytes_of none = []
bytes_of (some buf) = buf

abbrev pub is_null : Option (List ℕ) → Bool
is_null none = true
is_null (some buf) = false

-- A write through a pointer into the buffer. One that goes past the end is not cut off: it makes
-- the list longer than the buffer it stands for.
unfoldable pub store_at : ℕ → List ℕ → Option (List ℕ) → Option (List ℕ)
store_at off bs none = none
store_at off bs (some buf) = some (take off buf ++ bs ++ drop (off + length bs) buf)

-- `version`, `kind`, `opcode` and `request_id` of `msg_header_t`.
unfoldable pub header_bytes : ℕ → ℕ → ℕ → List ℕ
unfolding le_bytes
header_bytes kind opcode request_id =
    Limits.protocol_version ∷ kind ∷ le_bytes 2 opcode ++ le_bytes 4 request_id

-- `reinterpret_cast` of a register blob at an offset: one `register_value_t`.
abbrev pub entry_id : List ℕ → ℕ → ℕ
entry_id buf offset = field buf offset 2

abbrev pub entry_value_size : List ℕ → ℕ → ℕ
entry_value_size buf offset = field buf (offset + 2) 1

abbrev pub entry_flags : List ℕ → ℕ → ℕ
entry_flags buf offset = field buf (offset + 3) 1

-- The loop that counts the entries of a register blob, which `send_stopped` and
-- `op_read_registers` share. Each round moves `offset` by at least four.
unfoldable pub count_entries : ℕ → List ℕ → ℕ → ℕ → ℕ → ℕ
unfolding from_le
count_entries zero buf size offset count = count
count_entries (suc fuel) buf size offset count =
    let next = offset + (Limits.register_value_size + entry_value_size buf offset) in
    let rest = count_entries fuel buf size next (count + 1) in
    if leb (offset + Limits.register_value_size) size
    then (if leb next size then rest else count)
    else count

module _ {W : Type 0} (h : Host W) where
  -- `false` is the null pointer; otherwise the payload area is `scratch` from the header on.
  unfoldable pub begin_frame : ℕ → ℕ → ℕ → ℕ → M W Bool
  begin_frame kind opcode request_id payload_size = do
    buf ← gets (λ s. s.scratch)
    if is_null buf || not (leb payload_size (Limits.max_frame_size - Limits.header_size))
        then pure false
        else do
          modify λ s. record s {
            tx_frame_size = Limits.header_size + payload_size;
            scratch = store_at 0 (header_bytes kind opcode request_id) s.scratch;
          }
          pure true

  -- A write into the payload area that `begin_frame` returned.
  unfoldable pub put : ℕ → List ℕ → M W (Unit {0})
  put off bs = modify λ s. record s { scratch = store_at (Limits.header_size + off) bs s.scratch }

  unfoldable pub kill_transport : M W Bool
  kill_transport = do modify λ s. record s { transport_dead = true }; pure false

  -- The sink takes the frame, or the transport is dead.
  unfoldable pub offer : List ℕ → M W Bool
  offer frame = do
    modify λ s. record s { scratch = store_at 0 frame s.scratch }
    taken ← call (h.tx_sink frame)
    if not taken
        then kill_transport
        else do modify λ s. record s { sent = frame ∷ s.sent }; pure true

  -- A frame of a size that has no checksum kills the transport.
  unfoldable pub finish_with : Option (List ℕ) → M W Bool
  finish_with none = kill_transport
  finish_with (some frame) = offer frame

  unfoldable pub finish_frame : M W Bool
  finish_frame = do
    s ← gets (λ s. s)
    if s.transport_dead
        then pure false
        else if not s.has_sink
        then kill_transport
        else finish_with (set_message_crc (take s.tx_frame_size (bytes_of s.scratch)))

  unfoldable pub send_response : ℕ → ℕ → Status → List ℕ → M W Bool
  send_response opcode request_id status payload = do
    ready ←
        begin_frame kind_response opcode request_id (Limits.response_prefix_size + length payload)
    if not ready then pure false else do
      put 0 (le_bytes 4 (status_code status))
      put Limits.response_prefix_size payload
      finish_frame

  -- A response that carries its status alone.
  unfoldable pub respond : ℕ → ℕ → Status → M W (Unit {0})
  respond opcode request_id status = do send_response opcode request_id status []; skip

  -- A request that its checks refuse is answered by their status; any other goes on.
  unfoldable pub unless_refused : ℕ → ℕ → Option Status → M W (Unit {0}) → M W (Unit {0})
  unless_refused opcode request_id none m = m
  unless_refused opcode request_id (some status) m = respond opcode request_id status

  -- The bytes of `stopped_event_t`, field by field.
  unfoldable pub stopped_bytes : Session W → List ℕ
  stopped_bytes s =
      le_bytes 4 s.stop_id
      ++ le_bytes 2 0
      ++ reason_code s.pending.reason ∷ 0 ∷ le_bytes 4 s.pending.detail
      ++ le_bytes 4 s.pending.breakpoint_id
      ++ le_bytes 8 s.pending.watchpoint_address
      ++ le_bytes 2 (count_entries size (bytes_of s.pending_registers) size 0 0)
      ++ le_bytes 2 s.pending.stack_size
      ++ le_bytes 8 s.pending.stack_address
    where
      size : ℕ
      size = s.pending.registers_size

  unfoldable pub send_stopped : M W Bool
  send_stopped = do
    s ← gets (λ s. s)
    ready ←
        begin_frame kind_event Opcode.evt_stopped 0
          (Limits.stopped_event_size + s.pending.registers_size + s.pending.stack_size)
    if not ready then pure false else do
      put 0 (stopped_bytes s)
      put Limits.stopped_event_size
          (take (s.pending.registers_size + s.pending.stack_size) (bytes_of s.pending_registers))
      reported ← finish_frame
      modify λ s. record s { stop_reported = reported }
      pure reported

  -- The three reserved bytes of the event keep what `scratch` held.
  unfoldable pub send_target_lost : LostReason → M W Bool
  send_target_lost reason = do
    ready ← begin_frame kind_event Opcode.evt_target_lost 0 Limits.target_lost_event_size
    if not ready
        then pure false
        else do put 0 (lost_code reason ∷ []); put 4 (le_bytes 4 0); finish_frame
