-- ===== src/Transport/Cdc/Send.antt =====
-- The TX half of sidp_transport_cdc.cpp: `deliver_tx_frame`, `flush_cdc_once` and what they use.
use sidp_client.Base.{ltb}
use sidp_client.Base.{◌==◌}
use sidp_client.Base.{if◌then◌else◌}
use sidp_client.Backend.{is_timeout, is_ok, EspErr}
use sidp_client.Base.{
  ℕ, zero, suc, ◌+◌, ◌-◌, ◌/◌, ◌^◌, Bool, true, false, not, ◌&&◌, ◌||◌, Option, none, some, List,
  [], ◌∷◌, u32, drop,
}
use sidp_client.Transport.Cdc.Encode.{encode_message}
use sidp_client.Transport.Cdc.State.{Usb}
use sidp_client.Transport.Port.{Line}
use sidp_client.Transport.Queue.{is_open}
use sidp_client.Transport.Sizes
use sidp_client.Transport.State.{Queue}
use sidp_client.Transport.Wait.{timeout_to_ticks}

pub record Deadline : Type 0 where
  pub started_at : ℕ
  pub timeout_ms : ℕ

unfoldable pub map_esp_error : EspErr → EspErr
map_esp_error EspErr.invalid_arg = EspErr.invalid_arg
map_esp_error EspErr.no_mem = EspErr.no_mem
map_esp_error EspErr.timeout = EspErr.timeout
map_esp_error EspErr.not_finished = EspErr.not_finished
map_esp_error EspErr.invalid_state = EspErr.invalid_state
map_esp_error EspErr.esp_ok = EspErr.esp_fail
map_esp_error EspErr.esp_fail = EspErr.esp_fail
map_esp_error EspErr.invalid_size = EspErr.esp_fail
map_esp_error (EspErr.other n) = EspErr.esp_fail

abbrev pub is_not_finished : EspErr → Bool
is_not_finished EspErr.not_finished = true
is_not_finished _ = false

module _ {E : Type 0} (usb : Usb E) where
  unfoldable pub now_ms : E → ℕ
  now_ms e = u32 (usb.get_time e / 1000)

  unfoldable pub remaining_timeout : Deadline → E → ℕ
  unfolding now_ms
  remaining_timeout deadline e =
      if deadline.timeout_ms == Sizes.wait_forever
      then Sizes.wait_forever
      else let elapsed = u32 (now_ms e + (2 ^ 32 - deadline.started_at)) in
        if ltb elapsed deadline.timeout_ms then deadline.timeout_ms - elapsed else 0

unfoldable pub go_or_fail : {Q : Type 0} → Bool → (Q → Option (Bool × Q)) → Q → Option (Bool × Q)
go_or_fail true go q = go q
go_or_fail false go q = some (false, q)

-- `elsewhere` is what the other tasks do to the queues while the driver has the frame.
module _ {R E : Type 0} (usb : Usb E) (line : Line E) (cdc_port tick_rate_hz : ℕ)
    (elsewhere : Queue R E → Queue R E) where
  unfoldable pub flush_wait : Deadline → E → ℕ
  flush_wait deadline e =
      let remaining_ms = remaining_timeout usb deadline e in
      if remaining_ms == Sizes.wait_forever || ltb Sizes.flush_wait_slice_ms remaining_ms
      then Sizes.flush_wait_slice_ms
      else remaining_ms

  -- The result of `flush_cdc_once` after the driver's.
  unfoldable pub flush_result : Deadline → EspErr → Queue R E → EspErr
  flush_result deadline result q =
      if is_ok result
      then EspErr.esp_ok
      else if not (is_open line q)
      then EspErr.invalid_state
      else if not (is_timeout result) && not (is_not_finished result)
      then map_esp_error result
      else if not (deadline.timeout_ms == Sizes.wait_forever)
          && remaining_timeout usb deadline q.env == 0
      then EspErr.timeout
      else EspErr.not_finished

  unfoldable pub flush_cdc_once : Deadline → Queue R E → EspErr × Queue R E
  unfolding flush_wait flush_result
  flush_cdc_once deadline q =
      let ticks = timeout_to_ticks tick_rate_hz (flush_wait deadline q.env) in
      let (result, e) = usb.write_flush cdc_port ticks q.env in
      let t = elsewhere (record q { env = e }) in
      if not (is_open line q)
      then (EspErr.invalid_state, q)
      else (flush_result deadline result t, t)

  -- The driver takes some bytes.
  unfoldable pub queue_bytes : List ℕ → Queue R E → ℕ × Queue R E
  queue_bytes bytes q =
      let (queued, e) = usb.write_queue cdc_port bytes q.env in
      (queued, elsewhere (record q { env = e }))

  unfoldable pub gives_up : Deadline → Queue R E → Bool
  gives_up deadline q = not (is_open line q) || remaining_timeout usb deadline q.env == 0

  -- The rest of a round of the first loop, after the driver took some bytes or none.
  unfoldable pub send_next :
      Bool
      → Deadline
      → (Queue R E → Option (Bool × Queue R E))
      → (Queue R E → Option (Bool × Queue R E))
      → Queue R E
      → Option (Bool × Queue R E)
  unfolding flush_cdc_once
  send_next false deadline go_rest go_same q = go_rest q
  send_next true deadline go_rest go_same q =
      let (result, r) = flush_cdc_once deadline q in
      go_or_fail (is_ok result || is_not_finished result) go_same r

  -- The first loop of `deliver_tx_frame`, on the bytes of `tx_buffer` from `tx_offset` on: whether all
  -- were queued. The fuel is a bound on its rounds; `none` is no result yet.
  unfoldable pub send_loop : ℕ → Deadline → List ℕ → Queue R E → Option (Bool × Queue R E)
  unfolding send_next queue_bytes gives_up
  send_loop zero deadline bytes q = none
  send_loop (suc fuel) deadline [] q = some (true, q)
  send_loop (suc fuel) deadline (byte ∷ rest) q =
      let (queued, t) = queue_bytes (byte ∷ rest) q in
      go_or_fail (not (gives_up deadline q))
        (λ r.
          send_next (queued == 0) deadline (send_loop fuel deadline (drop queued (byte ∷ rest)))
            (send_loop fuel deadline (byte ∷ rest)) t)
        q

  unfoldable pub drain_round :
      Bool
      → (Queue R E → Option (Bool × Queue R E))
      → EspErr
      → Queue R E
      → Option (Bool × Queue R E)
  drain_round true go result q = go q
  drain_round false go result q = some (is_ok result, q)

  -- The second loop: the driver's buffer goes out.
  unfoldable pub drain_tx : ℕ → Deadline → Queue R E → Option (Bool × Queue R E)
  unfolding flush_cdc_once drain_round
  drain_tx zero deadline q = none
  drain_tx (suc fuel) deadline q =
      let (result, t) = flush_cdc_once deadline q in
      drain_round (is_not_finished result) (drain_tx fuel deadline) result t

  -- The driver's unsent bytes are discarded at the end, as the source's guard does.
  unfoldable pub clear_tx : Queue R E → Queue R E
  clear_tx q = record q { env = usb.write_clear cdc_port q.env }

  unfoldable pub send_then :
      Option (Bool × Queue R E)
      → (Queue R E → Option (Bool × Queue R E))
      → Option (Bool × Queue R E)
  unfolding clear_tx
  send_then none go = none
  send_then (some (false, t)) go = some (false, clear_tx t)
  send_then (some (true, t)) go = go t

  unfoldable pub clear_after : Option (Bool × Queue R E) → Option (Bool × Queue R E)
  unfolding clear_tx
  clear_after none = none
  clear_after (some (sent, t)) = some (sent, clear_tx t)

  unfoldable pub deliver_cdc_frame : ℕ → List ℕ → Bool → Queue R E → Option (Bool × Queue R E)
  unfolding send_loop drain_tx send_then clear_after
  deliver_cdc_frame fuel frame log q =
      let timeout_ms = if log then Sizes.log_send_timeout_ms else Sizes.tx_send_timeout_ms in
      let deadline : Deadline = record { started_at = now_ms usb q.env; timeout_ms = timeout_ms } in
      if not (is_open line q)
      then some (false, q)
      else send_then (send_loop fuel deadline (encode_message frame) q)
          (λ t. clear_after (drain_tx fuel deadline t))
