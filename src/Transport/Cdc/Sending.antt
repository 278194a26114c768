-- ===== src/Transport/Cdc/Sending.antt =====
-- Sending a frame over CDC ends, and a success means that the driver has taken all of it.
-- What is relied on: the driver takes bytes in order, each of its calls takes some time but not too
-- long, and the other tasks leave what it has taken alone. Times are in microseconds.
use sidp_client.Base.{◌==◌}
use sidp_client.Base.{if◌then◌else◌}
use sidp_client.Backend.{EspErr, is_ok}
use sidp_client.Base.{
  ℕ, ◌+◌, ◌-◌, ◌*◌, ◌/◌, ◌^◌, ◌≤◌, ◌<◌, ◌≡◌, refl, ◌∙◌, Bool, true, false, not, ◌||◌, List, ◌++◌,
  arith, u32, take,
}
use sidp_client.Transport.Cdc.Resync.{opened}
use sidp_client.Transport.Cdc.Send.{
  remaining_timeout, flush_cdc_once, flush_result, now_ms, queue_bytes, Deadline, map_esp_error,
  flush_wait, is_not_finished,
}
use sidp_client.Transport.Cdc.State.{Usb}
use sidp_client.Transport.Port.{Line}
use sidp_client.Transport.Queue.{is_open}
use sidp_client.Transport.State.{Queue}
use sidp_client.Transport.Wait.{timeout_to_ticks}

pub record SendLaws {R E : Type 0} (usb : Usb E) (cdc_port : ℕ) (elsewhere : Queue R E → Queue R E)
    : Type 0 where
  pub taken : E → List ℕ
  pub pause : ℕ
  pub pause_small : pause < 2 ^ 39
  pub queue_takes :
      (bytes : List ℕ) (e : E)
      → taken (usb.write_queue cdc_port bytes e).1
        ≡ taken e ++ take (usb.write_queue cdc_port bytes e).0 bytes
  pub queue_after :
      (bytes : List ℕ) (e : E) → usb.get_time e < usb.get_time (usb.write_queue cdc_port bytes e).1
  pub queue_soon :
      (bytes : List ℕ) (e : E)
      → usb.get_time (usb.write_queue cdc_port bytes e).1 ≤ usb.get_time e + pause
  pub flush_keeps : (ticks : ℕ) (e : E) → taken (usb.write_flush cdc_port ticks e).1 ≡ taken e
  pub flush_after :
      (ticks : ℕ) (e : E) → usb.get_time e < usb.get_time (usb.write_flush cdc_port ticks e).1
  pub flush_soon :
      (ticks : ℕ) (e : E)
      → usb.get_time (usb.write_flush cdc_port ticks e).1 ≤ usb.get_time e + pause
  pub clear_keeps : (e : E) → taken (usb.write_clear cdc_port e) ≡ taken e
  pub others_keep : (q : Queue R E) → taken (elsewhere q).env ≡ taken q.env
  pub others_after : (q : Queue R E) → usb.get_time q.env ≤ usb.get_time (elsewhere q).env
  pub others_soon : (q : Queue R E) → usb.get_time (elsewhere q).env ≤ usb.get_time q.env + pause

module _ {R E : Type 0} (usb : Usb E) (line : Line E) (cdc_port tick_rate_hz : ℕ)
    (elsewhere : Queue R E → Queue R E) (laws : SendLaws usb cdc_port elsewhere) where
  abbrev pub time : Queue R E → ℕ
  time q = usb.get_time q.env

  abbrev pub taken_of : Queue R E → List ℕ
  taken_of q = laws.taken q.env

  pub queue_step :
      (bytes : List ℕ) (q : Queue R E)
      → (time q < time (queue_bytes usb line cdc_port tick_rate_hz elsewhere bytes q).1)
        × (time (queue_bytes usb line cdc_port tick_rate_hz elsewhere bytes q).1
            ≤ time q + 2 * laws.pause)
        × (taken_of (queue_bytes usb line cdc_port tick_rate_hz elsewhere bytes q).1
            ≡ taken_of q
              ++ take (queue_bytes usb line cdc_port tick_rate_hz elsewhere bytes q).0 bytes)
  unfolding queue_bytes
  queue_step bytes q =
      let e : E = (usb.write_queue cdc_port bytes q.env).1 in
      let r : Queue R E = record q { env = e } in
      (
        omega (arith, laws.queue_after bytes q.env, laws.others_after r),
        omega (arith, laws.queue_soon bytes q.env, laws.others_soon r),
        laws.others_keep r ∙ laws.queue_takes bytes q.env,
      )

  -- A flush that was tried.
  flush_step :
      (ticks : ℕ) (q : Queue R E)
      → (time q < time (elsewhere (record q { env = (usb.write_flush cdc_port ticks q.env).1 })))
        × (time (elsewhere (record q { env = (usb.write_flush cdc_port ticks q.env).1 }))
            ≤ time q + 2 * laws.pause)
        × (taken_of (elsewhere (record q { env = (usb.write_flush cdc_port ticks q.env).1 }))
            ≡ taken_of q)
  flush_step ticks q =
      let e : E = (usb.write_flush cdc_port ticks q.env).1 in
      let r : Queue R E = record q { env = e } in
      (
        omega (arith, laws.flush_after ticks q.env, laws.others_after r),
        omega (arith, laws.flush_soon ticks q.env, laws.others_soon r),
        laws.others_keep r ∙ laws.flush_keeps ticks q.env,
      )

  module _ (began timeout_ms : ℕ) (short : timeout_ms ≤ 5000) where
    abbrev pub deadline : Deadline
    deadline = record { started_at = u32 (began / 1000); timeout_ms = timeout_ms }

    abbrev pub limit : ℕ
    limit = began + 1000 * (timeout_ms + 1)

    -- Where a send can stand at the start of a round.
    pub record IsSending (fuel : ℕ) (q : Queue R E) : Type 0 where
      pub begun : began ≤ time q
      pub on_time : time q ≤ limit + 4 * laws.pause
      pub enough : limit - time q < fuel

    pub remaining_lem :
        (q : Queue R E)
        → began ≤ time q
        → time q ≤ limit + 6 * laws.pause
        → (remaining_timeout usb deadline q.env == 0) ≡ false
        → time q < limit
    unfolding remaining_timeout now_ms
    remaining_lem q begun on_time left = let small = laws.pause_small in ground (arith, small)

    abbrev pub flushed : Queue R E → EspErr × Queue R E
    flushed = flush_cdc_once usb line cdc_port tick_rate_hz elsewhere deadline

    -- A flush that is not over: it was tried, and time is left.
    pub record GoesOn (q t : Queue R E) : Type 0 where
      pub after : time q < time t
      pub soon : time t ≤ time q + 2 * laws.pause
      pub same : taken_of t ≡ taken_of q

    pub flush_cases :
        (q : Queue R E)
        → (taken_of (flushed q).1 ≡ taken_of q)
          × ((is_ok (flushed q).0 || is_not_finished (flushed q).0) ≡ true → GoesOn q (flushed q).1)
    unfolding flush_cdc_once
    flush_cases q = by_open (is_open line q)
      where
        ticks : ℕ
        ticks =
            timeout_to_ticks tick_rate_hz
              (flush_wait usb line cdc_port tick_rate_hz elsewhere deadline q.env)

        t : Queue R E
        t = elsewhere (record q { env = (usb.write_flush cdc_port ticks q.env).1 })

        result : EspErr
        result =
            flush_result usb line cdc_port tick_rate_hz elsewhere deadline
              (usb.write_flush cdc_port ticks q.env).0 t

        chosen : Bool → EspErr × Queue R E
        chosen opened = if not opened then (EspErr.invalid_state, q) else (result, t)

        by_open :
            (opened : Bool)
            → (taken_of (chosen opened).1 ≡ taken_of q)
              × ((is_ok (chosen opened).0 || is_not_finished (chosen opened).0) ≡ true
                  → GoesOn q (chosen opened).1)
        by_open true =
            let (after, soon, same) = flush_step ticks q in
            (same, λ h. record { after = after; soon = soon; same = same })
        by_open false = (refl, λ h. absurd (cc))

    pub flush_time_left :
        (q : Queue R E)
        → is_not_finished (flushed q).0 ≡ true
        → (remaining_timeout usb deadline (flushed q).1.env == 0) ≡ false
    unfolding flush_cdc_once flush_result map_esp_error
    flush_time_left q h = ground (arith, short)
