-- ===== src/Transport/Cdc/Delivery.antt =====
-- The CDC `deliver_tx_frame` as a whole.
use sidp_client.Base.{if◌then◌else◌}
use sidp_client.Base.{
  ℕ, ◌≤◌, ◌<◌, ◌≡◌, refl, ap, ◌∙◌, Bool, true, false, not, Option, some, List, ◌++◌, arith,
}
use sidp_client.Transport.Cdc.Encode.{encode_message}
use sidp_client.Transport.Cdc.Resync.{opened}
use sidp_client.Transport.Cdc.Send.{clear_tx, deliver_cdc_frame, now_ms, send_then, clear_after}
use sidp_client.Transport.Cdc.Sending.{SendLaws}
use sidp_client.Transport.Cdc.Sent.{
  Sending, GoodSend, drain_tx-ends, send_loop-ends, drained, looped,
}
use sidp_client.Transport.Cdc.State.{Usb}
use sidp_client.Transport.Port.{Line}
use sidp_client.Transport.Queue.{is_open}
use sidp_client.Transport.Sizes
use sidp_client.Transport.State.{Queue}

module _ {R E : Type 0} (usb : Usb E) (line : Line E) (cdc_port tick_rate_hz : ℕ)
    (elsewhere : Queue R E → Queue R E) (laws : SendLaws usb cdc_port elsewhere) where
  timeout_of : Bool → ℕ
  timeout_of log = if log then Sizes.log_send_timeout_ms else Sizes.tx_send_timeout_ms

  timeout_short : (log : Bool) → timeout_of log ≤ 5000
  unfolding timeout_of
  timeout_short true = omega arith
  timeout_short false = omega arith

  -- If each call of the driver takes at least a microsecond and at most 2^39 of them, sending a frame
  -- ends within one round for each microsecond of the longest deadline, whatever the driver answers
  -- and the other tasks do; and when it reports success, the driver has taken all bytes of the SLIP
  -- frame, in order and nothing else.
  pub deliver_cdc_frame-ends :
      (fuel : ℕ) (frame : List ℕ) (log : Bool) (q : Queue R E)
      → 5_001_000 < fuel
      → (res : Bool × Queue R E) × (deliver_cdc_frame usb line cdc_port tick_rate_hz elsewhere fuel
            frame log q
          ≡ some res)
        × (res.0 ≡ true → laws.taken res.1.env ≡ laws.taken q.env ++ encode_message frame)
  unfolding deliver_cdc_frame now_ms timeout_of send_then clear_after clear_tx
  deliver_cdc_frame-ends fuel frame log q enough = by_open (is_open line q)
    where
      ms : ℕ
      ms = timeout_of log

      began : ℕ
      began = usb.get_time q.env

      short : ms ≤ 5000
      short = timeout_short log

      bytes : List ℕ
      bytes = encode_message frame

      Whole : Bool × Queue R E → Type 0
      Whole res = res.0 ≡ true → laws.taken res.1.env ≡ laws.taken q.env ++ bytes

      cleared : Option (Bool × Queue R E) → Option (Bool × Queue R E)
      cleared = clear_after usb line cdc_port tick_rate_hz elsewhere

      rest : Queue R E → Option (Bool × Queue R E)
      rest t = cleared (drained usb line cdc_port tick_rate_hz elsewhere laws began ms short fuel t)

      chosen : Bool → Option (Bool × Queue R E)
      chosen opened =
          if not opened
          then some (false, q)
          else send_then usb line cdc_port tick_rate_hz elsewhere
              (looped usb line cdc_port tick_rate_hz elsewhere laws began ms short fuel bytes q)
              rest

      by_sent :
          (sent : Bool) (t : Queue R E)
          → GoodSend usb line cdc_port tick_rate_hz elsewhere laws began ms short bytes fuel q
              (sent, t)
          → (res : Bool × Queue R E) × (send_then usb line cdc_port tick_rate_hz elsewhere
                (some (sent, t))
                rest
              ≡ some res)
            × Whole res
      by_sent false t good =
          ((false, clear_tx usb line cdc_port tick_rate_hz elsewhere t), refl, λ h. absurd (cc))
      by_sent true t good =
          let (res, e, kept) =
            drain_tx-ends usb line cdc_port tick_rate_hz elsewhere laws began ms short fuel t
              (good.going refl) in
          (
            (res.0, clear_tx usb line cdc_port tick_rate_hz elsewhere res.1),
            ap cleared e,
            λ h. laws.clear_keeps res.1.env ∙ (kept ∙ good.all refl),
          )

      by_open : (opened : Bool) → (res : Bool × Queue R E) × (chosen opened ≡ some res) × Whole res
      by_open false = ((false, q), refl, λ h. absurd (cc))
      by_open true =
          let s : Sending usb line cdc_port tick_rate_hz elsewhere laws began ms short fuel q =
            record { begun = omega arith; on_time = omega arith; enough = omega (arith, short) } in
          let (res, e, good) =
            send_loop-ends usb line cdc_port tick_rate_hz elsewhere laws began ms short fuel bytes q
              s in
          let (all, same, whole) = by_sent res.0 res.1 good in
          (
            all,
            ap
                  (λ (o : Option (Bool × Queue R E)).
                    send_then usb line cdc_port tick_rate_hz elsewhere o rest)
                  e
                ∙ same,
            whole,
          )
