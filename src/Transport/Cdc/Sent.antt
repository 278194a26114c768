-- ===== src/Transport/Cdc/Sent.antt =====
-- The two loops of the CDC `deliver_tx_frame`.
use sidp_client.Base.{◌==◌}
use mathlib.Core.List.{append_assoc, append-nil}
use sidp_client.Backend.{EspErr, is_ok}
use sidp_client.Base.{
  ℕ, zero, suc, ◌+◌, ◌*◌, ◌≤◌, ◌<◌, ◌≡◌, refl, sym, ap, ◌∙◌, Bool, true, false, not, ◌||◌, Option,
  some, List, [], ◌∷◌, ◌++◌, arith, drop, take, take-drop,
}
use sidp_client.Transport.Cdc.Send.{
  is_not_finished, drain_tx, send_next, go_or_fail, send_loop, queue_bytes, gives_up,
  remaining_timeout, Deadline, flush_cdc_once, drain_round,
}
use sidp_client.Transport.Cdc.Sending.{
  SendLaws, deadline, remaining_lem, flush_time_left, GoesOn, limit, IsSending, flush_cases,
  queue_step,
}
use sidp_client.Transport.Cdc.State.{Usb}
use sidp_client.Transport.Port.{Line}
use sidp_client.Transport.State.{Queue}

module _ {R E : Type 0} (usb : Usb E) (line : Line E) (cdc_port tick_rate_hz : ℕ)
    (elsewhere : Queue R E → Queue R E) (laws : SendLaws usb cdc_port elsewhere) where
  module _ (began timeout_ms : ℕ) (short : timeout_ms ≤ 5000) where
    abbrev pub Sending : ℕ → Queue R E → Type 0
    Sending = IsSending usb line cdc_port tick_rate_hz elsewhere laws began timeout_ms short

    abbrev pub until : Deadline
    until = deadline usb line cdc_port tick_rate_hz elsewhere laws began timeout_ms short

    abbrev flush : Queue R E → EspErr × Queue R E
    flush = flush_cdc_once usb line cdc_port tick_rate_hz elsewhere until

    abbrev pub drained : ℕ → Queue R E → Option (Bool × Queue R E)
    drained fuel = drain_tx usb line cdc_port tick_rate_hz elsewhere fuel until

    abbrev pub took : Queue R E → List ℕ
    took q = laws.taken q.env

    abbrev pub at : Queue R E → ℕ
    at q = usb.get_time q.env

    not_finished_goes :
        (err : EspErr) → is_not_finished err ≡ true → (is_ok err || is_not_finished err) ≡ true
    not_finished_goes err h = ground arith

    pub drain_tx-ends :
        (fuel : ℕ) (q : Queue R E)
        → Sending fuel q
        → (res : Bool × Queue R E) × (drained fuel q ≡ some res) × (took res.1 ≡ took q)
    unfolding drain_tx drain_round
    drain_tx-ends zero q s = absurd (omega (arith, s.enough))
    drain_tx-ends (suc fuel) q s = by_result (drain_tx-ends fuel) (is_not_finished (flush q).0) refl
      where
        cases :
            (took (flush q).1 ≡ took q)
            × ((is_ok (flush q).0 || is_not_finished (flush q).0) ≡ true
                → GoesOn usb line cdc_port tick_rate_hz elsewhere laws began timeout_ms short q
                    (flush q).1)
        cases = flush_cases usb line cdc_port tick_rate_hz elsewhere laws began timeout_ms short q

        by_result :
            ((t : Queue R E)
              → Sending fuel t
              → (res : Bool × Queue R E) × (drained fuel t ≡ some res) × (took res.1 ≡ took t))
            → (again : Bool) → is_not_finished (flush q).0 ≡ again
            → (res : Bool × Queue R E) × (drain_round usb line cdc_port tick_rate_hz elsewhere again
                  (drained fuel)
                  (flush q).0
                  (flush q).1
                ≡ some res)
              × (took res.1 ≡ took q)
        by_result next false h = ((is_ok (flush q).0, (flush q).1), refl, cases.0)
        by_result next true h =
            let on = cases.1 (not_finished_goes (flush q).0 h) in
            let left =
              flush_time_left usb line cdc_port tick_rate_hz elsewhere laws began timeout_ms short q
                h in
            let before =
              remaining_lem usb line cdc_port tick_rate_hz elsewhere laws began timeout_ms short
                (flush q).1 (omega (arith, on.after, s.begun)) (omega (arith, on.soon, s.on_time))
                left in
            let (res, e, kept) = next (flush q).1 (record {
              begun = omega (arith, on.after, s.begun);
              on_time = omega (arith, before);
              enough = omega (arith, on.after, s.enough, before);
            }) in
            (res, e, kept ∙ on.same)

    -- The bytes were all queued if the loop says so, and there is time for the rest.
    pub record GoodSend (bytes : List ℕ) (fuel : ℕ) (q : Queue R E) (res : Bool × Queue R E)
        : Type 0 where
      pub all : res.0 ≡ true → took res.1 ≡ took q ++ bytes
      pub going : res.0 ≡ true → Sending fuel res.1

    abbrev pub looped : ℕ → List ℕ → Queue R E → Option (Bool × Queue R E)
    looped fuel bytes = send_loop usb line cdc_port tick_rate_hz elsewhere fuel until bytes

    gives_up_left :
        (q : Queue R E)
        → gives_up usb line cdc_port tick_rate_hz elsewhere until q ≡ false
        → (remaining_timeout usb until q.env == 0) ≡ false
    unfolding gives_up
    gives_up_left q h = ground (arith, h)

    -- A loop that ends with a good result.
    abbrev Ends : ℕ → List ℕ → Queue R E → Option (Bool × Queue R E) → Type 0
    Ends fuel bytes q result =
        (res : Bool × Queue R E) × (result ≡ some res) × GoodSend bytes fuel q res

    failed : (fuel : ℕ) (bytes : List ℕ) (q t : Queue R E) → GoodSend bytes fuel q (false, t)
    failed fuel bytes q t = record { all = λ h. absurd (cc); going = λ h. absurd (cc) }

    later : (fuel : ℕ) (q : Queue R E) → Sending fuel q → Sending (suc fuel) q
    later fuel q s = record {
      begun = s.begun;
      on_time = s.on_time;
      enough = omega (arith, s.enough);
    }

    round-Ends :
        (fuel : ℕ) (bytes : List ℕ) (q : Queue R E)
        → Sending (suc fuel) q
        → (go : Queue R E → Option (Bool × Queue R E))
        → (at q < limit usb line cdc_port tick_rate_hz elsewhere laws began timeout_ms short
            → Ends (suc fuel) bytes q (go q))
        → (up : Bool) → gives_up usb line cdc_port tick_rate_hz elsewhere until q ≡ up
        → Ends (suc fuel) bytes q (go_or_fail (not up) go q)
    unfolding go_or_fail
    round-Ends fuel bytes q s go then_ends true h = ((false, q), refl, failed (suc fuel) bytes q q)
    round-Ends fuel bytes q s go then_ends false h = then_ends (
        remaining_lem usb line cdc_port tick_rate_hz elsewhere laws began timeout_ms short q s.begun
          (omega (arith, s.on_time)) (gives_up_left q h))

    queued-Ends :
        (fuel : ℕ) (bytes : List ℕ) (q : Queue R E)
        → Sending (suc fuel) q
        → at q < limit usb line cdc_port tick_rate_hz elsewhere laws began timeout_ms short
        → ((some_bytes : List ℕ) (t : Queue R E)
            → Sending fuel t
            → Ends fuel some_bytes t (looped fuel some_bytes t))
        → Ends (suc fuel) bytes q (
            send_next usb line cdc_port tick_rate_hz elsewhere
              ((queue_bytes usb line cdc_port tick_rate_hz elsewhere bytes q).0 == 0)
              until
              (looped fuel
                (drop (queue_bytes usb line cdc_port tick_rate_hz elsewhere bytes q).0 bytes))
              (looped fuel bytes)
              (queue_bytes usb line cdc_port tick_rate_hz elsewhere bytes q).1)
    unfolding send_next go_or_fail
    queued-Ends fuel bytes q s before next = by_none (n == 0) refl
      where
        n : ℕ
        n = (queue_bytes usb line cdc_port tick_rate_hz elsewhere bytes q).0

        t : Queue R E
        t = (queue_bytes usb line cdc_port tick_rate_hz elsewhere bytes q).1

        step : (at q < at t) × (at t ≤ at q + 2 * laws.pause) × (took t ≡ took q ++ take n bytes)
        step = queue_step usb line cdc_port tick_rate_hz elsewhere laws bytes q

        cases :
            (took (flush t).1 ≡ took t)
            × ((is_ok (flush t).0 || is_not_finished (flush t).0) ≡ true
                → GoesOn usb line cdc_port tick_rate_hz elsewhere laws began timeout_ms short t
                    (flush t).1)
        cases = flush_cases usb line cdc_port tick_rate_hz elsewhere laws began timeout_ms short t

        flush_more :
            (go : Bool)
            → (is_ok (flush t).0 || is_not_finished (flush t).0) ≡ go
            → n ≡ 0
            → Ends (suc fuel) bytes q (go_or_fail go (looped fuel bytes) (flush t).1)
        flush_more false h z = ((false, (flush t).1), refl, failed (suc fuel) bytes q (flush t).1)
        flush_more true h z =
            let on = cases.1 h in
            let (res, e, good) = next bytes (flush t).1 (record {
              begun = omega (arith, s.begun, on.after, step.0);
              on_time = omega (arith, before, on.soon, step.1);
              enough = omega (arith, before, on.after, step.0, s.enough);
            }) in
            (
              res,
              e,
              record {
                all = λ k.
                    good.all k
                    ∙ ap (λ (l : List ℕ). l ++ bytes)
                        (on.same
                          ∙ step.2
                          ∙ ap (λ (m : ℕ). took q ++ take m bytes) z
                          ∙ append-nil (took q));
                going = λ k. later fuel res.1 (good.going k);
              },
            )

        by_none :
            (nothing : Bool)
            → (n == 0) ≡ nothing
            → Ends (suc fuel) bytes q (
                send_next usb line cdc_port tick_rate_hz elsewhere nothing until
                  (looped fuel (drop n bytes))
                  (looped fuel bytes)
                  t)
        by_none true h =
            flush_more (is_ok (flush t).0 || is_not_finished (flush t).0) refl (ground (arith, h))
        by_none false h =
            let (res, e, good) = next (drop n bytes) t (record {
              begun = omega (arith, s.begun, step.0);
              on_time = omega (arith, before, step.1);
              enough = omega (arith, before, step.0, s.enough);
            }) in
            (
              res,
              e,
              record {
                all = λ k.
                    good.all k
                    ∙ ap (λ (l : List ℕ). l ++ drop n bytes) step.2
                    ∙ append_assoc (took q) (take n bytes) (drop n bytes)
                    ∙ ap (λ (l : List ℕ). took q ++ l) (take-drop n bytes);
                going = λ k. later fuel res.1 (good.going k);
              },
            )

    pub send_loop-ends :
        (fuel : ℕ) (bytes : List ℕ) (q : Queue R E)
        → Sending fuel q
        → (res : Bool × Queue R E) × (looped fuel bytes q ≡ some res) × GoodSend bytes fuel q res
    unfolding send_loop go_or_fail send_next
    send_loop-ends zero bytes q s = absurd (omega (arith, s.enough))
    send_loop-ends (suc fuel) [] q s =
        ((true, q), refl, record { all = λ h. sym (append-nil (took q)); going = λ h. s })
    send_loop-ends (suc fuel) (byte ∷ rest) q s =
        round-Ends fuel (byte ∷ rest) q s
          (λ r.
            send_next usb line cdc_port tick_rate_hz elsewhere
              ((queue_bytes usb line cdc_port tick_rate_hz elsewhere (byte ∷ rest) q).0 == 0) until
              (looped fuel (
                drop (queue_bytes usb line cdc_port tick_rate_hz elsewhere (byte ∷ rest) q).0
                  (byte ∷ rest)))
              (looped fuel (byte ∷ rest))
              (queue_bytes usb line cdc_port tick_rate_hz elsewhere (byte ∷ rest) q).1)
          (λ before. queued-Ends fuel (byte ∷ rest) q s before (send_loop-ends fuel))
          (gives_up usb line cdc_port tick_rate_hz elsewhere until q) refl
