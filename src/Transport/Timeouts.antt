-- ===== src/Transport/Timeouts.antt =====
-- The waiting loops end: `flush_write` and `start_read` with a finite timeout.
-- FreeRTOS counts ticks in 32 bits; a delay of some ticks takes that many or a little more, whatever
-- the other tasks do to the queues meanwhile.
use sidp_client.Base.{◌==◌}
use sidp_client.Backend.{EspErr}
use sidp_client.Base.{
  ℕ, zero, suc, ◌+◌, ◌-◌, ◌^◌, ◌≤◌, ◌<◌, ◌≡◌, refl, ◌∙◌, Bool, true, false, Option, none, some,
  List, arith, u32,
}
use sidp_client.Transport.Port.{Port, Line}
use sidp_client.Transport.Sizes
use sidp_client.Transport.State.{Queue}
use sidp_client.Transport.Wait.{
  wait_round, flush_write, start_read, flush_loop, Clock, flush_now, is_over, read_now, slice_ticks,
  ticks_since, read_wait, timeout_to_ticks, with_queue,
}

pub record ClockLaws {R E : Type 0} (clock : Clock R E) : Type 0 where
  pub time : E → ℕ
  pub late : ℕ
  pub counts : (e : E) → clock.tick_count e ≡ u32 (time e)
  pub delays : (n : ℕ) (q : Queue R E) → time q.env + n ≤ time (clock.task_delay n q).env
  pub delays_little :
      (n : ℕ) (q : Queue R E) → time (clock.task_delay n q).env ≤ time q.env + n + late
  pub rate_some : 0 < clock.tick_rate_hz
  pub rate_small : clock.tick_rate_hz < 2 ^ 32

ticks_since_lem :
    (start now : ℕ)
    → start ≤ now
    → now - start < 2 ^ 32
    → ticks_since (u32 now) (u32 start) ≡ now - start
ticks_since_lem start now h k = omega arith

module _ {R E : Type 0} (clock : Clock R E) (laws : ClockLaws clock) where
  slice_some : 0 < timeout_to_ticks clock.tick_rate_hz Sizes.poll_ms
  unfolding timeout_to_ticks
  slice_some = let a = laws.rate_some in let b = laws.rate_small in ground (arith, a, b)

  slice_ticks_bounds :
      (timeout_ms limit elapsed : ℕ)
      → (timeout_ms == Sizes.wait_forever) ≡ false
      → elapsed < limit
      → (0 < slice_ticks clock timeout_ms limit elapsed)
        × (slice_ticks clock timeout_ms limit elapsed ≤ limit - elapsed)
  unfolding slice_ticks
  slice_ticks_bounds timeout_ms limit elapsed finite before =
      (ground (arith, slice_some), ground (arith, slice_some))

  -- The ticks since the start of a wait that began at `began`, without wrap-around.
  abbrev pub waited : ℕ → Queue R E → ℕ
  waited began q = laws.time q.env - began

  elapsed_lem :
      (began : ℕ) (q : Queue R E)
      → began ≤ laws.time q.env
      → waited began q < 2 ^ 32
      → ticks_since (clock.tick_count q.env) (u32 began) ≡ waited began q
  elapsed_lem began q h k = rw (laws.counts q.env) (ticks_since_lem began (laws.time q.env) h k)

  module _ (began limit timeout_ms : ℕ) (finite : (timeout_ms == Sizes.wait_forever) ≡ false)
      (fits : limit + laws.late < 2 ^ 32) where
    -- Where a wait can stand at the start of a round.
    pub record IsWaiting (fuel : ℕ) (q : Queue R E) : Type 0 where
      pub begun : began ≤ laws.time q.env
      pub on_time : waited began q ≤ limit + laws.late
      pub enough : limit - waited began q < fuel

    abbrev delayed : Queue R E → Queue R E
    delayed q = clock.task_delay (slice_ticks clock timeout_ms limit (waited began q)) q

    IsWaiting-delayed :
        (fuel : ℕ) (q : Queue R E)
        → IsWaiting (suc fuel) q
        → waited began q < limit
        → IsWaiting fuel (delayed q)
    IsWaiting-delayed fuel q w before =
        let n : ℕ = slice_ticks clock timeout_ms limit (waited began q) in
        let (some_ticks, few) =
          slice_ticks_bounds timeout_ms limit (waited began q) finite before in
        let later = laws.delays n q in
        let little = laws.delays_little n q in
        record {
          begun = omega (arith, w.begun);
          on_time = omega (arith, w.begun);
          enough = omega (arith, w.begun, w.enough);
        }

    -- Any loop whose rounds are those of `wait_round` ends.
    pub wait_ends :
        {A : Type 0} (loop : ℕ → Queue R E → Option A) (result : Queue R E → Option A)
        (timed_out : Queue R E → A)
        → ((fuel : ℕ) (q : Queue R E)
            → waited began q < 2 ^ 32
            → began ≤ laws.time q.env
            → loop (suc fuel) q
              ≡ wait_round
                  (is_over timeout_ms limit (waited began q))
                  (result q)
                  (timed_out q)
                  (loop fuel)
                  (delayed q))
        → (fuel : ℕ) (q : Queue R E) → IsWaiting fuel q
        → (a : A) × (loop fuel q ≡ some a)
    unfolding wait_round is_over
    wait_ends {A} loop result timed_out step zero q w = absurd (omega (arith, w.enough))
    wait_ends {A} loop result timed_out step (suc fuel) q w =
        let over = is_over timeout_ms limit (waited began q) in
        let (a, e) = by_result (wait_ends loop result timed_out step fuel) over (result q) refl in
        (a, step fuel q (omega (arith, w.on_time)) w.begun ∙ e)
      where
        before : is_over timeout_ms limit (waited began q) ≡ false → waited began q < limit
        before h = ground (arith, h)

        by_result :
            ((t : Queue R E) → IsWaiting fuel t → (a : A) × (loop fuel t ≡ some a))
            → (over : Bool) (r : Option A) → is_over timeout_ms limit (waited began q) ≡ over
            → (a : A) × (wait_round over r (timed_out q) (loop fuel) (delayed q) ≡ some a)
        by_result next over (some a) h = (a, refl)
        by_result next true none h = (timed_out q, refl)
        by_result next false none h = next (delayed q) (IsWaiting-delayed fuel q w (before h))

module _ {R E : Type 0} (clock : Clock R E) (laws : ClockLaws clock) where
  starts-IsWaiting :
      (limit timeout_ms : ℕ) (finite : (timeout_ms == Sizes.wait_forever) ≡ false)
      (fits : limit + laws.late < 2 ^ 32) (q : Queue R E)
      → IsWaiting clock laws (laws.time q.env) limit timeout_ms finite fits (suc limit) q
  starts-IsWaiting limit timeout_ms finite fits q = record {
    begun = omega arith;
    on_time = omega arith;
    enough = omega arith;
  }

module _ {R E : Type 0} (line : Line E) (clock : Clock R E) (laws : ClockLaws clock) where
  flush_step :
      (timeout_ms limit began fuel : ℕ) (r : Queue R E)
      → waited clock laws began r < 2 ^ 32
      → began ≤ laws.time r.env
      → flush_loop line clock (suc fuel) (u32 began) limit timeout_ms r
        ≡ wait_round
            (is_over timeout_ms limit (waited clock laws began r))
            (with_queue (flush_now line r) r)
            (EspErr.timeout, r)
            (flush_loop line clock fuel (u32 began) limit timeout_ms)
            (clock.task_delay (slice_ticks clock timeout_ms limit (waited clock laws began r)) r)
  unfolding flush_loop
  flush_step timeout_ms limit began fuel r small begun =
      rw (elapsed_lem clock laws began r begun small) refl

  -- `flush_write` with a finite timeout returns, in at most one round for each tick of the timeout and
  -- one more, whatever the other tasks do to the queues while it waits; provided that a delay is
  -- never so late that the 32-bit tick counter wraps around past the timeout.
  pub flush_write-terminates :
      (timeout_ms : ℕ) (q : Queue R E)
      → (timeout_ms == Sizes.wait_forever) ≡ false
      → timeout_to_ticks clock.tick_rate_hz timeout_ms + laws.late < 2 ^ 32
      → (result : EspErr × Queue R E) × (flush_write line clock
            (suc (timeout_to_ticks clock.tick_rate_hz timeout_ms))
            timeout_ms
            q
          ≡ some result)
  unfolding flush_write
  flush_write-terminates timeout_ms q finite fits =
      let limit : ℕ = timeout_to_ticks clock.tick_rate_hz timeout_ms in
      let began : ℕ = laws.time q.env in
      rw (laws.counts q.env) (
        wait_ends clock laws began limit timeout_ms finite fits
          (λ fuel. flush_loop line clock fuel (u32 began) limit timeout_ms)
          (λ r. with_queue (flush_now line r) r) (λ r. (EspErr.timeout, r))
          (flush_step timeout_ms limit began) (suc limit) q
          (starts-IsWaiting clock laws limit timeout_ms finite fits q))

module _ {R E : Type 0} (port : Port R E) (line : Line E) (clock : Clock R E)
    (laws : ClockLaws clock) where
  read_step :
      (timeout_ms limit began fuel : ℕ) (r : Queue R E)
      → waited clock laws began r < 2 ^ 32
      → began ≤ laws.time r.env
      → read_wait port line clock (suc fuel) (u32 began) limit timeout_ms r
        ≡ wait_round
            (is_over timeout_ms limit (waited clock laws began r))
            (read_now port line r)
            (EspErr.timeout, none, r)
            (read_wait port line clock fuel (u32 began) limit timeout_ms)
            (clock.task_delay (slice_ticks clock timeout_ms limit (waited clock laws began r)) r)
  unfolding read_wait
  read_step timeout_ms limit began fuel r small begun =
      rw (elapsed_lem clock laws began r begun small) refl

  -- `start_read` with a finite timeout returns likewise.
  pub start_read-terminates :
      (timeout_ms : ℕ) (q : Queue R E)
      → (timeout_ms == Sizes.wait_forever) ≡ false
      → timeout_to_ticks clock.tick_rate_hz timeout_ms + laws.late < 2 ^ 32
      → (result : EspErr × Option (List ℕ) × Queue R E) × (start_read port line clock
            (suc (timeout_to_ticks clock.tick_rate_hz timeout_ms))
            timeout_ms
            q
          ≡ some result)
  unfolding start_read
  start_read-terminates timeout_ms q finite fits =
      let limit : ℕ = timeout_to_ticks clock.tick_rate_hz timeout_ms in
      let began : ℕ = laws.time q.env in
      rw (laws.counts q.env) (
        wait_ends clock laws began limit timeout_ms finite fits
          (λ fuel. read_wait port line clock fuel (u32 began) limit timeout_ms) (read_now port line)
          (λ r. (EspErr.timeout, none, r)) (read_step timeout_ms limit began) (suc limit) q
          (starts-IsWaiting clock laws limit timeout_ms finite fits q))
