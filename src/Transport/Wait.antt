-- ===== src/Transport/Wait.antt =====
-- `timeout_to_ticks` and the waiting loops `start_read` and `flush_write` of sidp_transport_queue.cpp.
-- FreeRTOS: the tick counter, and a delay, in which other tasks run.
use sidp_client.Base.{ltb}
use sidp_client.Base.{leb}
use sidp_client.Base.{◌==◌}
use sidp_client.Base.{if◌then◌else◌}
use sidp_client.Backend.{EspErr}
use sidp_client.Base.{
  ℕ, zero, suc, ◌+◌, ◌-◌, ◌*◌, ◌/◌, ◌^◌, Bool, true, false, not, ◌&&◌, ◌||◌, Option, none, some,
  List, u32, u64,
}
use sidp_client.Transport.Port.{Port, Line}
use sidp_client.Transport.Queue.{is_open, receive_ring, read_packet, refuses_read}
use sidp_client.Transport.Sizes
use sidp_client.Transport.State.{Queue}

pub record Clock (R E : Type 0) : Type 0 where
  pub tick_rate_hz : ℕ
  pub tick_count : E → ℕ
  pub task_delay : ℕ → Queue R E → Queue R E

unfoldable pub timeout_to_ticks : ℕ → ℕ → ℕ
timeout_to_ticks tick_rate_hz timeout_ms =
    if timeout_ms == Sizes.wait_forever
    then Sizes.port_max_delay
    else let ticks = u64 (timeout_ms * tick_rate_hz + 999) / 1000 in
      if leb Sizes.port_max_delay ticks then Sizes.port_max_delay - 1 else ticks

-- `a - b` on 32-bit ticks.
abbrev pub ticks_since : ℕ → ℕ → ℕ
ticks_since now start = u32 (now + (2 ^ 32 - start))

unfoldable pub is_over : ℕ → ℕ → ℕ → Bool
is_over timeout_ms limit elapsed = not (timeout_ms == Sizes.wait_forever) && leb limit elapsed

module _ {R E : Type 0} (clock : Clock R E) where
  unfoldable pub slice_ticks : ℕ → ℕ → ℕ → ℕ
  unfolding timeout_to_ticks
  slice_ticks timeout_ms limit elapsed =
      let slice = timeout_to_ticks clock.tick_rate_hz Sizes.poll_ms in
      if timeout_ms == Sizes.wait_forever || ltb slice (limit - elapsed)
      then slice
      else limit - elapsed

-- A round of a waiting loop: a result, a timeout, or the next round after a delay. `none` is a loop
-- whose fuel is spent.
unfoldable pub wait_round : {Q A : Type 0} → Bool → Option A → A → (Q → Option A) → Q → Option A
wait_round over (some result) timed_out go q = some result
wait_round true none timed_out go q = some timed_out
wait_round false none timed_out go q = go q

abbrev pub with_queue : {Q A : Type 0} → Option A → Q → Option (A × Q)
with_queue none q = none
with_queue (some a) q = some (a, q)

module _ {R E : Type 0} (line : Line E) where
  -- The result of `flush_write` in this round, if it has one.
  unfoldable pub flush_now : Queue R E → Option EspErr
  flush_now q =
      if not (is_open line q)
      then some EspErr.invalid_state
      else if q.tx_pending == 0 && not q.tx_busy
      then some EspErr.esp_ok
      else none

module _ {R E : Type 0} (port : Port R E) (line : Line E) where
  -- The result of `start_read` in this round, if it has one.
  unfoldable pub read_now : Queue R E → Option (EspErr × Option (List ℕ) × Queue R E)
  read_now q =
      if refuses_read line q
      then some (EspErr.invalid_state, none, q)
      else let (packet, t) = read_packet port (receive_ring port q.ring_buffer) q in
        elim packet [ none ↦ none | some p ↦ some (EspErr.esp_ok, some p, t) ]

module _ {R E : Type 0} (line : Line E) (clock : Clock R E) where
  unfoldable pub flush_loop : ℕ → ℕ → ℕ → ℕ → Queue R E → Option (EspErr × Queue R E)
  unfolding is_over slice_ticks
  flush_loop zero start limit timeout_ms q = none
  flush_loop (suc fuel) start limit timeout_ms q =
      let elapsed = ticks_since (clock.tick_count q.env) start in
      wait_round (is_over timeout_ms limit elapsed) (with_queue (flush_now line q) q)
        (EspErr.timeout, q) (flush_loop fuel start limit timeout_ms)
        (clock.task_delay (slice_ticks clock timeout_ms limit elapsed) q)

  unfoldable pub flush_write : ℕ → ℕ → Queue R E → Option (EspErr × Queue R E)
  flush_write fuel timeout_ms q =
      flush_loop fuel (clock.tick_count q.env) (timeout_to_ticks clock.tick_rate_hz timeout_ms)
        timeout_ms q

module _ {R E : Type 0} (port : Port R E) (line : Line E) (clock : Clock R E) where
  unfoldable pub read_wait :
      ℕ → ℕ → ℕ → ℕ → Queue R E → Option (EspErr × Option (List ℕ) × Queue R E)
  unfolding is_over slice_ticks
  read_wait zero start limit timeout_ms q = none
  read_wait (suc fuel) start limit timeout_ms q =
      let elapsed = ticks_since (clock.tick_count q.env) start in
      wait_round (is_over timeout_ms limit elapsed) (read_now port line q) (EspErr.timeout, none, q)
        (read_wait fuel start limit timeout_ms)
        (clock.task_delay (slice_ticks clock timeout_ms limit elapsed) q)

  unfoldable pub start_read : ℕ → ℕ → Queue R E → Option (EspErr × Option (List ℕ) × Queue R E)
  start_read fuel timeout_ms q =
      read_wait fuel (clock.tick_count q.env) (timeout_to_ticks clock.tick_rate_hz timeout_ms)
        timeout_ms q
