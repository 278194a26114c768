-- ===== src/Transport/Ticks.antt =====
-- What `timeout_to_ticks` promises.
use sidp_client.Base.{◌==◌}
use sidp_client.Base.{leb}
use sidp_client.Base.{if◌then◌else◌}
use native.Mathlib.Nat.{mul-le-mul}
-- Ticks that last at least as long as the timeout, and less than a tick longer, or the longest finite
-- wait.
use sidp_client.Base.{
  ℕ, ◌+◌, ◌-◌, ◌*◌, ◌/◌, ◌^◌, ◌≤◌, ◌<◌, ◌≡◌, refl, ◌⊎◌, inl, inr, Bool, true, false, arith, u64,
}
use sidp_client.Transport.Sizes
use sidp_client.Transport.Wait.{timeout_to_ticks}

abbrev pub IsLongEnough : ℕ → ℕ → ℕ → Type 0
IsLongEnough tick_rate_hz timeout_ms ticks =
    (ticks ≡ Sizes.port_max_delay - 1)
    ⊎ ((timeout_ms * tick_rate_hz ≤ ticks * 1000)
        × (ticks * 1000 < timeout_ms * tick_rate_hz + 1000))

product_small : (a b : ℕ) → a < 2 ^ 32 → b < 2 ^ 32 → a * b + 999 < 2 ^ 64
product_small a b h k =
    let p : a * b ≤ 0xffff_ffff * 0xffff_ffff =
      mul-le-mul {n₂ = 0xffff_ffff} {m₂ = 0xffff_ffff} (omega arith) (omega arith) in
    omega (arith, p)

ticks_of :
    (product ticks : ℕ)
    → product + 999 < 2 ^ 64
    → ticks ≡ u64 (product + 999) / 1000
    → (product ≤ ticks * 1000) × (ticks * 1000 < product + 1000)
ticks_of product ticks h e = (omega arith, omega arith)

-- A finite timeout becomes a finite number of ticks, never the endless `portMAX_DELAY`, although the
-- product of two 32-bit numbers is large; and the ticks last at least as long as the timeout and less
-- than a tick longer, or are the longest finite wait.
pub timeout_to_ticks_bounds :
    (tick_rate_hz timeout_ms : ℕ)
    → tick_rate_hz < 2 ^ 32
    → timeout_ms < Sizes.wait_forever
    → (timeout_to_ticks tick_rate_hz timeout_ms < Sizes.port_max_delay)
      × IsLongEnough tick_rate_hz timeout_ms (timeout_to_ticks tick_rate_hz timeout_ms)
unfolding timeout_to_ticks
timeout_to_ticks_bounds tick_rate_hz timeout_ms rate finite =
    by_tests (timeout_ms == Sizes.wait_forever) (ground arith) (leb Sizes.port_max_delay ticks) refl
  where
    ticks : ℕ
    ticks = u64 (timeout_ms * tick_rate_hz + 999) / 1000

    small : timeout_ms * tick_rate_hz + 999 < 2 ^ 64
    small = product_small timeout_ms tick_rate_hz (omega arith) rate

    chosen : Bool → Bool → ℕ
    chosen forever large =
        if forever
        then Sizes.port_max_delay
        else (if large then Sizes.port_max_delay - 1 else ticks)

    by_tests :
        (forever : Bool)
        → forever ≡ false
        → (large : Bool) → leb Sizes.port_max_delay ticks ≡ large
        → (chosen forever large < Sizes.port_max_delay)
          × IsLongEnough tick_rate_hz timeout_ms (chosen forever large)
    by_tests true e large h = absurd (cc)
    by_tests false e true h = (omega arith, inl refl)
    by_tests false e false h =
        (ground arith, inr (ticks_of (timeout_ms * tick_rate_hz) ticks small refl))
