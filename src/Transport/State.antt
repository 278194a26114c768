-- ===== src/Transport/State.antt =====
-- The members of `packet_queue_transport` of include/sidp_transport_queue.hpp. `env` is the state of
-- the world outside. A null handle is `none`, or a flag. Every operation but the TX of a frame and
-- the waiting runs under `queue_mutex`, so that operations are atomic steps.
use sidp_client.Base.{ℕ, ◌+◌, ◌-◌, ◌^◌, Bool, true, false, Option, none, u32}

pub record Queue (R E : Type 0) : Type 0 where
  pub env : E
  pub has_mutex : Bool
  pub ring_buffer : Option R
  pub tx_ring : Option R
  pub log_ring : Option R
  pub has_tx_task : Bool
  pub link_serial : ℕ
  pub accepted_link_serial : ℕ
  pub rx_borrowed : ℕ
  pub tx_pending : ℕ
  pub tx_busy : Bool
  pub dead : Bool
  pub connected : Bool
  pub epoch : ℕ
  pub tx_dropped : ℕ

-- The members before `create_queues`.
abbrev pub new_queue : {R E : Type 0} → E → Queue R E
new_queue env = record {
  env = env;
  has_mutex = false;
  ring_buffer = none;
  tx_ring = none;
  log_ring = none;
  has_tx_task = false;
  link_serial = 0;
  accepted_link_serial = 0;
  rx_borrowed = 0;
  tx_pending = 0;
  tx_busy = false;
  dead = true;
  connected = false;
  epoch = 0;
  tx_dropped = 0;
}

-- `--` on a `std::size_t` of 32 bits.
abbrev pub decrement : ℕ → ℕ
decrement n = u32 (n + (2 ^ 32 - 1))
