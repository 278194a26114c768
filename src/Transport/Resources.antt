-- ===== src/Transport/Resources.antt =====
-- What `create_queues` takes and `destroy_queues` gives back.
-- What is allocated in the world, by its count.
use sidp_client.Base.{if◌then◌else◌}
use sidp_client.Base.{ℕ, ◌+◌, ◌-◌, ◌≡◌, refl, Bool, true, false, Option, none, some, arith}
use sidp_client.Transport.Port.{Port}
use sidp_client.Transport.Queue.{is_missing}
use sidp_client.Transport.Setup.{destroy_queues, delete_rings, delete_handle}
use sidp_client.Transport.State.{Queue}

pub record HeapLaws {R E : Type 0} (port : Port R E) : Type 0 where
  pub live : E → ℕ
  pub live_ring :
      (n : ℕ) (e : E)
      → is_missing (port.create_ring n e).0 ≡ false
      → live (port.create_ring n e).1 ≡ live e + 1
  pub live_no_ring :
      (n : ℕ) (e : E)
      → is_missing (port.create_ring n e).0 ≡ true
      → live (port.create_ring n e).1 ≡ live e
  pub live_delete_ring : (r : R) (e : E) → live (port.delete_ring r e) ≡ live e - 1
  pub live_mutex :
      (e : E) → (port.create_mutex e).0 ≡ true → live (port.create_mutex e).1 ≡ live e + 1
  pub live_no_mutex :
      (e : E) → (port.create_mutex e).0 ≡ false → live (port.create_mutex e).1 ≡ live e
  pub live_delete_mutex : (e : E) → live (port.delete_mutex e) ≡ live e - 1
  pub live_no_task : (e : E) → (port.create_task e).0 ≡ false → live (port.create_task e).1 ≡ live e

abbrev pub handle_count : {R : Type 0} → Option R → ℕ
handle_count none = 0
handle_count (some r) = 1

abbrev pub one_for : Bool → ℕ
one_for true = 1
one_for false = 0

pub present_one : {R : Type 0} → (o : Option R) → is_missing o ≡ false → handle_count o ≡ 1
present_one none h = absurd (cc)
present_one (some r) h = refl

abbrev pub queue_count : {R E : Type 0} → Queue R E → ℕ
queue_count q =
    handle_count q.ring_buffer
    + handle_count q.tx_ring
    + handle_count q.log_ring
    + one_for q.has_mutex

module _ {R E : Type 0} (port : Port R E) (laws : HeapLaws port) where
  -- No handle is there, and so much is allocated.
  pub record IsClean (n : ℕ) (q : Queue R E) : Type 0 where
    pub no_packets : q.ring_buffer ≡ none
    pub no_frames : q.tx_ring ≡ none
    pub no_logs : q.log_ring ≡ none
    pub no_mutex : q.has_mutex ≡ false
    pub no_task : q.has_tx_task ≡ false
    pub live_same : laws.live q.env ≡ n

  pub live-delete_handle :
      (o : Option R) (e : E) → laws.live (delete_handle port o e) ≡ laws.live e - handle_count o
  unfolding delete_handle
  live-delete_handle none e = omega arith
  live-delete_handle (some r) e = laws.live_delete_ring r e

  pub destroy_queues-IsClean :
      (q : Queue R E)
      → q.has_tx_task ≡ false
      → IsClean (laws.live q.env - queue_count q) (destroy_queues port q)
  unfolding destroy_queues delete_rings
  destroy_queues-IsClean q no_task = record {
    no_packets = refl;
    no_frames = refl;
    no_logs = refl;
    no_mutex = refl;
    no_task = no_task;
    live_same = by_mutex q.has_mutex;
  }
    where
      a : E
      a = delete_handle port q.ring_buffer q.env

      b : E
      b = delete_handle port q.tx_ring a

      by_mutex :
          (m : Bool)
          → laws.live (
              if m
              then port.delete_mutex (delete_handle port q.log_ring b)
              else delete_handle port q.log_ring b)
            ≡ laws.live q.env
              - (handle_count q.ring_buffer
                  + handle_count q.tx_ring
                  + handle_count q.log_ring
                  + one_for m)
      by_mutex true = omega (
        arith,
        laws.live_delete_mutex (delete_handle port q.log_ring b),
        live-delete_handle q.ring_buffer q.env,
        live-delete_handle q.tx_ring a,
        live-delete_handle q.log_ring b,
      )
      by_mutex false = omega (
        arith,
        live-delete_handle q.ring_buffer q.env,
        live-delete_handle q.tx_ring a,
        live-delete_handle q.log_ring b,
      )
