-- ===== src/Transport/Port.antt =====
-- What the transports call and the repository does not implement: the FreeRTOS ring buffers, mutex and
-- tasks of ESP-IDF. `R` is a ring buffer of the type NOSPLIT, and `E` the state of the world outside.
use sidp_client.Base.{ℕ, ◌≤◌, ◌≡◌, Bool, Option, none, some, List, [], ◌∷◌, ◌++◌, length}
use sidp_client.Transport.Sizes

pub record Port (R E : Type 0) : Type 0 where
  -- `xRingbufferSend` without waiting; `none` is pdFALSE.
  pub send : List ℕ → R → Option R
  -- `xRingbufferReceive` without waiting; `none` is the null pointer.
  pub receive : R → Option (List ℕ × R)
  -- `vRingbufferReturnItem`.
  pub return_item : List ℕ → R → R
  pub create_ring : ℕ → E → Option R × E
  pub delete_ring : R → E → E
  pub create_mutex : E → Bool × E
  pub delete_mutex : E → E
  pub create_task : E → Bool × E

-- What the documentation of the ring buffers promises: a ring holds the items that are not yet
-- received, first in, first out, fewer than it has bytes; a returned item was received before.
pub record RingLaws {R E : Type 0} (port : Port R E) : Type 0 where
  pub items : R → List (List ℕ)
  pub items_few : (r : R) → length (items r) ≤ Sizes.queue_size
  pub items_new : (size : ℕ) (e : E) (r : R) → (port.create_ring size e).0 ≡ some r → items r ≡ []
  pub items_send : (x : List ℕ) (r t : R) → port.send x r ≡ some t → items t ≡ items r ++ x ∷ []
  pub items_none : (r : R) → port.receive r ≡ none → items r ≡ []
  pub items_some : (x : List ℕ) (r t : R) → port.receive r ≡ some (x, t) → items r ≡ x ∷ items t
  pub items_return : (x : List ℕ) (r : R) → items (port.return_item x r) ≡ items r

-- The virtual methods of `packet_queue_transport` that its operations call under the lock.
pub record Line (E : Type 0) : Type 0 where
  pub physical_link_open : E → Bool
  pub reset_wire_buffers : E → E
