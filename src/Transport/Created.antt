-- ===== src/Transport/Created.antt =====
-- The packet queues that `create_queues` makes.
use sidp_client.Backend.{EspErr}
use sidp_client.Base.{ℕ, ◌≡◌, refl, Bool, true, false, not, Option, none, some, [], if◌then◌else◌}
use sidp_client.Transport.Invariant.{IsCounted}
use sidp_client.Transport.Port.{RingLaws, Port}
use sidp_client.Transport.Rings.{held}
use sidp_client.Transport.Setup.{
  destroy_queues, create_rings, make_mutex, make_rings, lacks_ring, create_queues,
}
use sidp_client.Transport.Sizes
use sidp_client.Transport.State.{new_queue, Queue}

module _ {R E : Type 0} (port : Port R E) (laws : RingLaws port) where
  held-create_ring : (size : ℕ) (e : E) → held port laws (port.create_ring size e).0 ≡ []
  unfolding held
  held-create_ring size e = by_ring (port.create_ring size e).0 refl
    where
      by_ring : (o : Option R) → (port.create_ring size e).0 ≡ o → held port laws o ≡ []
      by_ring none h = refl
      by_ring (some r) h = laws.items_new size e r h

  -- What `create_queues` leaves when it succeeds.
  pub record IsFresh (q : Queue R E) : Type 0 where
    pub counted : IsCounted port laws q none none
    pub is_dead : q.dead ≡ true
    pub no_packets : held port laws q.ring_buffer ≡ []
    pub no_frames : held port laws q.tx_ring ≡ []
    pub no_logs : held port laws q.log_ring ≡ []

  create_rings-IsFresh :
      (q : Queue R E)
      → q.tx_pending ≡ 0
      → q.rx_borrowed ≡ 0
      → q.tx_busy ≡ false
      → q.dead ≡ true
      → (create_rings port q).0 ≡ EspErr.esp_ok
      → IsFresh (create_rings port q).1
  unfolding create_rings make_rings
  create_rings-IsFresh q p r b d made = by_test (lacks_ring (make_rings port q)) refl made
    where
      made_of : Bool → EspErr × Queue R E
      made_of lacks =
          let t = make_rings port q in
          if lacks then (EspErr.no_mem, destroy_queues port t) else (EspErr.esp_ok, t)

      by_test :
          (lacks : Bool)
          → lacks_ring (make_rings port q) ≡ lacks
          → (made_of lacks).0 ≡ EspErr.esp_ok
          → IsFresh (made_of lacks).1
      by_test true e h = absurd (cc)
      by_test false e h = record {
        counted = record {
          has_rings = e;
          pending =
              rw (held-create_ring Sizes.queue_size _, held-create_ring Sizes.log_queue_size _) p;
          borrowed = r;
          busy = b;
          open_link = λ live. absurd (cc);
          open_serial = λ live. absurd (cc);
        };
        is_dead = d;
        no_packets = held-create_ring Sizes.queue_size _;
        no_frames = held-create_ring Sizes.queue_size _;
        no_logs = held-create_ring Sizes.log_queue_size _;
      }

  pub create_queues-IsFresh :
      (e : E)
      → (create_queues port (new_queue e)).0 ≡ EspErr.esp_ok
      → IsFresh (create_queues port (new_queue e)).1
  unfolding create_queues make_mutex
  create_queues-IsFresh e made = by_test (not t.has_mutex) made
    where
      t : Queue R E
      t = make_mutex port (new_queue e)

      made_of : Bool → EspErr × Queue R E
      made_of lacks = if lacks then (EspErr.no_mem, t) else create_rings port t

      by_test : (lacks : Bool) → (made_of lacks).0 ≡ EspErr.esp_ok → IsFresh (made_of lacks).1
      by_test true h = absurd (cc)
      by_test false h = create_rings-IsFresh t refl refl refl refl h
