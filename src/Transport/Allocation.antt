-- ===== src/Transport/Allocation.antt =====
-- `create_queues` and `spawn_tx_task` by what they allocate.
use sidp_client.Base.{if◌then◌else◌}
use sidp_client.Backend.{EspErr, is_ok}
use sidp_client.Base.{
  ℕ, ◌+◌, ◌≡◌, refl, sym, ap, subst, ◌∙◌, Bool, true, false, not, Option, none, some, arith,
}
use sidp_client.Transport.Port.{Port}
use sidp_client.Transport.Queue.{is_missing}
use sidp_client.Transport.Resources.{
  HeapLaws, handle_count, IsClean, destroy_queues-IsClean, queue_count, present_one, one_for,
}
use sidp_client.Transport.Setup.{
  make_mutex, destroy_queues, lacks_ring, create_queues, spawn_tx_task, make_rings, create_rings,
}
use sidp_client.Transport.Sizes
use sidp_client.Transport.State.{Queue}

module _ {R E : Type 0} (port : Port R E) (laws : HeapLaws port) where
  -- All handles are there but the task, and so much was allocated before them.
  pub record IsHeld (n : ℕ) (q : Queue R E) : Type 0 where
    pub four : queue_count q ≡ 4
    pub has_frames : is_missing q.tx_ring ≡ false
    pub no_task : q.has_tx_task ≡ false
    pub live_more : laws.live q.env ≡ n + 4

  pub IsHeld-IsClean :
      (n : ℕ) (q : Queue R E) → IsHeld n q → IsClean port laws n (destroy_queues port q)
  IsHeld-IsClean n q h =
      subst (λ m. IsClean port laws m (destroy_queues port q)) (omega (arith, h.four, h.live_more))
        (destroy_queues-IsClean port laws q h.no_task)

  live-create_ring :
      (n : ℕ) (e : E)
      → laws.live (port.create_ring n e).1 ≡ laws.live e + handle_count (port.create_ring n e).0
  live-create_ring n e = by_ring (port.create_ring n e).0 refl
    where
      by_ring :
          (o : Option R)
          → (port.create_ring n e).0 ≡ o
          → laws.live (port.create_ring n e).1 ≡ laws.live e + handle_count o
      by_ring none h = laws.live_no_ring n e (ap is_missing h) ∙ omega arith
      by_ring (some r) h = laws.live_ring n e (ap is_missing h)

  abbrev pub Outcome : ℕ → Bool → Queue R E → Type 0
  Outcome n true q = IsHeld n q
  Outcome n false q = IsClean port laws n q

  create_rings-Outcome :
      (n : ℕ) (q : Queue R E)
      → q.has_mutex ≡ true
      → q.has_tx_task ≡ false
      → laws.live q.env ≡ n + 1
      → Outcome n (is_ok (create_rings port q).0) (create_rings port q).1
  unfolding create_rings make_rings lacks_ring
  create_rings-Outcome n q mutex no_task before = by_test (lacks_ring (make_rings port q)) refl
    where
      t : Queue R E
      t = make_rings port q

      made : Bool → EspErr × Queue R E
      made lacks = if lacks then (EspErr.no_mem, destroy_queues port t) else (EspErr.esp_ok, t)

      a : E
      a = (port.create_ring Sizes.queue_size q.env).1

      b : E
      b = (port.create_ring Sizes.queue_size a).1

      mutex_one : one_for t.has_mutex ≡ 1
      mutex_one = ap one_for mutex

      total : laws.live t.env ≡ n + queue_count t
      total = omega (
        arith,
        before,
        mutex_one,
        live-create_ring Sizes.queue_size q.env,
        live-create_ring Sizes.queue_size a,
        live-create_ring Sizes.log_queue_size b,
      )

      by_test :
          (lacks : Bool) → lacks_ring t ≡ lacks → Outcome n (is_ok (made lacks).0) (made lacks).1
      by_test true h =
          subst (λ m. IsClean port laws m (destroy_queues port t)) (omega (arith, total))
            (destroy_queues-IsClean port laws t no_task)
      by_test false h =
          let four : queue_count t ≡ 4 = omega (
            arith,
            mutex_one,
            present_one t.ring_buffer (ground arith),
            present_one t.tx_ring (ground arith),
            present_one t.log_ring (ground arith),
          ) in
          record {
            four = four;
            has_frames = ground arith;
            no_task = no_task;
            live_more = omega (arith, total, four);
          }

  make_mutex_new :
      (q : Queue R E)
      → q.has_mutex ≡ false
      → make_mutex port q
        ≡ record q { env = (port.create_mutex q.env).1; has_mutex = (port.create_mutex q.env).0 }
  unfolding make_mutex
  make_mutex_new q h = ground (arith, h)

  -- `create_queues` makes all the handles or none, and on failure has freed what it had allocated.
  pub create_queues-Outcome :
      (n : ℕ) (q : Queue R E)
      → IsClean port laws n q
      → Outcome n (is_ok (create_queues port q).0) (create_queues port q).1
  unfolding create_queues
  create_queues-Outcome n q clean =
      subst (λ x. Outcome n (is_ok (after x).0) (after x).1) (sym new_mutex)
        (by_mutex t.has_mutex refl)
    where
      t : Queue R E
      t = record q { env = (port.create_mutex q.env).1; has_mutex = (port.create_mutex q.env).0 }

      after : Queue R E → EspErr × Queue R E
      after x = if not x.has_mutex then (EspErr.no_mem, x) else create_rings port x

      new_mutex : make_mutex port q ≡ t
      new_mutex = make_mutex_new q clean.no_mutex

      chosen : Bool → EspErr × Queue R E
      chosen made = if not made then (EspErr.no_mem, t) else create_rings port t

      by_mutex :
          (made : Bool) → t.has_mutex ≡ made → Outcome n (is_ok (chosen made).0) (chosen made).1
      by_mutex true h =
          create_rings-Outcome n t h clean.no_task
            (laws.live_mutex q.env h ∙ omega (arith, clean.live_same))
      by_mutex false h = record {
        no_packets = clean.no_packets;
        no_frames = clean.no_frames;
        no_logs = clean.no_logs;
        no_mutex = h;
        no_task = clean.no_task;
        live_same = laws.live_no_mutex q.env h ∙ clean.live_same;
      }

  pub IsHeld-env :
      (m k : ℕ) (q : Queue R E) (e : E)
      → IsHeld m q
      → laws.live e ≡ k + 4
      → IsHeld k (record q { env = e })
  IsHeld-env m k q e h same = record {
    four = h.four;
    has_frames = h.has_frames;
    no_task = h.no_task;
    live_more = same;
  }

  pub IsClean-env :
      (m k : ℕ) (q : Queue R E) (e : E)
      → IsClean port laws m q
      → laws.live e ≡ k
      → IsClean port laws k (record q { env = e })
  IsClean-env m k q e h same = record {
    no_packets = h.no_packets;
    no_frames = h.no_frames;
    no_logs = h.no_logs;
    no_mutex = h.no_mutex;
    no_task = h.no_task;
    live_same = same;
  }

  spawn_failed :
      (q : Queue R E)
      → is_missing q.tx_ring ≡ false
      → q.has_tx_task ≡ false
      → is_ok (spawn_tx_task port q).0 ≡ false
      → (port.create_task q.env).0 ≡ false
  unfolding spawn_tx_task
  spawn_failed q there no_task failed = ground (arith, there, no_task)

  -- A task that is not created leaves everything as it was.
  pub spawn_tx_task-IsHeld :
      (n : ℕ) (q : Queue R E)
      → IsHeld n q
      → is_ok (spawn_tx_task port q).0 ≡ false
      → IsHeld n (spawn_tx_task port q).1
  unfolding spawn_tx_task
  spawn_tx_task-IsHeld n q h failed =
      rw (h.has_frames, h.no_task)
        (by_task (port.create_task q.env).0 refl (spawn_failed q h.has_frames h.no_task failed))
    where
      t : Queue R E
      t = record q { env = (port.create_task q.env).1; has_tx_task = (port.create_task q.env).0 }

      chosen : Bool → EspErr × Queue R E
      chosen made = if made then (EspErr.esp_ok, t) else (EspErr.no_mem, t)

      by_task :
          (made : Bool)
          → (port.create_task q.env).0 ≡ made
          → made ≡ false
          → IsHeld n (chosen made).1
      by_task true e k = absurd (cc)
      by_task false e k = record {
        four = h.four;
        has_frames = h.has_frames;
        no_task = e;
        live_more = laws.live_no_task q.env e ∙ h.live_more;
      }
