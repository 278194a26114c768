-- ===== src/Transport/WebSocket/Start.antt =====
-- Every way out of `init` of the WebSocket transport.
use sidp_client.Base.{if◌then◌else◌}
use sidp_client.Backend.{EspErr, is_ok}
use sidp_client.Base.{ℕ, ◌+◌, ◌≡◌, refl, sym, subst, ◌∙◌, Bool, true, false, not, arith}
use sidp_client.Transport.Allocation.{
  Outcome, IsHeld-env, IsHeld, spawn_tx_task-IsHeld, create_queues-Outcome, IsClean-env,
}
use sidp_client.Transport.Port.{Port}
use sidp_client.Transport.Resources.{HeapLaws, IsClean}
use sidp_client.Transport.Setup.{create_queues, spawn_tx_task}
use sidp_client.Transport.State.{Queue}
use sidp_client.Transport.WebSocket.Client.{
  start_client, ClientConfig, prepare_config, register_handler, spawn_task, abandon, make_client,
  init_websocket, in_world_of, release, Client,
}
use sidp_client.Transport.WebSocket.Release.{
  ClientHeap, Ends, abandon-IsReleased, IsReleased, release-IsReleased,
}
use sidp_client.Transport.WebSocket.State.{Websocket}

module _ {C R E : Type 0} (port : Port R E) (client : Client C E) (laws : HeapLaws port)
    (heap : ClientHeap laws client) where
  spawn_task-Ends :
      (n : ℕ) (w : Websocket R E)
      → IsHeld port laws (n + 2) w.queue
      → Ends port client laws heap n true w
      → Ends port client laws heap n
          (is_ok (spawn_task port client w).0)
          (spawn_task port client w).1
  unfolding spawn_task
  spawn_task-Ends n w h ready = by_err (is_ok err) refl
    where
      err : EspErr
      err = (spawn_tx_task port w.queue).0

      t : Websocket R E
      t = record w { queue = (spawn_tx_task port w.queue).1 }

      stopped : E
      stopped = (client.client_stop t.queue.env).1

      chosen : Bool → EspErr × Websocket R E
      chosen ok = if ok then (EspErr.esp_ok, t) else (
        err,
        abandon port client (in_world_of port client (λ e. (client.client_stop e).1) t),
      )

      by_err :
          (ok : Bool)
          → is_ok err ≡ ok
          → Ends port client laws heap n (is_ok (chosen ok).0) (chosen ok).1
      by_err true e = ready
      by_err false e =
          let k = spawn_tx_task-IsHeld port laws (n + 2) w.queue h e in
          subst (λ x. Ends port client laws heap n x (chosen false).1) (sym e)
            (abandon-IsReleased port client laws heap n
              (in_world_of port client (λ e. (client.client_stop e).1) t)
              (IsHeld-env port laws (n + 2) (n + 2) t.queue stopped k
                (heap.live_stop t.queue.env ∙ k.live_more)))

  start_client-Ends :
      (n : ℕ) (w : Websocket R E)
      → IsHeld port laws (n + 2) w.queue
      → Ends port client laws heap n true w
      → Ends port client laws heap n
          (is_ok (start_client port client w).0)
          (start_client port client w).1
  unfolding start_client
  start_client-Ends n w h ready = by_err (is_ok (client.client_start w.queue.env).0)
    where
      q : Queue R E
      q = w.queue

      t : Websocket R E
      t = record w { queue = record q { env = (client.client_start q.env).1 } }

      held_t : IsHeld port laws (n + 2) t.queue
      held_t =
          IsHeld-env port laws (n + 2) (n + 2) q (client.client_start q.env).1 h
            (heap.live_start q.env ∙ h.live_more)

      chosen : Bool → EspErr × Websocket R E
      chosen ok =
          if not ok then (EspErr.esp_fail, abandon port client t) else spawn_task port client t

      by_err : (ok : Bool) → Ends port client laws heap n (is_ok (chosen ok).0) (chosen ok).1
      by_err true = spawn_task-Ends n t held_t ready
      by_err false = abandon-IsReleased port client laws heap n t held_t

  register_handler-Ends :
      (n : ℕ) (w : Websocket R E)
      → IsHeld port laws (n + 2) w.queue
      → w.has_client ≡ false
      → w.has_staging ≡ false
      → w.initialized ≡ false
      → Ends port client laws heap n
          (is_ok (register_handler port client w).0)
          (register_handler port client w).1
  unfolding register_handler
  register_handler-Ends n w h c s i = by_err (is_ok (client.register_events w.queue.env).0)
    where
      q : Queue R E
      q = w.queue

      e : E
      e = (client.register_events q.env).1

      t : Websocket R E
      t = record w { queue = record q { env = e } }

      same : laws.live e ≡ n + 2 + 4
      same = heap.live_register q.env ∙ h.live_more

      chosen : Bool → EspErr × Websocket R E
      chosen ok =
          if not ok
          then (
            EspErr.esp_fail,
            release port client (in_world_of port client client.client_destroy t),
          )
          else start_client port client
              (record t { has_client = true; has_staging = true; initialized = true })

      by_err : (ok : Bool) → Ends port client laws heap n (is_ok (chosen ok).0) (chosen ok).1
      by_err true =
          start_client-Ends n
            (record t { has_client = true; has_staging = true; initialized = true })
            (IsHeld-env port laws (n + 2) (n + 2) q e h same) (refl, refl, refl)
      by_err false =
          release-IsReleased port client laws heap n
            (in_world_of port client client.client_destroy t)
            (IsHeld-env port laws (n + 2) (n + 1) q (client.client_destroy e) h
              (heap.live_destroy e ∙ omega (arith, same)))
            c s i

  make_client-Ends :
      (config : ClientConfig C) (n : ℕ) (w : Websocket R E)
      → IsHeld port laws (n + 1) w.queue
      → w.has_client ≡ false
      → w.has_staging ≡ false
      → w.initialized ≡ false
      → Ends port client laws heap n
          (is_ok (make_client port client config w).0)
          (make_client port client config w).1
  unfolding make_client
  make_client-Ends config n w h c s i =
      by_made (client.client_init (prepare_config config) w.queue.env).0 refl
    where
      q : Queue R E
      q = w.queue

      e : E
      e = (client.client_init (prepare_config config) q.env).1

      t : Websocket R E
      t = record w { queue = record q { env = e } }

      chosen : Bool → EspErr × Websocket R E
      chosen made =
          if not made
          then (EspErr.invalid_arg, release port client t)
          else register_handler port client t

      by_made :
          (made : Bool)
          → (client.client_init (prepare_config config) q.env).0 ≡ made
          → Ends port client laws heap n (is_ok (chosen made).0) (chosen made).1
      by_made true m =
          register_handler-Ends n t
            (IsHeld-env port laws (n + 1) (n + 2) q e h
              (heap.live_client (prepare_config config) q.env m ∙ omega (arith, h.live_more)))
            c s i
      by_made false m =
          release-IsReleased port client laws heap n t
            (IsHeld-env port laws (n + 1) (n + 1) q e h
              (heap.live_no_client (prepare_config config) q.env m ∙ h.live_more))
            c s i

  -- `init` on an unused transport either succeeds, with the client and the buffer in place, or gives
  -- back all that it took: no handle is left, the transport is not initialized, and as much is
  -- allocated as before. So it can be called again.
  pub init_websocket-Ends :
      (config : ClientConfig C) (n : ℕ) (w : Websocket R E)
      → IsReleased port client laws heap n w
      → Ends port client laws heap n
          (is_ok (init_websocket port client config w).0)
          (init_websocket port client config w).1
  unfolding init_websocket
  init_websocket-Ends config n w h =
      subst (λ x. Ends port client laws heap n (is_ok (chosen x ok made).0) (chosen x ok made).1)
        (sym h.not_initialized) (by_malloc ok refl)
    where
      q : Queue R E
      q = w.queue

      e : E
      e = (client.malloc q.env).1

      ok : Bool
      ok = (client.malloc q.env).0

      r : Queue R E
      r = (create_queues port (record q { env = e })).1

      made : Bool
      made = is_ok (create_queues port (record q { env = e })).0

      chosen : Bool → Bool → Bool → EspErr × Websocket R E
      chosen initialized allocated queues =
          if initialized
          then (EspErr.invalid_state, w)
          else if not allocated
          then (EspErr.no_mem, record w { queue = record q { env = e } })
          else if not queues
          then (
            (create_queues port (record q { env = e })).0,
            in_world_of port client client.free (record w { queue = r }),
          )
          else make_client port client config (record w { queue = r })

      moved_clean : (m : ℕ) → laws.live e ≡ m → IsClean port laws m (record q { env = e })
      moved_clean m same = IsClean-env port laws n m q e h.clean same

      by_queues :
          (x : Bool)
          → made ≡ x
          → Outcome port laws (n + 1) x r
          → Ends port client laws heap n (is_ok (chosen false true x).0) (chosen false true x).1
      by_queues true k out =
          make_client-Ends config n (record w { queue = r }) out h.no_client h.no_staging
            h.not_initialized
      by_queues false k out =
          subst (λ b. Ends port client laws heap n b (chosen false true false).1) (sym k)
            (record {
              clean =
                  IsClean-env port laws (n + 1) n r (client.free r.env) out
                    (heap.live_free r.env ∙ omega (arith, out.live_same));
              no_client = h.no_client;
              no_staging = h.no_staging;
              not_initialized = h.not_initialized;
            })

      by_malloc :
          (x : Bool)
          → ok ≡ x
          → Ends port client laws heap n (is_ok (chosen false x made).0) (chosen false x made).1
      by_malloc true k = by_queues made refl (
          create_queues-Outcome port laws (n + 1) (record q { env = e })
            (moved_clean (n + 1) (heap.live_malloc q.env k ∙ omega (arith, h.clean.live_same))))
      by_malloc false k = record {
        clean = moved_clean n (heap.live_no_malloc q.env k ∙ h.clean.live_same);
        no_client = h.no_client;
        no_staging = h.no_staging;
        not_initialized = h.not_initialized;
      }
