-- ===== src/Transport/WebSocket/Release.antt =====
-- What a failed `init` of the WebSocket transport gives back.
use sidp_client.Base.{ℕ, ◌+◌, ◌-◌, ◌≡◌, refl, ◌∙◌, Bool, true, false, arith}
use sidp_client.Transport.Allocation.{IsHeld-IsClean, IsHeld-env, IsHeld}
use sidp_client.Transport.Port.{Port}
use sidp_client.Transport.Resources.{HeapLaws, IsClean}
use sidp_client.Transport.Setup.{destroy_queues}
use sidp_client.Transport.State.{Queue}
use sidp_client.Transport.WebSocket.Client.{ClientConfig, abandon, in_world_of, release, Client}
use sidp_client.Transport.WebSocket.State.{Websocket}

pub record ClientHeap {C R E : Type 0} {port : Port R E} (laws : HeapLaws port)
    (client : Client C E) : Type 0 where
  pub live_malloc :
      (e : E) → (client.malloc e).0 ≡ true → laws.live (client.malloc e).1 ≡ laws.live e + 1
  pub live_no_malloc :
      (e : E) → (client.malloc e).0 ≡ false → laws.live (client.malloc e).1 ≡ laws.live e
  pub live_free : (e : E) → laws.live (client.free e) ≡ laws.live e - 1
  pub live_client :
      (c : ClientConfig C) (e : E)
      → (client.client_init c e).0 ≡ true
      → laws.live (client.client_init c e).1 ≡ laws.live e + 1
  pub live_no_client :
      (c : ClientConfig C) (e : E)
      → (client.client_init c e).0 ≡ false
      → laws.live (client.client_init c e).1 ≡ laws.live e
  pub live_destroy : (e : E) → laws.live (client.client_destroy e) ≡ laws.live e - 1
  pub live_register : (e : E) → laws.live (client.register_events e).1 ≡ laws.live e
  pub live_unregister : (e : E) → laws.live (client.unregister_events e) ≡ laws.live e
  pub live_start : (e : E) → laws.live (client.client_start e).1 ≡ laws.live e
  pub live_stop : (e : E) → laws.live (client.client_stop e).1 ≡ laws.live e

module _ {C R E : Type 0} (port : Port R E) (client : Client C E) (laws : HeapLaws port)
    (heap : ClientHeap laws client) where
  -- No handle is there, and so much is allocated.
  pub record IsReleased (n : ℕ) (w : Websocket R E) : Type 0 where
    pub clean : IsClean port laws n w.queue
    pub no_client : w.has_client ≡ false
    pub no_staging : w.has_staging ≡ false
    pub not_initialized : w.initialized ≡ false

  -- The failures release, and a success has all.
  abbrev pub Ends : ℕ → Bool → Websocket R E → Type 0
  Ends n true w = (w.initialized ≡ true) × (w.has_client ≡ true) × (w.has_staging ≡ true)
  Ends n false w = IsReleased n w

  pub release-IsReleased :
      (n : ℕ) (w : Websocket R E)
      → IsHeld port laws (n + 1) w.queue
      → w.has_client ≡ false
      → w.has_staging ≡ false
      → w.initialized ≡ false
      → IsReleased n (release port client w)
  unfolding release
  release-IsReleased n w h c s i =
      let k = IsHeld-IsClean port laws (n + 1) w.queue h in
      record {
        clean = record {
          no_packets = k.no_packets;
          no_frames = k.no_frames;
          no_logs = k.no_logs;
          no_mutex = k.no_mutex;
          no_task = k.no_task;
          live_same = heap.live_free (destroy_queues port w.queue).env ∙ omega (arith, k.live_same);
        };
        no_client = c;
        no_staging = s;
        not_initialized = i;
      }

  pub abandon-IsReleased :
      (n : ℕ) (w : Websocket R E)
      → IsHeld port laws (n + 2) w.queue
      → IsReleased n (abandon port client w)
  unfolding abandon
  abandon-IsReleased n w h =
      let q : Queue R E = w.queue in
      let e : E = client.unregister_events q.env in
      release-IsReleased n
        (record (in_world_of port client (λ e. client.client_destroy (client.unregister_events e))
          w) { initialized = false; has_client = false; has_staging = false })
        (IsHeld-env port laws (n + 2) (n + 1) q (client.client_destroy e) h
          (heap.live_destroy e ∙ omega (arith, heap.live_unregister q.env, h.live_more)))
        refl refl refl
