-- ===== src/Transport/WebSocket/Staging.antt =====
-- What one event does to a message that is being staged.
use sidp_client.Base.{ltb}
use sidp_client.Base.{if◌then◌else◌}
use native.Mathlib.Decide.{dec_le}
-- An event of a message: a chunk of a frame, whole.
use sidp_client.Base.{
  ℕ, ◌+◌, ◌-◌, ◌≤◌, ◌<◌, ◌≡◌, refl, sym, ap, subst, Bool, true, false, List, [], ◌++◌, arith,
  length-append, length,
}
use sidp_client.Defs.Limits
use sidp_client.Transport.Port.{Line, Port}
use sidp_client.Transport.Queue.{deliver_packet}
use sidp_client.Transport.State.{Queue}
use sidp_client.Transport.WebSocket.Receive.{
  chunk_of, is_data, exceeds_frame, stage_bytes, deliver_staged, reset_staging, stage_event,
  is_malformed, completes_message,
}
use sidp_client.Transport.WebSocket.State.{Websocket, EventData}

pub record IsChunk (event : EventData) (c : List ℕ) : Type 0 where
  pub sound : is_malformed event ≡ false
  pub carries : is_data event ≡ true
  pub inside : exceeds_frame event ≡ false
  pub bytes : chunk_of event ≡ c

module _ {R E : Type 0} (port : Port R E) (line : Line E) (q : Queue R E) where
  -- The first bytes of a message are staged, or it is known to be too long.
  pub record Stages (s : List ℕ) (w : Websocket R E) : Type 0 where
    pub same_queue : w.queue ≡ q
    pub same_epoch : w.staging_epoch ≡ q.epoch
    pub active : w.staging_active ≡ true
    pub staged : length s ≤ Limits.max_frame_size → w.staging ≡ s
    pub kept : length s ≤ Limits.max_frame_size → w.staging_discarded ≡ false
    pub dropped : Limits.max_frame_size < length s → w.staging_discarded ≡ true

  -- The message was delivered if it fits in a frame, and the staging is empty.
  pub record Done (s : List ℕ) (w : Websocket R E) : Type 0 where
    pub delivered :
        w.queue
        ≡ (if ltb Limits.max_frame_size (length s) then q else deliver_packet port line s q.epoch q)
    pub cleared : w.staging ≡ []
    pub inactive : w.staging_active ≡ false
    pub kept : w.staging_discarded ≡ false

  abbrev pub Becomes : Bool → List ℕ → Websocket R E → Type 0
  Becomes true s w = Done s w
  Becomes false s w = Stages s w

  stage_bytes-Stages :
      (s c : List ℕ) (w : Websocket R E) → Stages s w → Stages (s ++ c) (stage_bytes c w)
  unfolding stage_bytes
  stage_bytes-Stages s c w h =
      by_discard w.staging_discarded refl
        (ltb (Limits.max_frame_size - length w.staging) (length c)) refl
    where
      split : length (s ++ c) ≡ length s + length c
      split = length-append {0} s c

      same : length s ≤ Limits.max_frame_size → length w.staging ≡ length s
      same fit = ap (λ (l : List ℕ). length l) (h.staged fit)

      discarded_long : w.staging_discarded ≡ true → length s ≤ Limits.max_frame_size → ⊥
      discarded_long e fit = let k = h.kept fit in absurd (cc)

      too_long :
          Limits.max_frame_size < length (s ++ c)
          → w.staging_discarded ≡ false
          → ltb (Limits.max_frame_size - length w.staging) (length c) ≡ false
          → ⊥
      too_long over e k = by_length (dec_le (length s) Limits.max_frame_size)
        where
          by_length : Dec (length s ≤ Limits.max_frame_size) → ⊥
          by_length (yes fit) = ground (arith, split, same fit)
          by_length (no long) = let k = h.dropped (omega arith) in absurd (cc)

      chosen : Bool → Bool → Websocket R E
      chosen discarded large =
          if discarded
          then w
          else if large
          then record w { staging_discarded = true }
          else record w { staging = w.staging ++ c }

      by_discard :
          (discarded : Bool)
          → w.staging_discarded ≡ discarded
          → (large : Bool) → ltb (Limits.max_frame_size - length w.staging) (length c) ≡ large
          → Stages (s ++ c) (chosen discarded large)
      by_discard true e large k = record {
        same_queue = h.same_queue;
        same_epoch = h.same_epoch;
        active = h.active;
        staged = λ fit. absurd (discarded_long e (omega (arith, split)));
        kept = λ fit. absurd (discarded_long e (omega (arith, split)));
        dropped = λ over. e;
      }
      by_discard false e true k = record {
        same_queue = h.same_queue;
        same_epoch = h.same_epoch;
        active = h.active;
        staged = λ fit. absurd (ground (arith, split, same (omega (arith, split))));
        kept = λ fit. absurd (ground (arith, split, same (omega (arith, split))));
        dropped = λ over. refl;
      }
      by_discard false e false k = record {
        same_queue = h.same_queue;
        same_epoch = h.same_epoch;
        active = h.active;
        staged = λ fit. ap (λ (l : List ℕ). l ++ c) (h.staged (omega (arith, split)));
        kept = λ fit. e;
        dropped = λ over. absurd (too_long over e k);
      }

  finish-Stages :
      (s : List ℕ) (w : Websocket R E)
      → Stages s w
      → Done s (reset_staging (deliver_staged port line q.epoch w))
  unfolding reset_staging deliver_staged
  finish-Stages s w h = by_length (ltb Limits.max_frame_size (length s)) refl
    where
      by_length :
          (over : Bool)
          → ltb Limits.max_frame_size (length s) ≡ over
          → Done s (reset_staging (deliver_staged port line q.epoch w))
      by_length true k =
          let e = h.dropped (ground arith) in
          record {
            delivered = rw (k, e) h.same_queue;
            cleared = refl;
            inactive = refl;
            kept = refl;
          }
      by_length false k =
          let e = h.kept (ground arith) in
          let f = h.staged (ground arith) in
          record {
            delivered = rw (k, e, f, h.same_queue) refl;
            cleared = refl;
            inactive = refl;
            kept = refl;
          }

  pub stage_event-Becomes :
      (event : EventData) (s c : List ℕ) (w : Websocket R E)
      → IsChunk event c
      → Stages s w
      → Becomes (completes_message event) (s ++ c) (stage_event port line q.epoch event w)
  unfolding stage_event
  stage_event-Becomes event s c w chunk h =
      by_tests (exceeds_frame event) chunk.inside (completes_message event)
    where
      t : Websocket R E
      t = stage_bytes (chunk_of event) w

      t_stages : Stages (s ++ c) t
      t_stages =
          subst (λ x. Stages (s ++ c) (stage_bytes x w)) (sym chunk.bytes)
            (stage_bytes-Stages s c w h)

      by_tests :
          (exceeds : Bool)
          → exceeds ≡ false
          → (completes : Bool)
          → Becomes completes (s ++ c) (
              if exceeds
              then reset_staging w
              else if completes
              then reset_staging (deliver_staged port line q.epoch t)
              else t)
      by_tests true e completes = absurd (cc)
      by_tests false e false = t_stages
      by_tests false e true = finish-Stages (s ++ c) t t_stages
