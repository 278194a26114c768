-- ===== src/Transport/Rings.antt =====
-- The rings as lists of frames: what sending, receiving, returning and draining do to them.
use sidp_client.Base.{
  ℕ, zero, suc, ◌≤◌, ◌≡◌, refl, ap, Option, none, some, List, [], ◌∷◌, ◌++◌, arith, length,
}
use sidp_client.Transport.Port.{Port, RingLaws}
use sidp_client.Transport.Queue.{
  receive_ring, drain, is_missing, return_ring, drain_items, send_ring,
}
use sidp_client.Transport.Sizes

module _ {R E : Type 0} (port : Port R E) (laws : RingLaws port) where
  -- A missing ring holds nothing.
  unfoldable pub held : Option R → List (List ℕ)
  held none = []
  held (some r) = laws.items r

  pub held-few : (o : Option R) → length (held o) ≤ Sizes.queue_size
  unfolding held
  held-few none = omega arith
  held-few (some r) = laws.items_few r

  -- The loop of `drain` empties a ring in at most as many rounds as the ring holds items.
  pub items-drain_items :
      (fuel : ℕ) (r : R) → length (laws.items r) ≤ fuel → laws.items (drain_items port fuel r) ≡ []
  unfolding drain_items
  items-drain_items zero r few = no_items (laws.items r) few
    where
      no_items : (xs : List (List ℕ)) → length xs ≤ 0 → xs ≡ []
      no_items [] h = refl
      no_items (x ∷ xs) h = absurd (omega arith)
  items-drain_items (suc fuel) r few =
      step (port.receive r) refl (λ rest. items-drain_items fuel rest)
    where
      step :
          (got : Option (List ℕ × R))
          → port.receive r ≡ got
          → ((t : R) → length (laws.items t) ≤ fuel → laws.items (drain_items port fuel t) ≡ [])
          → laws.items (drain_items port (suc fuel) r) ≡ []
      step none e ih = rw (e, drain_items) (laws.items_none r e)
      step (some (x, t)) e ih =
          rw (e, drain_items)
            (ih (port.return_item x t) (
              rw (laws.items_return x t) (
                omega
                  (arith, few, ap (λ (l : List (List ℕ)). length l) (laws.items_some x r t e)))))

  pub held-drain : (o : Option R) → held (drain port o) ≡ []
  unfolding held drain
  held-drain none = refl
  held-drain (some r) = items-drain_items Sizes.queue_size r (laws.items_few r)

  pub held-send_ring :
      (m : List ℕ) (o : Option R) (t : R)
      → send_ring port m o ≡ some t
      → held (some t) ≡ held o ++ m ∷ []
  unfolding held send_ring
  held-send_ring m none t h = absurd (cc)
  held-send_ring m (some r) t h = laws.items_send m r t h

  pub held-receive_none : (o : Option R) → receive_ring port o ≡ none → held o ≡ []
  unfolding held receive_ring
  held-receive_none none h = refl
  held-receive_none (some r) h = laws.items_none r h

  pub held-receive_ring :
      (m : List ℕ) (o : Option R) (t : R)
      → receive_ring port o ≡ some (m, t)
      → held o ≡ m ∷ held (some t)
  unfolding held receive_ring
  held-receive_ring m none t h = absurd (cc)
  held-receive_ring m (some r) t h = laws.items_some m r t h

  pub held-return_ring : (m : List ℕ) (o : Option R) → held (return_ring port m o) ≡ held o
  unfolding held return_ring
  held-return_ring m none = refl
  held-return_ring m (some r) = laws.items_return m r

  pub is_missing-drain : (o : Option R) → is_missing (drain port o) ≡ is_missing o
  unfolding drain
  is_missing-drain none = refl
  is_missing-drain (some r) = refl

  pub is_missing-return_ring :
      (m : List ℕ) (o : Option R) → is_missing (return_ring port m o) ≡ is_missing o
  unfolding return_ring
  is_missing-return_ring m none = refl
  is_missing-return_ring m (some r) = refl
