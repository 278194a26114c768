-- ===== src/Transport/Cdc/Feed.antt =====
-- The decoder and the queues ask the world only for the link.
use sidp_client.Base.{◌==◌}
use sidp_client.Base.{if◌then◌else◌}
use sidp_client.Base.{
  ℕ, ◌≡◌, refl, sym, ap, ◌∙◌, Bool, true, false, not, ◌||◌, Option, none, some, List, [], ◌∷◌,
  length, field,
}
use sidp_client.Crc.{is_valid_message_size, verify_message_crc}
use sidp_client.Defs.Limits
use sidp_client.Transport.Cdc.Decode.{
  reset_frame_state, consume_chunk, consume_byte, consume_input_byte, Decoder,
}
use sidp_client.Transport.Port.{Line, Port}
use sidp_client.Transport.Queue.{
  send_ring, accept_packet, close_locked, deliver_packet, link_is_connected, is_open,
}
use sidp_client.Transport.State.{Queue}

module _ {R E : Type 0} (port : Port R E) (line : Line E) where
  abbrev pub in_world : E → Queue R E → Queue R E
  in_world e q = record q { env = e }

  accept_packet-env :
      (o : Option R) (q : Queue R E) (e : E)
      → accept_packet port o (in_world e q) ≡ in_world e (accept_packet port o q)
  unfolding accept_packet close_locked
  accept_packet-env none q e = refl
  accept_packet-env (some r) q e = refl

  -- `deliver_packet` after its tests.
  delivered : Bool → Bool → Bool → List ℕ → Queue R E → Queue R E
  delivered bad late strange p q =
      if bad
      then q
      else if late
      then q
      else if strange
      then close_locked port q
      else accept_packet port (send_ring port p q.ring_buffer) q

  delivered-env :
      (bad late strange : Bool) (p : List ℕ) (q : Queue R E) (e : E)
      → delivered bad late strange p (in_world e q) ≡ in_world e (delivered bad late strange p q)
  unfolding delivered close_locked
  delivered-env true late strange p q e = refl
  delivered-env false true strange p q e = refl
  delivered-env false false true p q e = refl
  delivered-env false false false p q e = accept_packet-env (send_ring port p q.ring_buffer) q e

  -- `deliver_packet` asks the world only for the link.
  deliver_packet-env :
      (p : List ℕ) (n : ℕ) (q : Queue R E) (e : E)
      → line.physical_link_open e ≡ line.physical_link_open q.env
      → deliver_packet port line p n (in_world e q) ≡ in_world e (deliver_packet port line p n q)
  unfolding deliver_packet is_open link_is_connected delivered
  deliver_packet-env p n q e h = rw h (
      delivered-env (not (is_valid_message_size (length p)) || not (verify_message_crc p))
        (not (is_open line q) || not (n == q.epoch)) (not (field p 0 1 == Limits.protocol_version))
        p q e)

  accept_packet_same : (o : Option R) (q : Queue R E) → (accept_packet port o q).env ≡ q.env
  unfolding accept_packet close_locked
  accept_packet_same none q = refl
  accept_packet_same (some r) q = refl

  delivered_same :
      (bad late strange : Bool) (p : List ℕ) (q : Queue R E)
      → (delivered bad late strange p q).env ≡ q.env
  unfolding delivered close_locked
  delivered_same true late strange p q = refl
  delivered_same false true strange p q = refl
  delivered_same false false true p q = refl
  delivered_same false false false p q = accept_packet_same (send_ring port p q.ring_buffer) q

  deliver_packet_same :
      (p : List ℕ) (n : ℕ) (q : Queue R E) → (deliver_packet port line p n q).env ≡ q.env
  unfolding deliver_packet delivered
  deliver_packet_same p n q =
      delivered_same (not (is_valid_message_size (length p)) || not (verify_message_crc p))
        (not (is_open line q) || not (n == q.epoch)) (not (field p 0 1 == Limits.protocol_version))
        p q

  module _ (n : ℕ) where
    unfoldable pub feed : List ℕ → Decoder → Queue R E → Decoder × Queue R E
    feed = consume_chunk (λ p. deliver_packet port line p n)

    -- The queue of a decoder's step in another world.
    abbrev pub moved : E → Decoder × Queue R E → Decoder × Queue R E
    moved e (d, q) = (d, in_world e q)

    byte-env :
        (byte : ℕ) (d : Decoder) (q : Queue R E) (e : E)
        → line.physical_link_open e ≡ line.physical_link_open q.env
        → consume_byte (λ p. deliver_packet port line p n) byte d (in_world e q)
          ≡ moved e (consume_byte (λ p. deliver_packet port line p n) byte d q)
    unfolding consume_byte
    byte-env byte d q e h = by_result (consume_input_byte byte d).0 (consume_input_byte byte d).1
      where
        by_result :
            (complete : Bool) (t : Decoder)
            → (if complete
                then (reset_frame_state t, deliver_packet port line t.frame n (in_world e q))
                else (t, in_world e q))
              ≡ moved e (
                  if complete
                  then (reset_frame_state t, deliver_packet port line t.frame n q)
                  else (t, q))
        by_result true t =
            ap (λ (x : Queue R E). (reset_frame_state t, x)) (deliver_packet-env t.frame n q e h)
        by_result false t = refl

    byte_same :
        (byte : ℕ) (d : Decoder) (q : Queue R E)
        → (consume_byte (λ p. deliver_packet port line p n) byte d q).1.env ≡ q.env
    unfolding consume_byte
    byte_same byte d q = by_result (consume_input_byte byte d).0 (consume_input_byte byte d).1
      where
        consumed : Bool → Decoder → Decoder × Queue R E
        consumed complete t =
            if complete then (reset_frame_state t, deliver_packet port line t.frame n q) else (t, q)

        by_result : (complete : Bool) (t : Decoder) → (consumed complete t).1.env ≡ q.env
        by_result true t = deliver_packet_same t.frame n q
        by_result false t = refl

    pub feed-env :
        (bytes : List ℕ) (d : Decoder) (q : Queue R E) (e : E)
        → line.physical_link_open e ≡ line.physical_link_open q.env
        → feed bytes d (in_world e q) ≡ moved e (feed bytes d q)
    unfolding feed consume_chunk
    feed-env [] d q e h = refl
    feed-env (byte ∷ rest) d q e h =
        let t : Decoder × Queue R E = consume_byte (λ p. deliver_packet port line p n) byte d q in
        ap (λ (x : Decoder × Queue R E). feed rest x.0 x.1) (byte-env byte d q e h)
        ∙ feed-env rest t.0 t.1 e (h ∙ ap line.physical_link_open (sym (byte_same byte d q)))

    pub feed_same : (bytes : List ℕ) (d : Decoder) (q : Queue R E) → (feed bytes d q).1.env ≡ q.env
    unfolding feed consume_chunk
    feed_same [] d q = refl
    feed_same (byte ∷ rest) d q =
        let t : Decoder × Queue R E = consume_byte (λ p. deliver_packet port line p n) byte d q in
        feed_same rest t.0 t.1 ∙ byte_same byte d q
