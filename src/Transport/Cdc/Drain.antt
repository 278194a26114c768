-- ===== src/Transport/Cdc/Drain.antt =====
-- `drain_cdc_input` reads what the driver holds, in chunks, as if it were one.
-- What the driver promises: each read succeeds and gives a front piece of its input, of a size of its
-- choice that is zero only if the input is empty; reading leaves the link alone.
use sidp_client.Base.{◌==◌}
use sidp_client.Backend.{is_ok, EspErr}
use sidp_client.Base.{
  ℕ, zero, suc, ◌<◌, ◌≡◌, refl, sym, ap, ◌∙◌, Bool, true, false, not, ◌||◌, List, [], ◌∷◌, ◌++◌,
  arith, length, length-append,
}
use sidp_client.Transport.Cdc.Decode.{Decoder, consume_chunk}
use sidp_client.Transport.Cdc.Feed.{feed-env, feed, feed_same, moved, in_world}
use sidp_client.Transport.Cdc.Receive.{read_round, read_loop}
use sidp_client.Transport.Cdc.Slip.{consume_chunk-append}
use sidp_client.Transport.Port.{Line, Port}
use sidp_client.Transport.Queue.{deliver_packet}
use sidp_client.Transport.State.{Queue}

pub record ReadLaws {E : Type 0} (line : Line E) (read : E → EspErr × List ℕ × E) : Type 0 where
  pub pending : E → List ℕ
  pub reads_ok : (e : E) → (read e).0 ≡ EspErr.esp_ok
  pub reads_split : (e : E) → (read e).1 ++ pending (read e).2 ≡ pending e
  pub reads_some : (e : E) → length (read e).1 ≡ 0 → pending e ≡ []
  pub link_stays : (e : E) → line.physical_link_open (read e).2 ≡ line.physical_link_open e

length_zero : (xs : List ℕ) → length xs ≡ 0 → xs ≡ []
length_zero [] h = refl
length_zero (x ∷ xs) h = absurd (omega (arith, h))

module _ {R E : Type 0} (port : Port R E) (line : Line E) (read : E → EspErr × List ℕ × E)
    (laws : ReadLaws line read) (n : ℕ) where
  -- All that the driver held went through the decoder.
  abbrev pub Drains : Decoder → Queue R E → Decoder × Queue R E → Type 0
  Drains d q result =
      (e : E) × (result ≡ moved port line n e (feed port line n (laws.pending q.env) d q))
      × (laws.pending e ≡ [])

  module _ (q : Queue R E) where
    got : List ℕ
    got = (read q.env).1

    rest_world : E
    rest_world = (read q.env).2

    -- The test of the loop, when the read has succeeded.
    read_test : Bool
    read_test = not (is_ok (read q.env).0) || length got == 0

    test_over : read_test ≡ true → length got ≡ 0
    unfolding read_test
    test_over h = let e = laws.reads_ok q.env in ground (arith, e)

    test_on : read_test ≡ false → 0 < length got
    unfolding read_test
    test_on h = let e = laws.reads_ok q.env in ground (arith, e)

    got_rest : got ++ laws.pending rest_world ≡ laws.pending q.env
    unfolding got rest_world
    got_rest = laws.reads_split q.env

    nothing_after : got ≡ [] → laws.pending rest_world ≡ laws.pending q.env
    nothing_after h = ap (λ (l : List ℕ). l ++ laws.pending rest_world) (sym h) ∙ got_rest

    read_round-Drains :
        (fuel : ℕ) (go : Decoder → Queue R E → Decoder × Queue R E) (d : Decoder)
        → length (laws.pending q.env) < suc fuel
        → ((t : Decoder) (r : Queue R E) → length (laws.pending r.env) < fuel → Drains t r (go t r))
        → (over : Bool) → read_test ≡ over
        → Drains d q (read_round port line over go got n d (in_world port line rest_world q))
    unfolding read_round feed rest_world got consume_chunk
    read_round-Drains fuel go d enough later true h =
        let none_left : laws.pending q.env ≡ [] = laws.reads_some q.env (test_over h) in
        (rest_world, rw none_left refl, nothing_after (length_zero got (test_over h)) ∙ none_left)
    read_round-Drains fuel go d enough later false h =
        let e : E = rest_world in
        let stays = laws.link_stays q.env in
        let x : Decoder × Queue R E = feed port line n got d q in
        let fed : feed port line n got d (in_world port line e q) ≡ moved port line n e x =
          feed-env port line n got d q e stays in
        let sum = length-append {0} got (laws.pending e) in
        let size = ap (λ (l : List ℕ). length l) got_rest in
        let (e2, same, done) =
          later x.0 (in_world port line e x.1) (omega (arith, sum, size, test_on h, enough)) in
        let link = stays ∙ ap line.physical_link_open (sym (feed_same port line n got d q)) in
        let whole : feed port line n (laws.pending e) x.0 x.1
            ≡ feed port line n (laws.pending q.env) d q =
          sym (consume_chunk-append (λ p. deliver_packet port line p n) got (laws.pending e) d q)
          ∙ ap (λ (b : List ℕ). feed port line n b d q) got_rest in
        (
          e2,
          ap (λ (y : Decoder × Queue R E). go y.0 y.1) fed
              ∙ (same
                  ∙ (ap (moved port line n e2)
                        (feed-env port line n (laws.pending e) x.0 x.1 e link)
                      ∙ ap (moved port line n e2) whole)),
          done,
        )

  -- For a driver whose reads all succeed, give its pending bytes in order, each at least one byte
  -- while any is pending and of any size, and leave the link as it is: the loop of
  -- `drain_cdc_input` reads until nothing is pending, and then the decoder and the queues are as if
  -- all bytes had come in one piece.
  pub read_loop-Drains :
      (fuel : ℕ) (d : Decoder) (q : Queue R E)
      → length (laws.pending q.env) < fuel
      → Drains d q (read_loop port line read fuel n d q)
  unfolding read_loop read_test got rest_world
  read_loop-Drains zero d q enough = absurd (omega arith)
  read_loop-Drains (suc fuel) d q enough =
      read_round-Drains q fuel (read_loop port line read fuel n) d enough (read_loop-Drains fuel)
        (read_test q) refl
