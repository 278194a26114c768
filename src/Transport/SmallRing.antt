-- ===== src/Transport/SmallRing.antt =====
-- Rings with room for two frames, for the tests of the transports.
-- A ring with room for two frames.
use sidp_client.Base.{
  ℕ, ◌≤◌, ◌≡◌, refl, sym, ap, Bool, true, Option, none, some, List, [], ◌∷◌, ◌++◌, arith, length,
}
use sidp_client.Defs.{kind_log_stream}
use sidp_client.Transport.Moves.{first_shared, on_queue, Shared}
use sidp_client.Transport.Port.{RingLaws, Line, Port}
use sidp_client.Transport.Queue.{link_changed, begin_session}
use sidp_client.Transport.Setup.{lacks_ring, make_rings, create_rings, create_queues, make_mutex}
use sidp_client.Transport.Sizes

pub data Ring : Type 0 where
  free : Ring
  one_in : List ℕ → Ring
  two_in : List ℕ → List ℕ → Ring

abbrev pub contents : Ring → List (List ℕ)
contents Ring.free = []
contents (Ring.one_in a) = a ∷ []
contents (Ring.two_in a b) = a ∷ b ∷ []

abbrev pub put_in : List ℕ → Ring → Option Ring
put_in m Ring.free = some (Ring.one_in m)
put_in m (Ring.one_in a) = some (Ring.two_in a m)
put_in m (Ring.two_in a b) = none

abbrev pub get_out : Ring → Option (List ℕ × Ring)
get_out Ring.free = none
get_out (Ring.one_in a) = some (a, Ring.free)
get_out (Ring.two_in a b) = some (a, Ring.one_in b)

-- The world is whether the cable is in.
abbrev pub small_port : Port Ring Bool
small_port = record {
  send = put_in;
  receive = get_out;
  return_item = λ x r. r;
  create_ring = λ size e. (some Ring.free, e);
  delete_ring = λ r e. e;
  create_mutex = λ e. (true, e);
  delete_mutex = λ e. e;
  create_task = λ e. (true, e);
}

abbrev pub cable : Line Bool
cable = record { physical_link_open = λ e. e; reset_wire_buffers = λ e. e }

abbrev pub after_put : Option Ring → List (List ℕ)
after_put none = []
after_put (some r) = contents r

abbrev pub after_get : Option (List ℕ × Ring) → List (List ℕ)
after_get none = []
after_get (some (x, r)) = x ∷ contents r

pub contents_few : (r : Ring) → length (contents r) ≤ Sizes.queue_size
contents_few Ring.free = omega arith
contents_few (Ring.one_in a) = omega arith
contents_few (Ring.two_in a b) = omega arith

pub contents_send :
    (x : List ℕ) (r t : Ring) → put_in x r ≡ some t → contents t ≡ contents r ++ x ∷ []
contents_send x Ring.free t h = sym (ap after_put h)
contents_send x (Ring.one_in a) t h = sym (ap after_put h)
contents_send x (Ring.two_in a b) t h = absurd (cc)

pub contents-none : (r : Ring) → get_out r ≡ none → contents r ≡ []
contents-none Ring.free h = refl
contents-none (Ring.one_in a) h = absurd (cc)
contents-none (Ring.two_in a b) h = absurd (cc)

pub contents-some :
    (x : List ℕ) (r t : Ring) → get_out r ≡ some (x, t) → contents r ≡ x ∷ contents t
contents-some x Ring.free t h = absurd (cc)
contents-some x (Ring.one_in a) t h = ap after_get h
contents-some x (Ring.two_in a b) t h = ap after_get h

unfoldable pub small_laws : RingLaws small_port
small_laws = record {
  items = contents;
  items_few = contents_few;
  items_new = λ size e r h. sym (ap after_put h);
  items_send = contents_send;
  items_none = contents-none;
  items_some = contents-some;
  items_return = λ x r. refl;
}

-- A twelve-byte log frame, and a control frame.
abbrev pub log_frame : List ℕ
log_frame = 1 ∷ kind_log_stream ∷ 0 ∷ 0 ∷ 0 ∷ 0 ∷ 0 ∷ 0 ∷ 0 ∷ 0 ∷ 0 ∷ 0 ∷ []

abbrev pub control_frame : List ℕ
control_frame = 1 ∷ 1 ∷ 0 ∷ 0 ∷ 0 ∷ 0 ∷ 0 ∷ 0 ∷ 0 ∷ 0 ∷ 0 ∷ 0 ∷ []

unfoldable pub fresh : Shared Ring Bool
unfolding create_queues make_mutex create_rings make_rings lacks_ring
fresh = first_shared small_port true

abbrev pub plugged : Shared Ring Bool → Shared Ring Bool
plugged s = on_queue (link_changed small_port true s.queue) s

abbrev pub began_session : Shared Ring Bool → Shared Ring Bool
began_session s = on_queue (begin_session small_port cable s.queue).1 s
