-- ===== src/Transport/Spec.antt =====
-- What the packet queues promise, without rings, locks or counters: three first-in-first-out lists
-- that live as long as a session, a packet at the reader and a frame on the wire.
use sidp_client.Base.{
  ℕ, ◌≤◌, ◌≡◌, Bool, true, false, Option, none, some, List, [], ◌∷◌, ◌++◌, if◌then◌else◌, length,
  field,
}
use sidp_client.Crc.{verify_message_crc}
use sidp_client.Defs.{kind_log_stream}
use sidp_client.Defs.Limits
use sidp_client.Transport.Sizes

pub data Event : Type 0 where
  quiet closed began : Event
  wrote logged took took_log heard fetched : List ℕ → Event
  ended : Event
  finished : Event

pub record View : Type 0 where
  pub live : Bool
  pub inbox : List (List ℕ)
  pub control : List (List ℕ)
  pub logs : List (List ℕ)
  pub reading : Option (List ℕ)
  pub sending : Option (List ℕ)

-- A session that ends loses what is queued; a packet at the reader or a frame on the wire stays.
abbrev pub closed_view : View → View
closed_view v = record v { live = false; inbox = []; control = []; logs = [] }

abbrev pub first_view : View
first_view = record {
  live = false;
  inbox = [];
  control = [];
  logs = [];
  reading = none;
  sending = none;
}

-- A packet that may reach the reader, and the frames that may be queued.
pub record IsPacket (p : List ℕ) : Type 0 where
  pub long_enough : Limits.header_size ≤ length p
  pub short_enough : length p ≤ Limits.max_frame_size
  pub crc_matches : verify_message_crc p ≡ true
  pub known_version : field p 0 1 ≡ Limits.protocol_version

pub record IsFrame (limit : ℕ) (m : List ℕ) : Type 0 where
  pub long_enough : Limits.header_size ≤ length m
  pub short_enough : length m ≤ limit

pub data Does : View → Event → View → Type 0 where
  quiet : {v : View} → Does v Event.quiet v
  close : {v t : View} → t ≡ closed_view v → Does v Event.closed t
  -- A session begins dead, with nothing at the reader and nothing on the wire.
  begin :
      {v t : View}
      → v.live ≡ false
      → v.reading ≡ none
      → v.sending ≡ none
      → t ≡ record first_view { live = true }
      → Does v Event.began t
  write :
      {v t : View} (m : List ℕ)
      → IsFrame Limits.max_frame_size m
      → v.live ≡ true
      → t ≡ record v { control = v.control ++ m ∷ [] }
      → Does v (Event.wrote m) t
  log :
      {v t : View} (m : List ℕ)
      → IsFrame Sizes.max_log_frame_size m
      → field m 1 1 ≡ kind_log_stream
      → v.live ≡ true
      → t ≡ record v { logs = v.logs ++ m ∷ [] }
      → Does v (Event.logged m) t
  hear :
      {v t : View} (p : List ℕ)
      → IsPacket p
      → v.live ≡ true
      → t ≡ record v { inbox = v.inbox ++ p ∷ [] }
      → Does v (Event.heard p) t
  fetch :
      {v t : View} (p : List ℕ) (rest : List (List ℕ))
      → v.live ≡ true
      → v.inbox ≡ p ∷ rest
      → v.reading ≡ none
      → t ≡ record v { inbox = rest; reading = some p }
      → Does v (Event.fetched p) t
  end : {v t : View} → t ≡ record v { reading = none } → Does v Event.ended t
  take_first :
      {v t : View} (m : List ℕ) (rest : List (List ℕ))
      → v.live ≡ true
      → v.sending ≡ none
      → v.control ≡ m ∷ rest
      → t ≡ record v { control = rest; sending = some m }
      → Does v (Event.took m) t
  -- A log goes out only when no control frame waits.
  take_any_log :
      {v t : View} (m : List ℕ) (rest : List (List ℕ))
      → v.live ≡ true
      → v.sending ≡ none
      → v.control ≡ []
      → v.logs ≡ m ∷ rest
      → t ≡ record v { logs = rest; sending = some m }
      → Does v (Event.took_log m) t
  finish : {v t : View} → t ≡ record v { sending = none } → Does v Event.finished t
  -- A frame that did not reach the wire ends the session.
  fail : {v t : View} → t ≡ record (closed_view v) { sending = none } → Does v Event.closed t

-- The events of a view since the start, the latest first.
pub data Run : List Event → View → Type 0 where
  start : Run [] first_view
  next :
      {es : List Event} {v : View} {e : Event} {t : View} → Run es v → Does v e t → Run (e ∷ es) t

-- What an event adds to a queue and what it removes; a boundary of sessions starts afresh.
abbrev is_boundary : Event → Bool
is_boundary Event.closed = true
is_boundary Event.began = true
is_boundary _ = false

abbrev frame_of : (Event → Option (List ℕ)) → Event → List (List ℕ)
frame_of pick e = elim (pick e) [ none ↦ [] | some m ↦ m ∷ [] ]

-- The frames of the session that is running, or was the last, in order.
unfoldable pub since : (Event → Option (List ℕ)) → List Event → List (List ℕ)
since pick [] = []
since pick (e ∷ es) = if is_boundary e then [] else since pick es ++ frame_of pick e

abbrev pub written_frame : Event → Option (List ℕ)
written_frame (Event.wrote m) = some m
written_frame _ = none

abbrev pub taken_frame : Event → Option (List ℕ)
taken_frame (Event.took m) = some m
taken_frame _ = none

abbrev pub logged_frame : Event → Option (List ℕ)
logged_frame (Event.logged m) = some m
logged_frame _ = none

abbrev pub taken_log : Event → Option (List ℕ)
taken_log (Event.took_log m) = some m
taken_log _ = none

abbrev pub heard_packet : Event → Option (List ℕ)
heard_packet (Event.heard m) = some m
heard_packet _ = none

abbrev pub fetched_packet : Event → Option (List ℕ)
fetched_packet (Event.fetched m) = some m
fetched_packet _ = none

-- Within a session each queue gives out exactly what was put in, in order, and holds the rest.
abbrev pub InOrder : List Event → View → Type 0
InOrder es v =
    since written_frame es ≡ since taken_frame es ++ v.control
    × since logged_frame es ≡ since taken_log es ++ v.logs
    × since heard_packet es ≡ since fetched_packet es ++ v.inbox
