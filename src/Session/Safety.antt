-- ===== src/Session/Safety.antt =====
-- What holds of a session of sidp_session.cpp whatever its host does and whatever messages, polls and
-- disconnects come in.
use sidp_client.Backend.{Host}
use sidp_client.Base.{◌≡◌, Bool, true, List, arith}
use sidp_client.Session.Keeps.Defs.{HasCrc, All, IsValid}
use sidp_client.Session.Keeps.Requests.{Input, handle_all, handle_all-Keeps}
use sidp_client.Session.Start.{new_session}
use sidp_client.Session.State.{Session}

new_session-IsValid : {W : Type 0} (w : W) (sink : Bool) → IsValid (new_session w sink)
new_session-IsValid w sink = ground arith

-- After any sequence of inputs to a new session, with any host, every frame that the sink has
-- accepted is a message whose checksum verifies.
pub sent-HasCrc :
    {W : Type 0} (h : Host W) (w : W) (sink : Bool) (inputs : List Input)
    → All HasCrc (handle_all h inputs (new_session w sink)).sent
sent-HasCrc h w sink inputs = (handle_all-Keeps h inputs (new_session w sink)).crc tt

-- After any sequence of inputs to a new session, with any host: the frame that the session assembles
-- and every frame that the sink has accepted are no longer than the frame buffer of 8192 bytes, the registers and the stack of the pending snapshot fit the frame of a STOPPED
-- event together, the breakpoint table holds at most 32 entries and the memory map at most 64.
pub buffers-IsValid :
    {W : Type 0} (h : Host W) (w : W) (sink : Bool) (inputs : List Input)
    → IsValid (handle_all h inputs (new_session w sink))
buffers-IsValid h w sink inputs =
    (handle_all-Keeps h inputs (new_session w sink)).valid (new_session-IsValid w sink)

-- Once the transport is dead it stays dead, and no input makes the session send anything.
pub dead_silent :
    {W : Type 0} (h : Host W) (s : Session W) (inputs : List Input)
    → s.transport_dead ≡ true
    → ((handle_all h inputs s).transport_dead ≡ true) × ((handle_all h inputs s).sent ≡ s.sent)
dead_silent h s inputs dead = (handle_all-Keeps h inputs s).dead dead
