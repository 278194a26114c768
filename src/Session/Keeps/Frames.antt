-- ===== src/Session/Keeps/Frames.antt =====
-- The frame assembly keeps the invariant, and only frames with a correct checksum get out.
use sidp_client.Base.{◌≤◌}
use sidp_client.Base.{length-take}
use sidp_client.Base.{length}
use sidp_client.Base.{◌-◌}
use sidp_client.Base.{leb}
use sidp_client.Base.{◌||◌}
use sidp_client.Session.Frame.{is_null}
use sidp_client.Session.Sound.{if-at}
use sidp_client.Base.{
  ℕ, ◌≡◌, refl, Bool, true, false, not, if◌then◌else◌, Option, none, some, List, arith, take,
}
use sidp_client.Backend.{Host}
use sidp_client.Defs.{Status, LostReason}
use sidp_client.Crc.{set_message_crc}
use sidp_client.Crc.Messages.{verify-set}
use sidp_client.Session.State.{Session, call, modify, gets, pure, ◌>>=◌}
use sidp_client.Session.Sound.{Sound, sound_rules}
use sidp_client.Session.Frame.{
  bytes_of, begin_frame, put, kill_transport, offer, finish_with, finish_frame, send_response,
  respond, send_stopped, send_target_lost,
}
use sidp_client.Defs.Limits
use sidp_client.Session.Keeps.Defs.{HasCrc, IsValid, Keeps, Keeps-refl, Keeps-preorder}

module _ {W : Type 0} where
  pub call-Keeps : {A : Type 0} (f : W → A × W) → Sound Keeps (call f)
  unfolding call
  call-Keeps f = record { at = λ s. ground arith }

  -- A part that leaves the frames, the buffers and the tables alone.
  pub modify-Keeps :
      (f : Session W → Session W) → ((s : Session W) → Keeps s (f s)) → Sound Keeps (modify f)
  unfolding modify
  modify-Keeps f k = record { at = k }

module _ {W : Type 0} (h : Host W) where
  pub put-Keeps : (off : ℕ) (bs : List ℕ) → Sound Keeps (put h off bs)
  unfolding put modify
  put-Keeps off bs = record { at = λ s. ground arith }

  -- The guard on the payload's size stands before the frame's size is set.
  pub begin_frame-Keeps :
      (kind opcode id size : ℕ) → Sound Keeps (begin_frame h kind opcode id size)
  unfolding begin_frame ◌>>=◌ gets modify pure
  begin_frame-Keeps kind opcode id size = record {
    at = λ s.
        if-at Keeps
          (is_null s.scratch || not (leb size (Limits.max_frame_size - Limits.header_size)))
          (pure false) _ s (Keeps-refl s) (λ room. ground arith);
  }

  kill_transport-Keeps : Sound Keeps (kill_transport h)
  unfolding kill_transport ◌>>=◌
  kill_transport-Keeps = record { at = λ s. ground arith }

  -- The sink is offered a frame only while the transport lives.
  offer-Keeps :
      (frame : List ℕ) (s : Session W)
      → HasCrc frame
      → (IsValid s → length frame ≤ Limits.max_frame_size)
      → s.transport_dead ≡ false
      → Keeps s (offer h frame s).1
  unfolding offer kill_transport ◌>>=◌
  offer-Keeps frame s c fits live = ground arith

  finish_with-Keeps :
      (s : Session W) (message : List ℕ) (o : Option (List ℕ))
      → set_message_crc message ≡ o
      → (IsValid s → length message ≤ Limits.max_frame_size)
      → s.transport_dead ≡ false
      → Keeps s (finish_with h o s).1
  unfolding finish_with
  finish_with-Keeps s message none e fits live = kill_transport-Keeps.at s
  finish_with-Keeps s message (some frame) e fits live =
      offer-Keeps frame s (verify-set message e).0
        (λ v. let same = (verify-set message e).1 in let most = fits v in omega (arith, same, most))
        live

  -- `finish_frame` once its session is read.
  checked-Keeps :
      (s : Session W) (dead sink : Bool) (message : List ℕ)
      → (IsValid s → length message ≤ Limits.max_frame_size)
      → s.transport_dead ≡ dead
      → Keeps s
          ((if dead
              then pure false
              else if not sink
              then kill_transport h
              else finish_with h (set_message_crc message))
            s).1
  unfolding pure
  checked-Keeps s true sink message fits e = Keeps-refl s
  checked-Keeps s false false message fits e = (kill_transport-Keeps).at s
  checked-Keeps s false true message fits e =
      finish_with-Keeps s message (set_message_crc message) refl fits e

  pub finish_frame-Keeps : Sound Keeps (finish_frame h)
  unfolding finish_frame ◌>>=◌ gets
  finish_frame-Keeps = record {
    at = λ s.
        checked-Keeps s s.transport_dead s.has_sink (take s.tx_frame_size (bytes_of s.scratch))
          (λ v.
            let cut = length-take {0} s.tx_frame_size (bytes_of s.scratch) in
            let most = v.frame_fits in ground (arith, cut, most))
          refl;
  }

  ruleset frame_rules =
      (sound_rules, Keeps-preorder, begin_frame-Keeps, put-Keeps, finish_frame-Keeps)

  pub send_response-Keeps :
      (opcode id : ℕ) (status : Status) (payload : List ℕ)
      → Sound Keeps (send_response h opcode id status payload)
  unfolding send_response
  send_response-Keeps opcode id status payload = search frame_rules depth 12

  pub respond-Keeps : (opcode id : ℕ) (status : Status) → Sound Keeps (respond h opcode id status)
  unfolding respond
  respond-Keeps opcode id status = search (sound_rules, Keeps-preorder, send_response-Keeps)

  reported-Keeps :
      (reported : Bool)
      → Sound Keeps (modify λ (s : Session W). record s { stop_reported = reported })
  reported-Keeps reported = modify-Keeps _ λ s. ground arith

  pub send_stopped-Keeps : Sound Keeps (send_stopped h)
  unfolding send_stopped
  send_stopped-Keeps = search (frame_rules, reported-Keeps) depth 16

  pub send_target_lost-Keeps : (reason : LostReason) → Sound Keeps (send_target_lost h reason)
  unfolding send_target_lost
  send_target_lost-Keeps reason = search frame_rules depth 12
