-- ===== src/Session/Refuse/Frames.antt =====
-- The frame assembly only answers.
use sidp_client.Defs.{LostReason}
use sidp_client.Session.Frame.{send_target_lost}
use sidp_client.Backend.{Host}
use sidp_client.Base.{ℕ, ◌≡◌, refl, Option, none, some, List, [], ◌∷◌}
use sidp_client.Defs.{Status}
use sidp_client.Session.Attach.{op_get_state}
use sidp_client.Session.Frame.{
  store_at, kill_transport, finish_with, respond, send_response, offer, finish_frame, put,
  begin_frame,
}
use sidp_client.Session.Refuse.Defs.{Answers, target_of, Answers-preorder}
use sidp_client.Session.Sound.{Sound, sound_rules}
use sidp_client.Session.State.{modify, call, ◌>>=◌, Session}

module _ {W : Type 0} (h : Host W) where
  quiet-Answers :
      (f : Session W → Session W)
      → ((s : Session W) → target_of (f s) ≡ target_of s)
      → ((s : Session W) → (f s).world ≡ s.world)
      → Sound (Answers h) (modify f)
  unfolding modify
  quiet-Answers f same world = record {
    at = λ s. record { same = same s; frames = []; outside = world s };
  }

  header-Answers :
      (size : ℕ) (bs : List ℕ)
      → Sound (Answers h) (
          modify
            λ (s : Session W). record s { tx_frame_size = size; scratch = store_at 0 bs s.scratch })
  unfolding target_of
  header-Answers size bs = quiet-Answers _ (λ s. refl) λ s. refl

  pub put-Answers : (off : ℕ) (bs : List ℕ) → Sound (Answers h) (put h off bs)
  unfolding put target_of
  put-Answers off bs = quiet-Answers _ (λ s. refl) λ s. refl

  pub begin_frame-Answers :
      (kind opcode id size : ℕ) → Sound (Answers h) (begin_frame h kind opcode id size)
  unfolding begin_frame
  begin_frame-Answers kind opcode id size =
      search (sound_rules, Answers-preorder, header-Answers) depth 12

  kill_transport-Answers : Sound (Answers h) (kill_transport h)
  unfolding kill_transport ◌>>=◌ target_of
  kill_transport-Answers = record { at = λ s. record { same = refl; frames = []; outside = refl } }

  staged-Answers :
      (frame : List ℕ)
      → Sound
          (Answers h)
          (modify λ (s : Session W). record s { scratch = store_at 0 frame s.scratch })
  unfolding target_of
  staged-Answers frame = quiet-Answers _ (λ s. refl) λ s. refl

  sent-Answers :
      (frame : List ℕ)
      → Sound (Answers h) (modify λ (s : Session W). record s { sent = frame ∷ s.sent })
  unfolding target_of
  sent-Answers frame = quiet-Answers _ (λ s. refl) λ s. refl

  tx_sink-Answers : (frame : List ℕ) → Sound (Answers h) (call (h.tx_sink frame))
  unfolding call target_of
  tx_sink-Answers frame = record {
    at = λ s. record { same = refl; frames = frame ∷ []; outside = refl };
  }

  offer-Answers : (frame : List ℕ) → Sound (Answers h) (offer h frame)
  unfolding offer
  offer-Answers frame =
      search
        (
          sound_rules, Answers-preorder, staged-Answers, sent-Answers, tx_sink-Answers,
          kill_transport-Answers,
        )
        depth 16

  finish_with-Answers : (frame : Option (List ℕ)) → Sound (Answers h) (finish_with h frame)
  unfolding finish_with
  finish_with-Answers none = kill_transport-Answers
  finish_with-Answers (some frame) = offer-Answers frame

  pub finish_frame-Answers : Sound (Answers h) (finish_frame h)
  unfolding finish_frame
  finish_frame-Answers =
      search (sound_rules, Answers-preorder, kill_transport-Answers, finish_with-Answers) depth 16

  pub send_response-Answers :
      (opcode id : ℕ) (status : Status) (payload : List ℕ)
      → Sound (Answers h) (send_response h opcode id status payload)
  unfolding send_response
  send_response-Answers opcode id status payload =
      search (sound_rules, Answers-preorder, begin_frame-Answers, put-Answers, finish_frame-Answers)
        depth 16

  pub respond-Answers :
      (opcode id : ℕ) (status : Status) → Sound (Answers h) (respond h opcode id status)
  unfolding respond
  respond-Answers opcode id status =
      search (sound_rules, Answers-preorder, send_response-Answers) depth 12

  pub send_target_lost-Answers :
      (reason : LostReason) → Sound (Answers h) (send_target_lost h reason)
  unfolding send_target_lost
  send_target_lost-Answers reason =
      search (sound_rules, Answers-preorder, begin_frame-Answers, put-Answers, finish_frame-Answers)
        depth 16

  pub op_get_state-Answers :
      (id : ℕ) (payload : List ℕ) → Sound (Answers h) (op_get_state h id payload)
  unfolding op_get_state
  op_get_state-Answers id payload =
      search
        (
          sound_rules, Answers-preorder, begin_frame-Answers, put-Answers, finish_frame-Answers,
          respond-Answers,
        )
        depth 24
