-- ===== src/Session/Refuse/Lost.antt =====
-- A lost target: nothing but a disconnect reaches it.
-- A request or a poll.
use sidp_client.Backend.{Host}
use sidp_client.Base.{
  ℕ, ◌≡◌, sym, ap, subst, ◌∙◌, inl, inr, Bool, true, false, not, ◌||◌, List, [], ◌∷◌, arith,
  Bool-cases, ◌==◌, length, drop, field,
}
use sidp_client.Crc.{is_valid_message_size}
use sidp_client.Defs.{kind_request, is_running, Status, TargetState}
use sidp_client.Defs.Limits
use sidp_client.Defs.Opcode
use sidp_client.Session.Dispatch.{
  dispatch, serve, Column, Gate, gated, gate_table, gate_column, handle_request,
}
use sidp_client.Session.Keeps.Defs.{All}
use sidp_client.Session.Keeps.Requests.{handle_all, handle, Input}
use sidp_client.Session.Lifecycle.{handle_poll, poll_once}
use sidp_client.Session.Refuse.Defs.{
  Answers-refl, Answers-trans, Answers, Answers-preorder, target_of,
}
use sidp_client.Session.Refuse.Frames.{respond-Answers, op_get_state-Answers}
use sidp_client.Session.Refuse.Gate.{denied-Answers}
use sidp_client.Session.Sound.{if-at, Sound-skip, Sound-if', Sound}
use sidp_client.Session.State.{Session, skip, gets, ◌>>=◌}

abbrev pub is_traffic : Input → Bool
is_traffic Input.poll = true
is_traffic (Input.request message) = true
is_traffic _ = false

module _ {W : Type 0} (h : Host W) where
  gated_state-Answers :
      (gate : Gate) (id : ℕ) (payload : List ℕ)
      → Sound (Answers h) (gated h gate Opcode.get_state id payload)
  unfolding gated serve
  gated_state-Answers Gate.attach_busy id payload =
      respond-Answers h Opcode.get_state id Status.busy
  gated_state-Answers Gate.detached_error id payload =
      respond-Answers h Opcode.get_state id Status.error
  gated_state-Answers Gate.running_deny id payload =
      respond-Answers h Opcode.get_state id Status.target_running
  gated_state-Answers Gate.lost id payload =
      respond-Answers h Opcode.get_state id Status.target_lost
  gated_state-Answers Gate.allow id payload = op_get_state-Answers h id payload

  get_state-Answers :
      (opcode id : ℕ) (payload : List ℕ) (s : Session W)
      → opcode ≡ Opcode.get_state
      → Answers h s (dispatch h (gate_column opcode) opcode id payload s).1
  unfolding dispatch gate_column ◌>>=◌ gets
  get_state-Answers opcode id payload s e =
      subst (λ op. Answers h s (dispatch h (gate_column op) op id payload s).1) (sym e)
        ((gated_state-Answers (gate_table s.state Column.get_state) id payload).at s)

  -- GET_STATE, in any state.
  state_query-Answers :
      (s : Session W) (message : List ℕ)
      → field message 2 2 ≡ Opcode.get_state
      → Answers h s (handle_request h message s).1
  unfolding handle_request ◌>>=◌ gets skip
  state_query-Answers s message e =
      if-at (Answers h) (s.transport_dead || not (is_valid_message_size (length message))) skip _ s
        (Answers-refl h s)
        λ valid.
          if-at (Answers h) (not (field message 0 1 == Limits.protocol_version)) skip _ s
            (Answers-refl h s)
            λ version.
              if-at (Answers h) (not (field message 1 1 == kind_request) || field message 4 4 == 0)
                skip _ s (Answers-refl h s)
                λ kind.
                  get_state-Answers (field message 2 2) (field message 4 4)
                    (drop Limits.header_size message) s e

  lost_request-Answers :
      (s : Session W) (message : List ℕ)
      → s.state ≡ TargetState.lost
      → Answers h s (handle_request h message s).1
  lost_request-Answers s message e = elim (Bool-cases (field message 2 2 == Opcode.get_state)) [
    | inl query ↦ state_query-Answers s message (ground arith)
    | inr other ↦ denied-Answers h s message (ground arith)
  ]

  lost_poll-Answers : (s : Session W) → s.state ≡ TargetState.lost → Answers h s (handle_poll h s).1
  unfolding handle_poll ◌>>=◌ gets skip
  lost_poll-Answers s e =
      (Sound-if' (s.transport_dead || (not (is_running s.state) || not s.attached)) skip
          (poll_once h) (λ idle. Sound-skip (Answers-preorder h)) λ busy. ground arith).at
        s

  lost_input-Answers :
      (s : Session W) (i : Input)
      → s.state ≡ TargetState.lost
      → is_traffic i ≡ true
      → Answers h s (handle h i s)
  lost_input-Answers s Input.poll e traffic = lost_poll-Answers s e
  lost_input-Answers s (Input.request message) e traffic = lost_request-Answers s message e
  lost_input-Answers s i e traffic = ground arith

  same_state : (s t : Session W) → target_of t ≡ target_of s → t.state ≡ s.state
  unfolding target_of
  same_state s t e = ap (λ u. u.state) e

  -- Once the target is lost, it stays lost: whatever requests and polls come in, the backend is not
  -- called, and no member but those of the frame assembly changes.
  pub lost_terminal :
      (s : Session W) (inputs : List Input)
      → s.state ≡ TargetState.lost
      → All (λ i. is_traffic i ≡ true) inputs
      → Answers h s (handle_all h inputs s)
  lost_terminal s [] e traffic = Answers-refl h s
  lost_terminal s (i ∷ inputs) e traffic =
      let t = handle h i s in
      let step = lost_input-Answers s i e traffic.0 in
      Answers-trans h s t _ step (lost_terminal t inputs (same_state s t step.same ∙ e) traffic.1)
