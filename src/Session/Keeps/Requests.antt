-- ===== src/Session/Keeps/Requests.antt =====
-- Every entry point of the session keeps the invariant, the checksums of what was sent, and a dead
-- transport's silence.
use sidp_client.Backend.{Host}
use sidp_client.Base.{ℕ, List, [], ◌∷◌}
use sidp_client.Defs.{Status}
use sidp_client.Session.Dispatch.{gated, gate_table, Gate, dispatch, serve, Column, handle_request}
use sidp_client.Session.Keeps.Attach.{op_detach-Keeps, op_get_state-Keeps, op_attach-Keeps}
use sidp_client.Session.Keeps.Control.{op_reset_halt-Keeps, op_reset_run-Keeps, op_halt-Keeps}
use sidp_client.Session.Keeps.Defs.{Keeps-refl, Keeps, Keeps-preorder, Keeps-trans}
use sidp_client.Session.Keeps.Frames.{respond-Keeps}
use sidp_client.Session.Keeps.Lifecycle.{init-Keeps, handle_poll-Keeps, handle_disconnect-Keeps}
use sidp_client.Session.Keeps.Memory.{op_write_memory-Keeps, op_read_memory-Keeps}
use sidp_client.Session.Keeps.Registers.{op_write_registers-Keeps, op_read_registers-Keeps}
use sidp_client.Session.Keeps.Runs.{op_run-Keeps}
use sidp_client.Session.Lifecycle.{handle_poll, init, handle_disconnect}
use sidp_client.Session.Sound.{Sound, sound_rules}
use sidp_client.Session.State.{Session, gets, ◌>>=◌}

module _ {W : Type 0} (h : Host W) where
  serve-Keeps : (opcode id : ℕ) (payload : List ℕ) → Sound Keeps (serve h opcode id payload)
  unfolding serve
  serve-Keeps opcode id payload =
      search
        (
          sound_rules, Keeps-preorder, op_attach-Keeps, op_detach-Keeps, op_get_state-Keeps,
          op_read_memory-Keeps, op_write_memory-Keeps, op_read_registers-Keeps,
          op_write_registers-Keeps, op_run-Keeps, op_halt-Keeps, op_reset_halt-Keeps,
          op_reset_run-Keeps,
        )
        depth 24

  gated-Keeps :
      (gate : Gate) (opcode id : ℕ) (payload : List ℕ)
      → Sound Keeps (gated h gate opcode id payload)
  unfolding gated
  gated-Keeps Gate.attach_busy opcode id payload = respond-Keeps h opcode id Status.busy
  gated-Keeps Gate.detached_error opcode id payload = respond-Keeps h opcode id Status.error
  gated-Keeps Gate.running_deny opcode id payload = respond-Keeps h opcode id Status.target_running
  gated-Keeps Gate.lost opcode id payload = respond-Keeps h opcode id Status.target_lost
  gated-Keeps Gate.allow opcode id payload = serve-Keeps opcode id payload

  known-Keeps :
      (column : Column) (opcode id : ℕ) (payload : List ℕ)
      → Sound Keeps (
          gets (λ (s : Session W). s.state) >>= λ state.
          gated h (gate_table state column) opcode id payload)
  known-Keeps column opcode id payload = search (sound_rules, Keeps-preorder, gated-Keeps) depth 12

  dispatch-Keeps :
      (column : Column) (opcode id : ℕ) (payload : List ℕ)
      → Sound Keeps (dispatch h column opcode id payload)
  unfolding dispatch
  dispatch-Keeps Column.unknown opcode id payload =
      search (sound_rules, Keeps-preorder, respond-Keeps) depth 12
  dispatch-Keeps Column.attach opcode id payload = known-Keeps Column.attach opcode id payload
  dispatch-Keeps Column.detach opcode id payload = known-Keeps Column.detach opcode id payload
  dispatch-Keeps Column.get_state opcode id payload = known-Keeps Column.get_state opcode id payload
  dispatch-Keeps Column.read_mem opcode id payload = known-Keeps Column.read_mem opcode id payload
  dispatch-Keeps Column.write_mem opcode id payload = known-Keeps Column.write_mem opcode id payload
  dispatch-Keeps Column.read_regs opcode id payload = known-Keeps Column.read_regs opcode id payload
  dispatch-Keeps Column.write_regs opcode id payload =
      known-Keeps Column.write_regs opcode id payload
  dispatch-Keeps Column.run opcode id payload = known-Keeps Column.run opcode id payload
  dispatch-Keeps Column.halt opcode id payload = known-Keeps Column.halt opcode id payload
  dispatch-Keeps Column.reset opcode id payload = known-Keeps Column.reset opcode id payload

  handle_request-Keeps : (message : List ℕ) → Sound Keeps (handle_request h message)
  unfolding handle_request
  handle_request-Keeps message = search (sound_rules, Keeps-preorder, dispatch-Keeps) depth 24

-- What a caller can do to a session.
pub data Input : Type 0 where
  start disconnect poll : Input
  request : List ℕ → Input

abbrev pub handle : {W : Type 0} → Host W → Input → Session W → Session W
handle h Input.start s = (init h s).1
handle h Input.disconnect s = (handle_disconnect h s).1
handle h Input.poll s = (handle_poll h s).1
handle h (Input.request message) s = (handle_request h message s).1

-- The session after a sequence of inputs, the first input first.
abbrev pub handle_all : {W : Type 0} → Host W → List Input → Session W → Session W
handle_all h [] s = s
handle_all h (i ∷ inputs) s = handle_all h inputs (handle h i s)

pub handle-Keeps : {W : Type 0} (h : Host W) (i : Input) (s : Session W) → Keeps s (handle h i s)
handle-Keeps h Input.start s = (init-Keeps h).at s
handle-Keeps h Input.disconnect s = (handle_disconnect-Keeps h).at s
handle-Keeps h Input.poll s = (handle_poll-Keeps h).at s
handle-Keeps h (Input.request message) s = (handle_request-Keeps h message).at s

pub handle_all-Keeps :
    {W : Type 0} (h : Host W) (inputs : List Input) (s : Session W)
    → Keeps s (handle_all h inputs s)
handle_all-Keeps h [] s = Keeps-refl s
handle_all-Keeps h (i ∷ inputs) s =
    Keeps-trans s (handle h i s) _ (handle-Keeps h i s) (handle_all-Keeps h inputs (handle h i s))
