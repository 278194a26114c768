-- ===== src/Session/Refuse/Gate.antt =====
-- The gate of `handle_request`: what each target state lets through.
use sidp_client.Backend.{Host}
use sidp_client.Base.{
  ℕ, ◌≡◌, refl, sym, ◌∙◌, ◌≢◌, Bool, true, false, not, ◌&&◌, ◌||◌, List, arith, ◌==◌, if◌then◌else◌,
  drop, length, field,
}
use sidp_client.Crc.{is_valid_message_size}
use sidp_client.Defs.{kind_request, TargetState, Status, is_lost}
use sidp_client.Defs.Limits
use sidp_client.Defs.Opcode
use sidp_client.Session.Dispatch.{
  handle_request, Column, gated, gate_table, dispatch, gate_column, Gate,
}
use sidp_client.Session.Frame.{respond}
use sidp_client.Session.Refuse.Defs.{Answers-preorder, Answers-refl, Answers}
use sidp_client.Session.Refuse.Frames.{respond-Answers}
use sidp_client.Session.Sound.{if-at, sound_rules, Sound}
use sidp_client.Session.State.{Session, skip, ◌>>=◌, gets}

-- The gating matrix of the protocol, by opcode: DETACHED takes ATTACH and GET_STATE, HALTED all but
-- ATTACH, RUNNING all but ATTACH, RUN and the register requests, LOST only GET_STATE.
abbrev pub is_known : ℕ → Bool
is_known opcode =
    opcode == Opcode.attach
    || opcode == Opcode.detach
    || opcode == Opcode.get_state
    || opcode == Opcode.read_memory
    || opcode == Opcode.write_memory
    || opcode == Opcode.read_registers
    || opcode == Opcode.write_registers
    || opcode == Opcode.run
    || opcode == Opcode.halt
    || opcode == Opcode.reset_halt
    || opcode == Opcode.reset_run

abbrev pub permits : TargetState → ℕ → Bool
permits TargetState.detached opcode = opcode == Opcode.attach || opcode == Opcode.get_state
permits TargetState.halted opcode = is_known opcode && not (opcode == Opcode.attach)
permits TargetState.running opcode =
    is_known opcode
    && not (
        opcode == Opcode.attach
        || opcode == Opcode.run
        || opcode == Opcode.read_registers
        || opcode == Opcode.write_registers)
permits TargetState.lost opcode = opcode == Opcode.get_state

-- The same, by the table of the source.
abbrev is_allow : Gate → Bool
is_allow Gate.allow = true
is_allow _ = false

abbrev allows : TargetState → Column → Bool
allows state Column.unknown = false
allows state column = is_allow (gate_table state column)

permits-eq-allows :
    (state : TargetState) (opcode : ℕ) → permits state opcode ≡ allows state (gate_column opcode)
unfolding gate_column gate_table
permits-eq-allows TargetState.detached opcode = ground arith
permits-eq-allows TargetState.halted opcode = ground arith
permits-eq-allows TargetState.running opcode = ground arith
permits-eq-allows TargetState.lost opcode = ground arith

denies : (gate : Gate) → is_allow gate ≡ false → gate ≢ Gate.allow
denies gate e = ground arith

module _ {W : Type 0} (h : Host W) where
  gated-Answers :
      (gate : Gate) (opcode id : ℕ) (payload : List ℕ)
      → gate ≢ Gate.allow
      → Sound (Answers h) (gated h gate opcode id payload)
  unfolding gated
  gated-Answers Gate.attach_busy opcode id payload denied = respond-Answers h opcode id Status.busy
  gated-Answers Gate.detached_error opcode id payload denied =
      respond-Answers h opcode id Status.error
  gated-Answers Gate.running_deny opcode id payload denied =
      respond-Answers h opcode id Status.target_running
  gated-Answers Gate.lost opcode id payload denied = respond-Answers h opcode id Status.target_lost
  gated-Answers Gate.allow opcode id payload denied = elim (denied refl) [ ]

  column-Answers :
      (column : Column) (opcode id : ℕ) (payload : List ℕ) (s : Session W)
      → gate_table s.state column ≢ Gate.allow
      → Answers h s
          ((gets (λ (s : Session W). s.state) >>= λ state.
              gated h (gate_table state column) opcode id payload)
            s).1
  unfolding ◌>>=◌ gets
  column-Answers column opcode id payload s denied =
      (gated-Answers (gate_table s.state column) opcode id payload denied).at s

  unknown-Answers :
      (opcode id : ℕ)
      → Sound (Answers h) (
          gets (λ (s : Session W). is_lost s.state) >>= λ gone.
          respond h opcode id (if gone then Status.target_lost else Status.unsupported))
  unknown-Answers opcode id = search (sound_rules, Answers-preorder, respond-Answers) depth 12

  dispatch-Answers :
      (column : Column) (opcode id : ℕ) (payload : List ℕ) (s : Session W)
      → allows s.state column ≡ false
      → Answers h s (dispatch h column opcode id payload s).1
  unfolding dispatch
  dispatch-Answers Column.attach opcode id payload s e =
      column-Answers Column.attach opcode id payload s (denies (gate_table s.state Column.attach) e)
  dispatch-Answers Column.detach opcode id payload s e =
      column-Answers Column.detach opcode id payload s (denies (gate_table s.state Column.detach) e)
  dispatch-Answers Column.get_state opcode id payload s e =
      column-Answers Column.get_state opcode id payload s
        (denies (gate_table s.state Column.get_state) e)
  dispatch-Answers Column.read_mem opcode id payload s e =
      column-Answers Column.read_mem opcode id payload s
        (denies (gate_table s.state Column.read_mem) e)
  dispatch-Answers Column.write_mem opcode id payload s e =
      column-Answers Column.write_mem opcode id payload s
        (denies (gate_table s.state Column.write_mem) e)
  dispatch-Answers Column.read_regs opcode id payload s e =
      column-Answers Column.read_regs opcode id payload s
        (denies (gate_table s.state Column.read_regs) e)
  dispatch-Answers Column.write_regs opcode id payload s e =
      column-Answers Column.write_regs opcode id payload s
        (denies (gate_table s.state Column.write_regs) e)
  dispatch-Answers Column.run opcode id payload s e =
      column-Answers Column.run opcode id payload s (denies (gate_table s.state Column.run) e)
  dispatch-Answers Column.halt opcode id payload s e =
      column-Answers Column.halt opcode id payload s (denies (gate_table s.state Column.halt) e)
  dispatch-Answers Column.reset opcode id payload s e =
      column-Answers Column.reset opcode id payload s (denies (gate_table s.state Column.reset) e)
  dispatch-Answers Column.unknown opcode id payload s e = (unknown-Answers opcode id).at s

  -- A request that the gating matrix does not permit in the state of the target, whatever its
  -- payload: the backend is not called, and no member but those of the frame assembly changes.
  pub denied-Answers :
      (s : Session W) (message : List ℕ)
      → permits s.state (field message 2 2) ≡ false
      → Answers h s (handle_request h message s).1
  unfolding handle_request ◌>>=◌ gets skip
  denied-Answers s message e =
      let opcode = field message 2 2 in
      if-at (Answers h) (s.transport_dead || not (is_valid_message_size (length message))) skip _ s
        (Answers-refl h s)
        λ valid.
          if-at (Answers h) (not (field message 0 1 == Limits.protocol_version)) skip _ s
            (Answers-refl h s)
            λ version.
              if-at (Answers h) (not (field message 1 1 == kind_request) || field message 4 4 == 0)
                skip _ s (Answers-refl h s)
                λ kind.
                  dispatch-Answers (gate_column opcode) opcode (field message 4 4)
                    (drop Limits.header_size message) s (sym (permits-eq-allows s.state opcode) ∙ e)
