-- ===== src/Session/State.antt =====
-- `sidp_session` of include/sidp_session.hpp: its members, and the actions on them. `world` is the
-- state of what lies outside (backend, sink, allocator), and `sent` lists the frames that the sink
-- accepted, the latest first; it has no member in the source. A pointer that `init` sets is an
-- `Option`, or a flag beside the used part of its table: `regions` and `sw_table` hold the first
-- `region_count` and `sw_count` entries, `hw_breakpoint_ids` the first `hw_count`.
use sidp_client.Base.{ℕ, Bool, Option, List}
use sidp_client.Defs.{TargetState, StopReason}

-- `memory_region_t`.
pub record Region : Type 0 where
  pub start : ℕ
  pub length : ℕ
  pub type : ℕ
  pub flags : ℕ

-- `sw_bp_t`; `original` has four bytes.
pub record SwBp : Type 0 where
  pub id : ℕ
  pub address : ℕ
  pub instruction_size : ℕ
  pub installed : Bool
  pub original : List ℕ

-- The members `pending_*`, but for the buffer.
pub record Pending : Type 0 where
  pub reason : StopReason
  pub detail : ℕ
  pub breakpoint_id : ℕ
  pub watchpoint_address : ℕ
  pub registers_size : ℕ
  pub stack_address : ℕ
  pub stack_size : ℕ

pub record Session (W : Type 0) : Type 0 where
  pub world : W
  pub sent : List (List ℕ)
  pub has_sink : Bool
  pub state : TargetState
  pub stop_id : ℕ
  pub stop_reported : Bool
  pub attached : Bool
  pub transport_dead : Bool
  pub capabilities : ℕ
  pub supported_vector_catch : ℕ
  pub hardware_breakpoint_limit : ℕ
  pub hardware_watchpoint_limit : ℕ
  pub max_memory_transfer : ℕ
  pub running_action : ℕ
  pub run_to_active : Bool
  pub active_run_to_address : ℕ
  pub hw_breakpoint_ids : List ℕ
  pub sw_step_over_pending : Bool
  pub sw_step_over_address : ℕ
  pub scratch : Option (List ℕ)
  pub tx_frame_size : ℕ
  pub pending : Pending
  pub pending_registers : Option (List ℕ)
  pub has_regions : Bool
  pub regions : List Region
  pub has_sw_table : Bool
  pub sw_table : List SwBp

-- An action on the session; the methods of the source are `noexcept`.
abbrev pub M : Type 0 → Type 0 → Type 0
M W A = Session W → A × Session W

module _ {W A : Type 0} where
  unfoldable pub pure : A → M W A
  pure a s = (a, s)

  -- Reads the members.
  unfoldable pub gets : (Session W → A) → M W A
  gets f s = (f s, s)

  -- Calls what lies outside.
  unfoldable pub call : (W → A × W) → M W A
  call f s = let (a, w) = f s.world in (a, record s { world = w })

module _ {W : Type 0} where
  -- Assigns members.
  unfoldable pub modify : (Session W → Session W) → M W (Unit {0})
  modify f s = (tt, f s)

  unfoldable pub skip : M W (Unit {0})
  skip s = (tt, s)

module _ {W A B : Type 0} where
  infixl 5 ◌>>=◌ ◌>>◌
  unfoldable pub ◌>>=◌ : M W A → (A → M W B) → M W B
  unfolding pure gets call modify skip
  ◌>>=◌ m f s = let (a, s') = m s in f a s'

  abbrev pub ◌>>◌ : M W A → M W B → M W B
  m >> n = m >>= λ _. n

-- A run of an action, of which only the state after it matters.
abbrev pub run : {W A : Type 0} → M W A → Session W → Session W
run m s = (m s).1
