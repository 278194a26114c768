-- ===== src/Session/Refuse/Defs.antt =====
-- A method that only answers: of what lies outside it calls the sink alone, and of the session it
-- changes only the frame assembly.
use sidp_client.Backend.{Host}
use sidp_client.Base.{ℕ, ◌≡◌, refl, sym, ap, ◌∙◌, false, none, List, [], ◌∷◌, ◌++◌}
use sidp_client.Session.Sound.{IsPreorder}
use sidp_client.Session.State.{Session}

-- The members but for the frame assembly.
unfoldable pub target_of : {W : Type 0} → Session W → Session (Unit {0})
target_of s = record {
  world = tt;
  sent = [];
  has_sink = s.has_sink;
  state = s.state;
  stop_id = s.stop_id;
  stop_reported = s.stop_reported;
  attached = s.attached;
  transport_dead = false;
  capabilities = s.capabilities;
  supported_vector_catch = s.supported_vector_catch;
  hardware_breakpoint_limit = s.hardware_breakpoint_limit;
  hardware_watchpoint_limit = s.hardware_watchpoint_limit;
  max_memory_transfer = s.max_memory_transfer;
  running_action = s.running_action;
  run_to_active = s.run_to_active;
  active_run_to_address = s.active_run_to_address;
  hw_breakpoint_ids = s.hw_breakpoint_ids;
  sw_step_over_pending = s.sw_step_over_pending;
  sw_step_over_address = s.sw_step_over_address;
  scratch = none;
  tx_frame_size = 0;
  pending = s.pending;
  pending_registers = s.pending_registers;
  has_regions = s.has_regions;
  regions = s.regions;
  has_sw_table = s.has_sw_table;
  sw_table = s.sw_table;
}

-- The world after the sink has been offered the frames in turn.
abbrev pub offered : {W : Type 0} → Host W → List (List ℕ) → W → W
offered h [] w = w
offered h (frame ∷ frames) w = offered h frames (h.tx_sink frame w).1

pub record Answers {W : Type 0} (h : Host W) (s t : Session W) : Type 0 where
  pub same : target_of t ≡ target_of s
  pub frames : List (List ℕ)
  pub outside : t.world ≡ offered h frames s.world

offered-append :
    {W : Type 0} (h : Host W) (fs gs : List (List ℕ)) (w : W)
    → offered h (fs ++ gs) w ≡ offered h gs (offered h fs w)
offered-append h [] gs w = refl
offered-append h (f ∷ fs) gs w = offered-append h fs gs (h.tx_sink f w).1

pub Answers-refl : {W : Type 0} (h : Host W) (s : Session W) → Answers h s s
Answers-refl h s = record { same = refl; frames = []; outside = refl }

pub Answers-trans :
    {W : Type 0} (h : Host W) (s t u : Session W) → Answers h s t → Answers h t u → Answers h s u
Answers-trans h s t u a b = record {
  same = b.same ∙ a.same;
  frames = a.frames ++ b.frames;
  outside =
      b.outside
      ∙ ap (offered h b.frames) a.outside
      ∙ sym (offered-append h a.frames b.frames s.world);
}

pub Answers-preorder : {W : Type 0} (h : Host W) → IsPreorder (Answers h)
Answers-preorder h = record { rfl = Answers-refl h; trans = Answers-trans h }
