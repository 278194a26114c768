-- ===== src/Session/Keeps/Defs.antt =====
-- The invariant of the session's frames and tables, and the relation between the session before
-- and after a method. The session's bounds are those of sidp_session.hpp.
use sidp_client.Base.{ℕ, ◌+◌, ◌-◌, ◌≤◌, ◌≡◌, refl, ◌∙◌, true, List, [], ◌∷◌, length}
use sidp_client.Crc.{verify_message_crc}
use sidp_client.Defs.Limits
use sidp_client.Session.Sound.{IsPreorder}
use sidp_client.Session.State.{Session}

abbrev pub All {ℓ κ} : {A : Type ℓ} → (A → Type κ) → List A → Type κ
All P [] = Unit
All P (x ∷ xs) = P x × All P xs

pub record IsValid {W : Type 0} (s : Session W) : Type 0 where
  pub frame_fits : s.tx_frame_size ≤ Limits.max_frame_size
  pub sent_fit : All (λ (frame : List ℕ). length frame ≤ Limits.max_frame_size) s.sent
  pub snapshot_fits :
      s.pending.registers_size + s.pending.stack_size
      ≤ Limits.max_frame_size - Limits.header_size - Limits.stopped_event_size
  pub table_fits : length s.sw_table ≤ Limits.max_software_breakpoints
  pub regions_fit : length s.regions ≤ Limits.max_memory_regions

abbrev pub HasCrc : List ℕ → Type 0
HasCrc frame = verify_message_crc frame ≡ true

pub record Keeps {W : Type 0} (s t : Session W) : Type 0 where
  pub valid : IsValid s → IsValid t
  pub crc : All HasCrc s.sent → All HasCrc t.sent
  pub dead : s.transport_dead ≡ true → (t.transport_dead ≡ true) × (t.sent ≡ s.sent)

pub Keeps-refl : {W : Type 0} (s : Session W) → Keeps s s
Keeps-refl s = record { valid = λ v. v; crc = λ c. c; dead = λ d. (d, refl) }

pub Keeps-trans : {W : Type 0} (s t u : Session W) → Keeps s t → Keeps t u → Keeps s u
Keeps-trans s t u a b = record {
  valid = λ v. b.valid (a.valid v);
  crc = λ c. b.crc (a.crc c);
  dead = λ d. ((b.dead (a.dead d).0).0, (b.dead (a.dead d).0).1 ∙ (a.dead d).1);
}

pub Keeps-preorder : {W : Type 0} → IsPreorder {W = W} Keeps
Keeps-preorder = record { rfl = Keeps-refl; trans = Keeps-trans }
