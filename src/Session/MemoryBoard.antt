-- ===== src/Session/MemoryBoard.antt =====
-- A host for the tests whose target has a memory, with two patches in it.
-- A target with a memory: the host of the tests, but what is written stays. The world is the bytes by
-- address.
use sidp_client.Base.{◌==◌}
use sidp_client.Base.{if◌then◌else◌}
use sidp_client.Backend.{EspErr, Host}
use sidp_client.Base.{
  ℕ, zero, suc, ◌+◌, ◌≤◌, ◌<◌, ◌≡◌, refl, ap₂, ◌∙◌, ◌⊎◌, true, List, [], ◌∷◌, arith, length,
}
use sidp_client.Session.Board.{stopped_now, board_info}
use sidp_client.Session.Start.{new_session}
use sidp_client.Session.State.{Session}
use sidp_client.Session.Unpatch.{MemoryLaws}

abbrev Memory : Type 0
Memory = ℕ → ℕ

-- The byte at an address after a write of bytes from another on.
abbrev written : ℕ → List ℕ → Memory → Memory
written a [] m x = m x
written a (b ∷ bs) m x = if x == a then b else written (a + 1) bs m x

abbrev bytes_held : Memory → ℕ → ℕ → List ℕ
bytes_held m a zero = []
bytes_held m a (suc n) = m a ∷ bytes_held m (a + 1) n

bytes_held_same :
    (m k : Memory) (a n : ℕ)
    → ((x : ℕ) → a ≤ x → x < a + n → m x ≡ k x)
    → bytes_held m a n ≡ bytes_held k a n
bytes_held_same m k a zero same = refl
bytes_held_same m k a (suc n) same =
    ap₂ (λ (x : ℕ) (xs : List ℕ). x ∷ xs) (same a (omega arith) (omega arith))
      (bytes_held_same m k (a + 1) n (λ x low high. same x (omega arith) (omega arith)))

written_apart :
    (a : ℕ) (bs : List ℕ) (m : Memory) (x : ℕ)
    → (x < a) ⊎ (a + length bs ≤ x)
    → written a bs m x ≡ m x
written_apart a [] m x apart = refl
written_apart a (b ∷ bs) m x apart = let rest = written_apart (a + 1) bs m x in ground arith

written_there : (a : ℕ) (bs : List ℕ) (m : Memory) → bytes_held (written a bs m) a (length bs) ≡ bs
written_there a [] m = refl
written_there a (b ∷ bs) m =
    ap₂ (λ (x : ℕ) (xs : List ℕ). x ∷ xs) (ground arith)
      (bytes_held_same (written a (b ∷ bs) m) (written (a + 1) bs m) (a + 1) (length bs)
          (λ x low high. ground arith)
        ∙ written_there (a + 1) bs m)

abbrev pub memory_board : Host Memory
memory_board = record {
  attach = λ params w. (record { err = EspErr.esp_ok; info = board_info }, w);
  detach = λ action w. (EspErr.esp_ok, w);
  reset = λ kind halt_after w. (record { err = EspErr.esp_ok; stop = stopped_now }, w);
  poll_halted = λ w. (record { err = EspErr.esp_ok; stop = stopped_now }, w);
  halt = λ timeout w. (record { err = EspErr.esp_ok; stop = stopped_now }, w);
  resume = λ action address w. (EspErr.esp_ok, w);
  read_regs = λ ids capacity w. (record { err = EspErr.esp_ok; bytes = []; out_size = 0 }, w);
  write_regs = λ bytes w. (EspErr.esp_ok, w);
  read_mem = λ address size width w.
      (record { err = EspErr.esp_ok; bytes = bytes_held w address size }, w);
  write_mem = λ address bytes width w. (EspErr.esp_ok, written address bytes w);
  apply_breakpoints = λ entries w. (EspErr.esp_ok, w);
  apply_watchpoints = λ entries w. (EspErr.esp_ok, w);
  set_vector_catch = λ mask w. (EspErr.esp_ok, w);
  tx_sink = λ frame w. (true, w);
  calloc = λ size w. (true, w);
}

pub memory_laws : MemoryLaws memory_board
memory_laws = record {
  held = bytes_held;
  writes_there = λ w a bs width ok. written_there a bs w;
  writes_only = λ w a bs width b n apart.
      bytes_held_same (written a bs w) w b n (λ x low high. written_apart a bs w x (ground arith));
}

-- Two patches in the memory.
abbrev pub patched : Session Memory
patched = record (new_session (λ x. 0xbe) true) {
  attached = true;
  sw_table =
      record {
        id = 1;
        address = 0x2000_0100;
        instruction_size = 2;
        installed = true;
        original = 1 ∷ 2 ∷ 3 ∷ 4 ∷ [];
      }
      ∷ record {
        id = 2;
        address = 0x2000_0102;
        instruction_size = 4;
        installed = true;
        original = 5 ∷ 6 ∷ 7 ∷ 8 ∷ [];
      }
      ∷ [];
}
