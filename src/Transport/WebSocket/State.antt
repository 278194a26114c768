-- ===== src/Transport/WebSocket/State.antt =====
-- The members of `websocket_transport` of include/sidp_transport_websocket.hpp, and what the Espressif
-- client tells its event handler.
use sidp_client.Base.{ℕ, Bool, Option, List}
use sidp_client.Transport.Int.{ℤ}
use sidp_client.Transport.State.{Queue}

abbrev pub opcode_cont : ℕ
opcode_cont = 0

abbrev pub opcode_binary : ℕ
opcode_binary = 2

-- `esp_websocket_event_data_t`; `data_ptr` is the memory from that pointer on.
pub record EventData : Type 0 where
  pub op_code : ℕ
  pub payload_len : ℤ
  pub payload_offset : ℤ
  pub data_len : ℤ
  pub data_ptr : Option (List ℕ)
  pub fin : Bool

-- `staging` holds the first `staging_received` bytes of `staging_buffer`.
pub record Websocket (R E : Type 0) : Type 0 where
  pub queue : Queue R E
  pub has_client : Bool
  pub has_staging : Bool
  pub staging : List ℕ
  pub staging_epoch : ℕ
  pub staging_active : Bool
  pub staging_discarded : Bool
  pub initialized : Bool
