-- ===== src/Transport/WebSocket/Fragments.antt =====
-- A message in fragments, as the Espressif client reports it: WebSocket frames, each in chunks, with
-- other events in between.
-- Control frames, and text frames.
use sidp_client.Base.{ℕ, ◌+◌, ◌<◌, ◌≡◌, Bool, true, false, not, some, List, [], ◌∷◌, ◌++◌, length}
use sidp_client.Transport.Int.{ℤ}
use sidp_client.Transport.WebSocket.Receive.{is_data}
use sidp_client.Transport.WebSocket.State.{opcode_binary, EventData, opcode_cont}

abbrev pub is_ignored : EventData → Bool
is_ignored event = not (is_data event)

-- A chunk and the events before it.
pub record Piece : Type 0 where
  pub before : List EventData
  pub bytes : List ℕ

abbrev pub total : List Piece → List ℕ
total [] = []
total (piece ∷ rest) = piece.bytes ++ total rest

abbrev pub piece_event : ℕ → Bool → ℕ → ℕ → List ℕ → EventData
piece_event op_code fin len offset bytes = record {
  op_code = op_code;
  payload_len = ℤ.pos len;
  payload_offset = ℤ.pos offset;
  data_len = ℤ.pos (length bytes);
  data_ptr = some bytes;
  fin = fin;
}

-- The events of a WebSocket frame of `len` bytes from an offset on.
unfoldable pub frame_events : ℕ → Bool → ℕ → ℕ → List Piece → List EventData
frame_events op_code fin len offset [] = []
frame_events op_code fin len offset (piece ∷ rest) =
    piece.before
    ++ piece_event op_code fin len offset piece.bytes
      ∷ frame_events op_code fin len (offset + length piece.bytes) rest

-- The frames after the first; the last has the FIN bit.
unfoldable pub rest_events : List (List Piece) → List EventData
rest_events [] = []
rest_events (frame ∷ []) = frame_events opcode_cont true (length (total frame)) 0 frame
rest_events (frame ∷ more ∷ rest) =
    frame_events opcode_cont false (length (total frame)) 0 frame ++ rest_events (more ∷ rest)

unfoldable pub message_events : List Piece → List (List Piece) → List EventData
message_events first [] = frame_events opcode_binary true (length (total first)) 0 first
message_events first (frame ∷ rest) =
    frame_events opcode_binary false (length (total first)) 0 first ++ rest_events (frame ∷ rest)

abbrev pub rest_total : List (List Piece) → List ℕ
rest_total [] = []
rest_total (frame ∷ rest) = total frame ++ rest_total rest

-- A frame is one chunk, or several that are not empty; what stands in between is ignored.
abbrev pub AllIgnored : List EventData → Type 0
AllIgnored [] = Unit {0}
AllIgnored (event ∷ rest) = is_ignored event ≡ true × AllIgnored rest

abbrev pub AllFull : List Piece → Type 0
AllFull [] = Unit {0}
AllFull (piece ∷ rest) = 0 < length piece.bytes × AllIgnored piece.before × AllFull rest

abbrev pub IsWhole : List Piece → Type 0
IsWhole [] = ⊥
IsWhole (piece ∷ []) = AllIgnored piece.before
IsWhole (piece ∷ rest) = AllFull (piece ∷ rest)

abbrev pub AllWhole : List (List Piece) → Type 0
AllWhole [] = Unit {0}
AllWhole (frame ∷ rest) = IsWhole frame × AllWhole rest
