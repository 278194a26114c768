-- ===== src/Transport/WebSocket/Tests.antt =====
-- Runs of the WebSocket transport.
-- A ping stands before the second half of a frame.
use sidp_client.Backend.{EspErr, is_ok}
use sidp_client.Base.{ℕ, ◌+◌, ◌-◌, ◌≡◌, refl, Bool, true, false, some, List, [], ◌∷◌, arith}
use sidp_client.Transport.Int.{ℤ}
use sidp_client.Transport.Port.{Port}
use sidp_client.Transport.Queue.{
  link_changed, link_is_connected, begin_session, refuses_session, drain, close_locked, is_open,
}
use sidp_client.Transport.Resources.{HeapLaws}
use sidp_client.Transport.Setup.{make_mutex, lacks_ring, create_queues, make_rings, create_rings}
use sidp_client.Transport.SmallRing.{
  get_out, cable, plugged, small_port, put_in, fresh, began_session, Ring,
}
use sidp_client.Transport.State.{new_queue, Queue}
use sidp_client.Transport.WebSocket.Bounds.{StagingFits, handle_data-StagingFits}
use sidp_client.Transport.WebSocket.Client.{ClientConfig, init_websocket, Client}
use sidp_client.Transport.WebSocket.Fragments.{Piece, message_events, piece_event}
use sidp_client.Transport.WebSocket.Messages.{handle_events-message}
use sidp_client.Transport.WebSocket.Reassembly.{handle_events}
use sidp_client.Transport.WebSocket.Receive.{handle_data, is_data}
use sidp_client.Transport.WebSocket.Release.{ClientHeap, Ends, IsReleased}
use sidp_client.Transport.WebSocket.Staging.{Done}
use sidp_client.Transport.WebSocket.Start.{init_websocket-Ends}
use sidp_client.Transport.WebSocket.State.{Websocket, EventData}

abbrev ping : EventData
ping = piece_event 9 true 0 0 []

abbrev halves : List Piece
halves =
    record { before = []; bytes = 1 ∷ 2 ∷ [] } ∷ record { before = ping ∷ []; bytes = 3 ∷ [] } ∷ []

abbrev end_frame : List Piece
end_frame = record { before = []; bytes = [] } ∷ []

abbrev open_queue : Queue Ring Bool
open_queue = (began_session (plugged fresh)).queue

abbrev socket : Websocket Ring Bool
socket = record {
  queue = open_queue;
  has_client = true;
  has_staging = true;
  staging = 9 ∷ [];
  staging_epoch = 0;
  staging_active = true;
  staging_discarded = true;
  initialized = true;
}

open_queue_lem : is_open cable open_queue ≡ true
unfolding fresh create_queues make_mutex create_rings make_rings lacks_ring close_locked
    begin_session refuses_session link_changed is_open link_is_connected drain
open_queue_lem = refl

handle_events-message_example :
    Done small_port cable open_queue
      (1 ∷ 2 ∷ 3 ∷ [])
      (handle_events small_port cable (message_events halves (end_frame ∷ [])) socket)
unfolding is_data
handle_events-message_example =
    handle_events-message small_port cable open_queue open_queue_lem halves (end_frame ∷ []) socket
      (omega arith, tt, (omega arith, (refl, tt), tt)) (tt, tt) refl

-- A world that counts what is allocated, and a client that cannot be made.
abbrev heap_port : Port Ring ℕ
heap_port = record {
  send = put_in;
  receive = get_out;
  return_item = λ x r. r;
  create_ring = λ size e. (some Ring.free, e + 1);
  delete_ring = λ r e. e - 1;
  create_mutex = λ e. (true, e + 1);
  delete_mutex = λ e. e - 1;
  create_task = λ e. (true, e);
}

heap_laws : HeapLaws heap_port
heap_laws = record {
  live = λ e. e;
  live_ring = λ n e h. refl;
  live_no_ring = λ n e h. absurd (cc);
  live_delete_ring = λ r e. refl;
  live_mutex = λ e h. refl;
  live_no_mutex = λ e h. absurd (cc);
  live_delete_mutex = λ e. refl;
  live_no_task = λ e h. refl;
}

abbrev no_client : Client ℕ ℕ
no_client = record {
  client_init = λ c e. (false, e);
  client_destroy = λ e. e - 1;
  register_events = λ e. (EspErr.esp_ok, e);
  unregister_events = λ e. e;
  client_start = λ e. (EspErr.esp_ok, e);
  client_stop = λ e. (EspErr.esp_ok, e);
  is_connected = λ e. false;
  send_bin = λ m n e. (ℤ.pos 0, e);
  malloc = λ e. (true, e + 1);
  free = λ e. e - 1;
}

client_heap : ClientHeap heap_laws no_client
unfolding heap_laws
client_heap = record {
  live_malloc = λ e h. refl;
  live_no_malloc = λ e h. absurd (cc);
  live_free = λ e. refl;
  live_client = λ c e h. absurd (cc);
  live_no_client = λ c e h. refl;
  live_destroy = λ e. refl;
  live_register = λ e. refl;
  live_unregister = λ e. refl;
  live_start = λ e. refl;
  live_stop = λ e. refl;
}

abbrev unused : Websocket Ring ℕ
unused = record {
  queue = new_queue 3;
  has_client = false;
  has_staging = false;
  staging = [];
  staging_epoch = 0;
  staging_active = false;
  staging_discarded = false;
  initialized = false;
}

abbrev plain_config : ClientConfig ℕ
plain_config = record {
  others = 0;
  disable_auto_reconnect = false;
  enable_close_reconnect = true;
  buffer_size = ℤ.pos 1024;
}

unused-IsReleased : IsReleased heap_port no_client heap_laws client_heap 3 unused
unfolding heap_laws
unused-IsReleased = record {
  clean = record {
    no_packets = refl;
    no_frames = refl;
    no_logs = refl;
    no_mutex = refl;
    no_task = refl;
    live_same = refl;
  };
  no_client = refl;
  no_staging = refl;
  not_initialized = refl;
}

init_websocket-Ends_example :
    Ends heap_port no_client heap_laws client_heap 3
      (is_ok (init_websocket heap_port no_client plain_config unused).0)
      (init_websocket heap_port no_client plain_config unused).1
init_websocket-Ends_example =
    init_websocket-Ends heap_port no_client heap_laws client_heap plain_config 3 unused
      unused-IsReleased

handle_data-StagingFits_example :
    StagingFits small_port cable
      (handle_data small_port cable (piece_event 2 false 9 0 (1 ∷ 2 ∷ [])) socket)
handle_data-StagingFits_example =
    handle_data-StagingFits small_port cable (piece_event 2 false 9 0 (1 ∷ 2 ∷ [])) socket
      (omega arith)
