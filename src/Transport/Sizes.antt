-- ===== src/Transport/Sizes.antt =====
-- The constants of include/sidp_transport_queue.hpp, include/sidp_transport_cdc.hpp and
-- include/sidp_transport.hpp.
use sidp_client.Base.{ℕ, ◌+◌, ◌*◌}

abbrev pub queue_size : ℕ
queue_size = 131072

abbrev pub log_queue_size : ℕ
log_queue_size = 4096

-- `sizeof(msg_header_t) + sizeof(log_data_t) + 1024`.
abbrev pub max_log_frame_size : ℕ
max_log_frame_size = 12 + 4 + 1024

abbrev pub poll_ms : ℕ
poll_ms = 10

abbrev pub wait_forever : ℕ
wait_forever = 0xffff_ffff

-- FreeRTOS, with 32-bit ticks.
abbrev pub port_max_delay : ℕ
port_max_delay = 0xffff_ffff

abbrev pub slip_end : ℕ
slip_end = 0xc0

abbrev pub slip_esc : ℕ
slip_esc = 0xdb

abbrev pub slip_esc_end : ℕ
slip_esc_end = 0xdc

abbrev pub slip_esc_esc : ℕ
slip_esc_esc = 0xdd

abbrev pub max_encoded_frame_size : ℕ
max_encoded_frame_size = 8192 * 2 + 2

abbrev pub rx_read_chunk_size : ℕ
rx_read_chunk_size = 64

abbrev pub tx_send_timeout_ms : ℕ
tx_send_timeout_ms = 5000

abbrev pub log_send_timeout_ms : ℕ
log_send_timeout_ms = 20

abbrev pub flush_wait_slice_ms : ℕ
flush_wait_slice_ms = 10
