-- ===== src/Lib.antt =====
-- SIDP client: the debug session, the checksum and the transports of the SIDP protocol.
--
-- The program. An `sidp_session` (sidp_session.cpp, include/sidp_session.hpp) serves one peer of the
-- SIDP debug protocol. It takes complete request messages from a transport, drives a target through
-- the interface `target_backend_t` (include/sidp_backend.hpp), and gives response and event frames to
-- a TX sink. `crc32_hasher` (sidp_transport.cpp, include/sidp_transport.hpp) computes the checksum of
-- each message. `packet_queue_transport` (sidp_transport_queue.cpp) queues whole messages between the
-- session and a link; `cdc_slip_transport` (sidp_transport_cdc.cpp) carries them over USB with SLIP, and
-- `websocket_transport` (sidp_transport_websocket.cpp) as WebSocket messages. The wire structs and enums are in include/sidp_defs.hpp.
--
-- The files.
-- - Base, Bits: names passed on, Boolean tests, lists, byte buffers, exclusive or.
-- - Defs: the enums and limits of include/sidp_defs.hpp and include/sidp_session.hpp.
-- - Backend: `target_backend_t`, the sink and the allocator as a record `Host W` of functions on the
--   state `W` of the world outside. It is a parameter of every definition of the session, and no
--   theorem but that of Session/Unpatch assumes anything of it: a host may fail, lie about sizes and halt at any time.
-- - Crc: `crc32_hasher`. Crc/Serial has the bit-serial register that the table stands for, Crc/Messages
--   the checksum inside a message.
-- - Session/State: the members of the session as a record and the actions on them, `M W A`.
--   Session/Frame has begin_frame to send_target_lost, Session/Registers the scans over register
--   lists, Session/Shadow and Session/Table the software breakpoints, Session/Access the checks against
--   the memory map and normalize_attach_info, Session/Cause and Session/Stops the stop pipeline,
--   Session/Lifecycle init, handle_poll and handle_disconnect, Session/Attach, Session/Memory,
--   Session/RegisterOps, Session/Plan, Session/StepOver, Session/Run and Session/Control the request
--   handlers, Session/Dispatch handle_request. A method of the source is a definition of the same name;
--   a piece of a long method has a name of its own, beside it.
-- - Session/Sound: relations between the session before and after a method, rule by rule.
--   Session/Keeps uses them for the invariant, Session/Refuse for methods that only answer.
-- - Session/Transparent and Session/Readback follow a write and a read through the breakpoint table.
--   Session/Refuse/Passing says what a request must have to pass its checks.
-- - Session/Safety, Session/Restore, Session/Unpatch, Session/Generation, Session/Admit, Session/Map:
--   what follows for the whole session. Session/Unpatch alone assumes something of the host, that what
--   it writes to the memory is there afterwards.
-- - Transport/Port: what ESP-IDF gives the transports, as a record of functions, and what its
--   documentation promises of the rings. Transport/State, Transport/Queue, Transport/Setup and
--   Transport/Wait are sidp_transport_queue.cpp: its members, its operations, the making of the queues and
--   the waits. Transport/Moves has the locked sections of all tasks as steps; Transport/Spec the queues
--   that they stand for, Transport/History the order in these, Transport/Views and Transport/Refines the
--   way from the one to the other, Transport/Invariant and Transport/Counts the counters,
--   Transport/Reached, Transport/Links and Transport/Timeouts what follows, Transport/Resources and
--   Transport/Allocation what is allocated, Transport/Ticks about timeout_to_ticks.
-- - Transport/Cdc: sidp_transport_cdc.cpp. Encode and Decode are the SLIP codec, Receive the callbacks,
--   Send the TX of a frame, Init the start; Slip and Resync are about the codec, Bounds about the
--   buffers, Feed and Drain about the reading of the driver, Sending, Sent and Delivery about
--   deliver_tx_frame and its loops.
-- - Transport/WebSocket: sidp_transport_websocket.cpp. Receive is handle_data, Client the rest;
--   Bounds is about the staging buffer, Fragments says what a message in fragments is, Staging,
--   Reassembly, Chunks and Messages follow it, Release and Start are about init.
-- - Transport/SmallRing, the files Tests of the transports: concrete inputs.
-- - Session/Board, Session/MemoryBoard, Session/Tests, Crc/Tests: concrete inputs.
--
-- Conventions. Numbers are natural numbers; where the source's 32-bit or 64-bit arithmetic can wrap,
-- `u32` and `u64` write it out. Bytes are numbers, and multi-byte fields are little-endian, which the
-- source asserts. A null pointer is `none`, or a flag beside the used part of a table. The loops over
-- register lists run on the size of the list as fuel: each round moves the offset by at least four.
-- The 100 polls of the step-over are a bound of the source. Logging is left out.
--
-- A section of the transports under the mutex is one step, and what runs without it is a step of its
-- own, so that a sequence of steps is an interleaving of the tasks. Where a task waits or sends over CDC,
-- a parameter stands for what the others do to the queues meanwhile. The waiting loops run on fuel: a
-- finite timeout of `limit` ticks takes at most `limit + 1` rounds. `drain` runs on the size of a ring in
-- bytes, the sending loops on the microseconds of the deadline, and the reading loop on the number of
-- bytes that the driver holds and one more.
--
-- Not modelled: the vendored nanopb, the protobuf files and the host tests. What an unmodelled struct
-- holds (log streams, assets, the GDB stub) has no handler in the session. The tests of `start_read` for
-- null out-pointers have no counterpart, since its results are values, and `tx_task_loop` repeats
-- `service_all` for ever.
mod Base
mod Bits
pub mod Defs
pub mod Backend
pub mod Crc
pub mod Session
pub mod Transport
