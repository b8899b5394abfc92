-- ===== src/Lib.antt =====
-- Medici: message passing between threads and processes.
--
-- The program is a library of endpoints (shared memory, TCP, HTTP, WebSocket) that an event queue drives.
-- Modelled are the shared memory channels with their endpoints, the event queue, the data of
-- HTTP, groups of endpoints, timers, the sends of a TCP endpoint,
-- HTTP endpoints and the frames of a WebSocket endpoint.
--
-- - Shm/Ring: `FixedConstructLenSPSC` of shm_endpoints/SharedMemPODQueueDefinition.hpp, the ring buffer of
--   one channel. `enqueue`, `consume`, `updates_available` and `consume_available` are its operations. The
--   storage is a function from indices. Shm/Ring/Refine compares it with a bounded queue;
--   Shm/Ring/Interleave is the ring with one producer and one consumer thread, as a step relation whose
--   steps are the loads and stores.
-- - Shm/Channels: the segment of the same file. `get_type_index` and `dispatch_to_handler` are the type
--   tags, `alloc_queue_channel` is `AllocQueueChannel`. The mutex is what `pthread_mutex_lock` returns.
--   Shm/Channels/Segment has the constructor of `SharedMemoryLayout`, the offsets of its channels and
--   `enqueueMessageToAllChannels`.
-- - Shm/Producer and Shm/Consumer: the two endpoints of shm_endpoints/SPMCEndpointsImpl.hpp. The producer
--   posts the draining of a full channel to an event queue, of which the model knows whether it accepts
--   the action. The poll of the consumer takes fuel; the size of the ring is enough.
-- - EventQueue: event_queue/EventQueue.hpp. `Queue` is the state, `Callable` what can stand in it, and
--   `Host` the application: what its callbacks do to the queue and to the rest, the clock and the
--   endpoints that are polled. EventQueue/Threads is `ThreadSpecificQueue` and
--   `getThreadProducerQueueEntry`, EventQueue/Post the operations that post, EventQueue/Cycle is
--   `runEventCycle`, `start`, `stop` and `pumpEvents`. The other modules below EventQueue hold the proofs.
-- - Http/Action and Http/ContentType: http/HTTPAction.hpp, http/ContentType.hpp and http/ContentType.cpp.
--   Http/Url is http/FieldContentUtils.cpp: `encodeStringForURL`, `decodeStringFromURL`,
--   `encodeFieldsToURL` and `parseURLEncodingToFields`. Http/Fields is http/HttpFields.hpp with
--   http/HttpFields.cpp. A text is the list of its bytes, a multimap the list of its entries in order.
--   Http/Headers is the rest of http/FieldContentUtils.cpp.
-- - Sockets/Tcp: sockets/live/TcpIpLiveEndpoint.hpp, with `timeBufferPending` of sockets/live/EndpointBase.hpp.
--   `Tcp` is the state, `Net` the connection manager, the event queue and the handlers. `send_async` is
--   `sendAsync`, `process_async_send_queue` the action that it posts, and `run_queue` the runs of that action.
-- - WebSocket: sockets/WSOpCode.hpp and sockets/live/WebSocketLiveEndpoint.hpp. `client_frame` and
--   `server_frame` are the send buffers. WebSocket/Endpoint has the state `Ws`, what is called (`Host`) and the
--   functions that send; WebSocket/Receive is `handleWebsocketPayload`, of which `read_at` is a cycle of the
--   loop, and `on_payload_ready` a read. WebSocket/Upgrade is the upgrade of an HTTP
--   connection, WebSocket/Handshake both sides of it. The other
--   modules below WebSocket hold the proofs. The loop over a buffer takes fuel, one more than the bytes.
-- - HttpEndpoint: sockets/live/HTTPLiveEndpoint.hpp. `HttpState` is the state, `Stream` a
--   `std::ispanstream`; HttpEndpoint/Body has `readContent`, `readChunks` and `dispatchPayload`, with what is
--   called (`Handlers`), and HttpEndpoint/Parse `readHeaders`, both `handleBaseSocketInboundPayload` and the
--   reads. HttpEndpoint/Send is `sendHttpData`, its callbacks and `clarifySendHeaders`; HttpEndpoint/Client is
--   sockets/live/HTTPLiveClientEndpoint.hpp and HttpEndpoint/Server sockets/live/HTTPLiveServerEndpoint.hpp;
--   HttpEndpoint/Handler is sockets/live/HttpServerHandler.hpp, a server of files.
--   The other modules below HttpEndpoint hold the proofs. The loops take fuel, of which
--   `handle_loop` gives more than the bytes that are left; every round takes a byte or ends the stream.
-- - Sockets/Group: sockets/GroupEndpointCoordinator.hpp. Sockets/Timer: timers/ManualTimer.hpp and
--   timers/EndpointTimer.hpp, of which `posted` are the runs that wait in the event queue.
--
-- A callback can change the queue in any way, so that what other threads post meanwhile is part of what a
-- callback does. A post that spins on a full producer queue has the result `none`. The loops of timed
-- events and the one of `start` take fuel and say `waiting` when it runs out; the fuel that is enough for
-- timed events is stated below, and `start` is meant to run until an action stops the queue. Sizes are `size_t` and
-- wrap at 2 ^ 64, the counter of payloads wraps at 2 ^ 32. Of two timed events with one time the model
-- takes the earlier post first, which `std::priority_queue` leaves open.
--
-- Not modelled: the sockets, the endpoints for TLS, multipart content, compression,
-- cryptography, the other shared memory endpoints, the mapping of segments, and the application's threads.
pub mod Prelude
pub mod Shm
pub mod EventQueue
pub mod Http
pub mod Sockets
pub mod WebSocket
pub mod HttpEndpoint
pub mod Tests
