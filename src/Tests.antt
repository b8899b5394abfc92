-- ===== src/Tests.antt =====
-- The theorems about each part at concrete inputs.
pub mod Ring
pub mod Channels
pub mod Streams
pub mod Queue
pub mod Producers
pub mod Threads
pub mod Segment
pub mod Http
pub mod HttpEndpoint
pub mod Sockets
pub mod WebSocket
pub mod Tcp
