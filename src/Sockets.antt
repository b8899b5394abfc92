-- ===== src/Sockets.antt =====
-- sockets/ and timers/: what keeps track of endpoints and of timers.
pub mod Group
pub mod Timer
pub mod Tcp
