-- ===== src/Shm.antt =====
-- shm_endpoints/: the shared memory queue and the endpoints over it.
pub mod Ring
pub mod Channels
pub mod Producer
pub mod Consumer
