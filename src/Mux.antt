-- ===== src/Mux.antt =====
-- lib/nps_mux: the stream multiplexer, one module for each of its parts.
pub mod Deque
pub mod Chain
pub mod Packet
pub mod Accept
pub mod Priority
pub mod Window
pub mod Session
