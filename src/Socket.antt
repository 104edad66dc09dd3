-- ===== src/Socket.antt =====
-- packages/t3code-lib/src/transport: the WebSocket link that survives drops.
pub mod State
pub mod Events
pub mod Progress
pub mod Left
pub mod Late
pub mod Over
pub mod Final
pub mod Stall
pub mod Waiters
pub mod Balance
pub mod Silence
mod Tests
