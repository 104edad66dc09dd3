-- ===== src/Wire.antt =====
-- packages/t3code-lib/src/wire: the RPC envelopes of the WebSocket and the exits of requests.
pub mod Envelope
pub mod Exit
pub mod Laws
mod Tests
