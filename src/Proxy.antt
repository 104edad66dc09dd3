-- ===== src/Proxy.antt =====
-- packages/t3code-proxy/src: the proxy between a client and its server.
pub mod Bridge
pub mod Pressure
pub mod Units
pub mod Byline
pub mod KnownNames
pub mod Stamped
pub mod Frames
pub mod Masked
pub mod Messages
pub mod Changed
pub mod Kept
mod Tests
