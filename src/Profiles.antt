-- ===== src/Profiles.antt =====
-- packages/t3code-lib/src/profiles: named servers, and the choice of a server and its credentials.
pub mod Config
pub mod Manager
pub mod Loaded
pub mod Valid
pub mod Stored
pub mod Resolved
mod Tests
