-- ===== src/Follow.antt =====
-- packages/t3code-cli/src/execution: how a command of the CLI follows a run.
pub mod Deadline
pub mod Stream
pub mod Observation
pub mod Selected
pub mod Fixed
pub mod Exit
pub mod Run
pub mod Told
pub mod Explained
pub mod Codes
pub mod Sayings
pub mod Shown
pub mod Expiry
mod Tests
