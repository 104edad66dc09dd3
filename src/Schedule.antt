-- ===== src/Schedule.antt =====
-- packages/t3code-lib/src/api/scheduledTaskUpdate.ts: the update of a scheduled task.
pub mod Update
pub mod Kept
pub mod Refused
mod Tests
