-- ===== src/Thread.antt =====
-- One thread: packages/t3code-lib/src/api/threadProjection.ts, threadDerived.ts, threadTracker.ts
-- and threadWatch.ts.
pub mod Records
pub mod Projection
pub mod Upsert
pub mod Events
pub mod Replay
pub mod Derived
pub mod Active
pub mod Tracker
pub mod Calls
pub mod Cases
pub mod Settled
pub mod Announced
pub mod Announcements
pub mod Requests
pub mod Watch
pub mod Cursor
pub mod Samples
mod Tests
