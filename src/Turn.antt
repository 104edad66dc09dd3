-- ===== src/Turn.antt =====
-- One turn: packages/t3code-lib/src/api/turns.ts and turnAdoption.ts.
pub mod Adoption
pub mod Handle
pub mod Served
pub mod Counted
pub mod Once
pub mod Linked
pub mod Trusted
pub mod Followed
mod Tests
