-- ===== src/Rpc.antt =====
-- packages/t3code-lib/src/transport/rpcConnection.ts: requests in flight over one socket.
pub mod State
pub mod Calls
pub mod Streams
pub mod Events
pub mod Books
pub mod Settle
pub mod Once
pub mod Answers
pub mod Iterators
pub mod Ledger
pub mod Drops
mod Ids
mod Tests
