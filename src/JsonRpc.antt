-- ===== src/JsonRpc.antt =====
-- The JSON-RPC client: src/diem/jsonrpc.
pub mod State
pub mod Client
pub mod Retry
pub mod Domains
pub mod Wait
pub mod Submit
pub mod Queries
pub mod Accounts
mod Tests
