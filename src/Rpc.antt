-- ===== src/Rpc.antt =====
-- infra/blockchain/solana.rs.
pub mod Provider
pub mod Calls
pub mod Client
pub mod Build
pub mod Sticky
pub mod Blank
pub mod Preflight
pub mod Waiting
pub mod Costs
pub mod Spending
pub mod Requests
pub mod Logs
pub mod Memos
pub mod Repeating
