-- ===== src/Postgres.antt =====
-- infra/database/postgres.rs and the tables of migrations/.
pub mod Pool
pub mod Sql
pub mod Rows
pub mod Sorting
pub mod Items
pub mod Outbox
pub mod Rules
pub mod Client
pub mod Atomicity
pub mod Effects
pub mod Invariant
pub mod Keeps
pub mod Leases
pub mod Fairness
pub mod ReadBack
pub mod History
pub mod Calm
pub mod Lookup
pub mod Differing
pub mod Pagination
pub mod Paging
pub mod Browsing
pub mod Reordering
