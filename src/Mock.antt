-- ===== src/Mock.antt =====
-- test_utils/mocks.rs: the in-memory repositories and the mock client of the chain, which stand in
-- for the adapters in tests.
pub mod Store
pub mod Items
pub mod Outbox
pub mod Chain
pub mod Matching
pub mod Agreement
pub mod Writes
pub mod Refinement
