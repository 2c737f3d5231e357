-- ===== src/Tests.antt =====
-- Concrete inputs for the theorems: sample environments and clients, and the theorems at them.
pub mod Samples
pub mod Collation
pub mod Witnesses
pub mod Edges
pub mod Mocks
pub mod Whole
pub mod Lasting
pub mod Reaching
pub mod Setup
