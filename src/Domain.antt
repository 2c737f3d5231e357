-- ===== src/Domain.antt =====
-- The domain layer: error.rs, types.rs and traits.rs.
pub mod Errors
pub mod Status
pub mod Items
pub mod Validation
pub mod Health
pub mod Hash
pub mod Ports
