-- ===== src/Service/Late.antt =====
-- app/service.rs: an attempt that is recorded late, after another worker has completed the entry.
use testable_rust_architectu.World.{World}
