-- ===== src/Domain/Health.antt =====
-- domain/types.rs: the health status of the whole system.
use testable_rust_architectu.Base.{String, ◌≡◌, ◌≢◌, ◌↔◌, ◌⊎◌, arith}
use testable_rust_architectu.Domain.Items.{Time}

pub data HealthStatus : Type 0 where
  healthy degraded unhealthy : HealthStatus

pub record HealthResponse : Type 0 where
  pub status : HealthStatus
  pub database : HealthStatus
  pub blockchain : HealthStatus
  pub timestamp : Time
  pub version : String

unfoldable pub overall : HealthStatus → HealthStatus → HealthStatus
overall healthy healthy = healthy
overall unhealthy _ = unhealthy
overall _ unhealthy = unhealthy
overall _ _ = degraded

-- `HealthResponse::new`, at the time `now`, in the crate version `version`.
unfoldable pub health_response_new : Time → String → HealthStatus → HealthStatus → HealthResponse
unfolding overall
health_response_new now version database blockchain = record {
  status = overall database blockchain;
  database = database;
  blockchain = blockchain;
  timestamp = now;
  version = version;
}

-- The system is healthy exactly when both parts are, unhealthy exactly when one of them is, and
-- degraded exactly when one of them is degraded and neither is unhealthy.
pub overall_cases :
    (d b : HealthStatus)
    → ((overall d b ≡ healthy) ↔ ((d ≡ healthy) × (b ≡ healthy)))
      × ((overall d b ≡ unhealthy) ↔ ((d ≡ unhealthy) ⊎ (b ≡ unhealthy)))
      × ((overall d b ≡ degraded)
          ↔ (((d ≡ degraded) ⊎ (b ≡ degraded)) × (d ≢ unhealthy) × (b ≢ unhealthy)))
unfolding overall
overall_cases d b = ground arith
