-- ===== src/Postgres/Pool.antt =====
-- infra/database/postgres.rs: the configuration of the pool, connecting, and the migrations.
-- Durations are in nanoseconds.
use testable_rust_architectu.Base.{ℕ, String, [], ◌∷◌, concat}
use testable_rust_architectu.Base.Effects.{Action, map_err}
use testable_rust_architectu.Domain.Items.{Time, seconds}

pub data PostgresInitError : Type 0 where
  connection migration : String → PostgresInitError

unfoldable pub postgres_init_error_to_string : PostgresInitError → String
postgres_init_error_to_string (connection m) = concat ("Connection failed: " ∷ m ∷ [])
postgres_init_error_to_string (migration m) = concat ("Migration failed: " ∷ m ∷ [])

pub record PostgresConfig : Type 0 where
  pub max_connections : ℕ
  pub min_connections : ℕ
  pub acquire_timeout : Time
  pub idle_timeout : Time
  pub max_lifetime : Time

abbrev pub postgres_config_default : PostgresConfig
postgres_config_default = record {
  max_connections = 10;
  min_connections = 2;
  acquire_timeout = seconds 3;
  idle_timeout = seconds 600;
  max_lifetime = seconds 1800;
}

-- The calls of sqlx: connecting under the options of a configuration, which yields a pool, and the
-- migrations over a pool.
pub record Sqlx (S Pool : Type 0) : Type 0 where
  pub connect : PostgresConfig → String → Action S String Pool
  pub migrate : Pool → Action S String (Unit {0})

module _ {S Pool : Type 0} (sqlx : Sqlx S Pool) where
  -- `PostgresClient::new`.
  unfoldable pub postgres_client_new : String → PostgresConfig → Action S PostgresInitError Pool
  postgres_client_new database_url config = map_err connection (sqlx.connect config database_url)

  -- `PostgresClient::with_defaults`.
  unfoldable pub postgres_client_with_defaults : String → Action S PostgresInitError Pool
  postgres_client_with_defaults database_url =
      postgres_client_new database_url postgres_config_default

  unfoldable pub run_migrations : Pool → Action S PostgresInitError (Unit {0})
  run_migrations pool = map_err migration (sqlx.migrate pool)
