-- ===== src/World.antt =====
-- The state that the adapters share, and the environment that answers them: the tables of the
-- migrations, and a counter of the interactions with the outside. The environment is one oracle,
-- asked at the number of each interaction, so that a theorem for every oracle covers every order of
-- faults, clock readings and locks.
use testable_rust_architectu.Base.{ℕ, ◌+◌, String, Bool, Option, List}
use testable_rust_architectu.Base.Effects.{Action, ok}
use testable_rust_architectu.Domain.Items.{
  Time, SolanaOutboxPayload, ItemMetadata, ItemMetadataRequest,
}

-- `sqlx::Error`, as far as the code tells its cases apart; `database` has the SQLSTATE.
pub data SqlxError : Type 0 where
  row_not_found : SqlxError
  database : Option String → SqlxError
  other_error : SqlxError

-- A row of `items`. A JSONB column is the text of its value.
pub record ItemRow : Type 0 where
  pub id : String
  pub hash : String
  pub name : String
  pub description : Option String
  pub content : String
  pub metadata : Option String
  pub blockchain_status : String
  pub blockchain_signature : Option String
  pub blockchain_retry_count : ℕ
  pub blockchain_last_error : Option String
  pub blockchain_next_retry_at : Option Time
  pub created_at : Time
  pub updated_at : Time

-- A row of `solana_outbox`.
pub record OutboxRow : Type 0 where
  pub id : String
  pub aggregate_id : String
  pub payload : String
  pub status : String
  pub created_at : Time
  pub retry_count : ℕ
  pub next_retry_at : Option Time
  pub attempt_blockhash : Option String
  pub updated_at : Time

pub record Tables : Type 0 where
  pub items : List ItemRow
  pub outbox : List OutboxRow

pub record World : Type 0 where
  pub tables : Tables
  pub ticks : ℕ

pub record Env : Type 0 where
  -- `Utc::now()` as a column keeps it, which is in microseconds, and as it was read.
  pub utc_now : ℕ → Time
  pub utc_exact : ℕ → Time
  -- `NOW()` of the database.
  pub db_now : ℕ → Time
  -- The text of a fresh UUID.
  pub uuid : ℕ → String
  -- The error with which a call of the database fails.
  pub fault : ℕ → Option SqlxError
  -- Whether a commit that reports an error has taken effect.
  pub commit_applied : ℕ → Bool
  -- Whether another transaction holds the row with this id.
  pub locked : ℕ → String → Bool
  -- The order of texts under the collation of the database.
  pub text_lt : String → String → Bool
  -- The encoders and decoders that serde derives.
  pub metadata_to_value : ItemMetadataRequest → Option String
  pub metadata_from_value : String → Option ItemMetadata
  pub payload_to_json : SolanaOutboxPayload → String
  pub payload_from_json : String → Option SolanaOutboxPayload
  pub sha256 : String → List ℕ
  -- `CARGO_PKG_VERSION`.
  pub version : String

abbrev pub bump : World → World
bump w = record w { ticks = w.ticks + 1 }

-- `Utc::now()`, to be bound to a column, and `Uuid::now_v7()`.
abbrev pub now : {E : Type 0} → Env → Action World E Time
now env w = (ok (env.utc_now w.ticks), bump w)

abbrev pub new_uuid : {E : Type 0} → Env → Action World E String
new_uuid env w = (ok (env.uuid w.ticks), bump w)

-- `Utc::now()` for a column and for a value that is returned as well.
abbrev pub now_exact : {E : Type 0} → Env → Action World E (Time × Time)
now_exact env w = (ok (env.utc_now w.ticks, env.utc_exact w.ticks), bump w)
