-- ===== src/Postgres/Rows.antt =====
-- infra/database/postgres.rs: rows to domain values.
use testable_rust_architectu.Base.{String, Option, none, some, List, [], ◌∷◌}
use testable_rust_architectu.Base.Effects.{Result, ok, err}
use testable_rust_architectu.Domain.Errors.{ItemError, repository_failure}
use testable_rust_architectu.Domain.Status.{
  BlockchainStatus, OutboxStatus, blockchain_status_from_str, outbox_status_from_str,
}
use testable_rust_architectu.Domain.Items.{Item, ItemMetadata, SolanaOutboxEntry}
use testable_rust_architectu.World.{ItemRow, OutboxRow, Env}

-- `parse().unwrap_or(…)`.
abbrev pub unwrap_or : {E A : Type 0} → Result E A → A → A
unwrap_or (ok a) d = a
unwrap_or (err e) d = d

-- `rows.iter().map(…).collect::<Result<Vec<_>, _>>()`.
abbrev pub collect : {A B : Type 0} → (A → Result ItemError B) → List A → Result ItemError (List B)
collect f [] = ok []
collect f (a ∷ as') = elim (f a) [
  | err e ↦ err e
  | ok b ↦ elim (collect f as') [ err e ↦ err e | ok bs ↦ ok (b ∷ bs) ]
]

module _ (env : Env) where
  abbrev pub decode_metadata : Option String → Option ItemMetadata
  decode_metadata none = none
  decode_metadata (some v) = env.metadata_from_value v

  unfoldable pub row_to_item : ItemRow → Result ItemError Item
  row_to_item row = ok (record {
    id = row.id;
    hash = row.hash;
    name = row.name;
    description = row.description;
    content = row.content;
    metadata = decode_metadata row.metadata;
    blockchain_status =
        unwrap_or (blockchain_status_from_str row.blockchain_status) BlockchainStatus.pending;
    blockchain_signature = row.blockchain_signature;
    blockchain_retry_count = row.blockchain_retry_count;
    blockchain_last_error = row.blockchain_last_error;
    blockchain_next_retry_at = row.blockchain_next_retry_at;
    created_at = row.created_at;
    updated_at = row.updated_at;
  })

  unfoldable pub row_to_outbox : OutboxRow → Result ItemError SolanaOutboxEntry
  row_to_outbox row = elim (env.payload_from_json row.payload) [
    | none ↦ err repository_failure
    | some payload ↦ ok (record {
      id = row.id;
      aggregate_id = row.aggregate_id;
      payload = payload;
      status = unwrap_or (outbox_status_from_str row.status) OutboxStatus.pending;
      retry_count = row.retry_count;
      attempt_blockhash = row.attempt_blockhash;
      created_at = row.created_at;
    })
  ]
