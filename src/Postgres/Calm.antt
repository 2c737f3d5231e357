-- ===== src/Postgres/Calm.antt =====
-- infra/database/postgres.rs: what the writes under ids that exist do when no call of the database
-- fails.
use testable_rust_architectu.Base.{ℕ, ◌+◌, String, ◌≡◌, Option, none, arith}
use testable_rust_architectu.Base.Effects.{ok}
use testable_rust_architectu.Domain.Status.{BlockchainStatus, blockchain_status_as_str}
use testable_rust_architectu.Domain.Items.{Time}
use testable_rust_architectu.Domain.Ports.{Failure}
use testable_rust_architectu.World.{World, Env, ItemRow}
use testable_rust_architectu.Postgres.Sql
use testable_rust_architectu.Postgres.Items
use testable_rust_architectu.Postgres.Outbox
use testable_rust_architectu.Postgres.Effects.{failed_tables, completed_tables}

-- The row that `update_blockchain_status` writes.
abbrev pub updated_row :
    BlockchainStatus → Option String → Option String → Option Time → Time → ItemRow → ItemRow
updated_row status signature error next at r = record r {
  blockchain_status = blockchain_status_as_str status;
  blockchain_signature = Items.coalesce signature r.blockchain_signature;
  blockchain_last_error = error;
  blockchain_next_retry_at = next;
  updated_at = at;
}

module _ (env : Env) (calm : (n : ℕ) → env.fault n ≡ none) (w : World) where
  pub complete_calm :
      (outbox_id item_id signature : String)
      → let (r, w') = Outbox.complete_solana_outbox env outbox_id item_id signature w in
        (r ≡ ok tt) × (w'.tables ≡ completed_tables env outbox_id item_id signature w)
  unfolding Outbox.complete_solana_outbox
  complete_calm outbox_id item_id signature = ground (
    arith,
    calm (w.ticks + 1),
    calm (w.ticks + 1 + 1),
    calm (w.ticks + 1 + 1 + 1),
    calm (w.ticks + 1 + 1 + 1 + 1),
  )

  pub fail_calm :
      (outbox_id item_id : String) (f : Failure)
      → let (r, w') = Outbox.fail_solana_outbox env outbox_id item_id f w in
        (r ≡ ok tt) × (w'.tables ≡ failed_tables env outbox_id item_id f w)
  unfolding Outbox.fail_solana_outbox
  fail_calm outbox_id item_id f = ground (
    arith,
    calm (w.ticks + 1),
    calm (w.ticks + 1 + 1),
    calm (w.ticks + 1 + 1 + 1),
    calm (w.ticks + 1 + 1 + 1 + 1),
  )

  pub save_calm :
      (outbox_id : String) (blockhash : Option String)
      → let (r, w') = Outbox.save_attempt_blockhash env outbox_id blockhash w in
        (r ≡ ok tt)
        × (w'.tables ≡ record w.tables {
          outbox =
              Sql.update_outbox_where outbox_id
                (λ r. record r { attempt_blockhash = blockhash })
                w.tables.outbox;
        })
  unfolding Outbox.save_attempt_blockhash
  save_calm outbox_id blockhash = ground (arith, calm w.ticks)

  pub update_calm :
      (id : String) (status : BlockchainStatus) (signature error : Option String)
      (next : Option Time)
      → let (r, w') = Items.update_blockchain_status env id status signature error next w in
        (r ≡ ok tt)
        × (w'.tables ≡ record w.tables {
          items =
              Sql.update_items_where id
                (updated_row status signature error next (env.utc_now w.ticks))
                w.tables.items;
        })
  unfolding Items.update_blockchain_status
  update_calm id status signature error next = ground (arith, calm (w.ticks + 1))
