-- ===== src/Postgres/Effects.antt =====
-- What each write of the two repositories does to the tables: all of it, or nothing and an error.
use testable_rust_architectu.Base.{
  ℕ, ◌+◌, String, ◌≡◌, ◌⊎◌, Option, none, some, true, false, ◌∷◌, map, if◌then◌else◌, arith,
}
use testable_rust_architectu.Base.Int.{ℤ}
use testable_rust_architectu.Base.Effects.{Result}
use testable_rust_architectu.Domain.Ports.{Failure}
use testable_rust_architectu.Domain.Status.{BlockchainStatus, blockchain_status_as_str}
use testable_rust_architectu.Domain.Items.{Time, SolanaOutboxPayload}
use testable_rust_architectu.World.{Tables, World, Env, ItemRow, OutboxRow}
use testable_rust_architectu.Postgres.Sql.{
  update_items_where, update_outbox_where, has_item, has_outbox,
}
use testable_rust_architectu.Postgres.Items.{
  pending_candidates, is_listed, touched, coalesce, update_blockchain_status,
  get_pending_blockchain_items, increment_retry_count, get_item, list_items, new_outbox_row,
  requeued, enqueue_solana_outbox_for_item,
}
use testable_rust_architectu.Postgres.Rows.{row_to_item}
use testable_rust_architectu.Postgres.Outbox.{
  claim_pending_solana_outbox, candidates, is_among, claimed, failed_row, failed_item,
  completed_row, submitted_item, complete_solana_outbox, fail_solana_outbox, save_attempt_blockhash,
}
use testable_rust_architectu.Postgres.Atomicity.{IsErr}

abbrev pub AllOrNothing : {E A : Type 0} → Tables → Tables → Result E A × World → Type 0
AllOrNothing before after (r, w') = (w'.tables ≡ after) ⊎ (IsErr r × (w'.tables ≡ before))

abbrev pub failed_tables : Env → String → String → Failure → World → Tables
failed_tables env outbox_id item_id f w = record {
  items = update_items_where item_id (failed_item f (env.utc_now w.ticks)) w.tables.items;
  outbox = update_outbox_where outbox_id (failed_row f (env.db_now (w.ticks + 1))) w.tables.outbox;
}

abbrev pub completed_tables : Env → String → String → String → World → Tables
completed_tables env outbox_id item_id signature w = record {
  items =
      update_items_where item_id (submitted_item signature (env.utc_now w.ticks)) w.tables.items;
  outbox = update_outbox_where outbox_id (completed_row (env.db_now (w.ticks + 1))) w.tables.outbox;
}

module _ (env : Env) (w : World) where
  pub fail_effect :
      (outbox_id item_id : String) (f : Failure)
      → AllOrNothing w.tables
          (failed_tables env outbox_id item_id f w)
          (fail_solana_outbox env outbox_id item_id f w)
  unfolding fail_solana_outbox
  fail_effect outbox_id item_id f = ground arith

  pub complete_effect :
      (outbox_id item_id signature : String)
      → AllOrNothing w.tables
          (completed_tables env outbox_id item_id signature w)
          (complete_solana_outbox env outbox_id item_id signature w)
  unfolding complete_solana_outbox
  complete_effect outbox_id item_id signature = ground arith

  pub get_item_same : (id : String) → (get_item env id w).1.tables ≡ w.tables
  unfolding get_item
  get_item_same id = ground arith

  pub list_items_same :
      (limit : ℤ) (cursor : Option String) → (list_items env limit cursor w).1.tables ≡ w.tables
  unfolding list_items
  list_items_same limit none = ground arith
  list_items_same limit (some c) = ground arith

  pub save_effect :
      (outbox_id : String) (blockhash : Option String)
      → AllOrNothing w.tables
          (record w.tables {
            outbox =
                update_outbox_where outbox_id
                  (λ r. record r { attempt_blockhash = blockhash })
                  w.tables.outbox;
          })
          (save_attempt_blockhash env outbox_id blockhash w)
  unfolding save_attempt_blockhash
  save_effect outbox_id blockhash = ground arith

  -- The entry that is added, and the tables with it and with the item queued again.
  abbrev pub new_entry : String → SolanaOutboxPayload → OutboxRow
  new_entry item_id payload =
      new_outbox_row (env.uuid (w.ticks + 1)) item_id (env.payload_to_json payload)
        (env.utc_now w.ticks) (env.db_now (w.ticks + 1 + 1))

  abbrev pub enqueued_tables : String → SolanaOutboxPayload → Tables
  enqueued_tables item_id payload = record {
    items = update_items_where item_id (requeued (env.utc_now w.ticks)) w.tables.items;
    outbox = new_entry item_id payload ∷ w.tables.outbox;
  }

  pub enqueue_effect :
      (item_id : String) (payload : SolanaOutboxPayload)
      → let (r, w') = enqueue_solana_outbox_for_item env item_id payload w in
        ((w'.tables ≡ enqueued_tables item_id payload)
          × (has_outbox (env.uuid (w.ticks + 1)) w.tables.outbox ≡ false)
          × (has_item item_id w.tables.items ≡ true))
        ⊎ (IsErr r × (w'.tables ≡ w.tables))
  unfolding enqueue_solana_outbox_for_item row_to_item
  enqueue_effect item_id payload = ground arith

  pub claim_effect :
      (limit : ℕ)
      → let (r, w') = claim_pending_solana_outbox env limit w in
        let n = w.ticks + 1 in
        let chosen =
          is_among (
            candidates (env.locked n) (env.utc_now w.ticks) (env.db_now n) limit w.tables.outbox) in
        (w'.tables ≡ record w.tables {
          outbox = map (λ r. if chosen r then claimed (env.db_now n) r else r) w.tables.outbox;
        })
        ⊎ (IsErr r × (w'.tables ≡ w.tables))
  unfolding claim_pending_solana_outbox
  claim_effect limit = ground arith

  pub update_status_effect :
      (id : String) (status : BlockchainStatus) (signature error : Option String) (at : Option Time)
      → let f = λ (r : ItemRow). record r {
        blockchain_status = blockchain_status_as_str status;
        blockchain_signature = coalesce signature r.blockchain_signature;
        blockchain_last_error = error;
        blockchain_next_retry_at = at;
        updated_at = env.utc_now w.ticks;
      } in
        AllOrNothing w.tables
          (record w.tables { items = update_items_where id f w.tables.items })
          (update_blockchain_status env id status signature error at w)
  unfolding update_blockchain_status
  update_status_effect id status signature error at = ground arith

  pub touch_effect :
      (limit : ℕ)
      → let at = env.utc_now w.ticks in
        let chosen = is_listed (pending_candidates env (w.ticks + 1) at limit w.tables.items) in
        AllOrNothing w.tables
          (record w.tables {
            items = map (λ r. if chosen r then touched at r else r) w.tables.items;
          })
          (get_pending_blockchain_items env limit w)
  unfolding get_pending_blockchain_items
  touch_effect limit = ground arith

  pub increment_effect :
      (id : String)
      → AllOrNothing w.tables
          (record w.tables {
            items =
                update_items_where id
                  (λ r. record r {
                    blockchain_retry_count = r.blockchain_retry_count + 1;
                    updated_at = env.db_now w.ticks;
                  })
                  w.tables.items;
          })
          (increment_retry_count env id w)
  unfolding increment_retry_count
  increment_effect id = ground arith
