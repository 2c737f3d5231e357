-- ===== src/Postgres/Client.antt =====
-- infra/database/postgres.rs: `PostgresClient` as the two repositories.
use testable_rust_architectu.Domain.Ports.{
  ItemRepository, OutboxRepository, update_item_default, delete_item_default,
}
use testable_rust_architectu.World.{World, Env}
use testable_rust_architectu.Postgres.Items
use testable_rust_architectu.Postgres.Outbox

abbrev pub postgres_items : Env → ItemRepository World
postgres_items env = record {
  health_check = Items.health_check env;
  get_item = Items.get_item env;
  create_item = Items.create_item env;
  list_items = Items.list_items env;
  update_item = update_item_default;
  delete_item = delete_item_default;
  update_blockchain_status = Items.update_blockchain_status env;
  enqueue_solana_outbox_for_item = Items.enqueue_solana_outbox_for_item env;
  get_pending_blockchain_items = Items.get_pending_blockchain_items env;
  increment_retry_count = Items.increment_retry_count env;
}

abbrev pub postgres_outbox : Env → OutboxRepository World
postgres_outbox env = record {
  health_check = Outbox.health_check env;
  claim_pending_solana_outbox = Outbox.claim_pending_solana_outbox env;
  complete_solana_outbox = Outbox.complete_solana_outbox env;
  fail_solana_outbox = Outbox.fail_solana_outbox env;
  save_attempt_blockhash = Outbox.save_attempt_blockhash env;
}
