-- ===== src/Domain/Ports.antt =====
-- domain/traits.rs: the ports of the application, as records of operations over a state `S`
-- that holds all that the adapters and their environment remember.
use testable_rust_architectu.Base.{ℕ, String, Bool, Option, List}
use testable_rust_architectu.Base.Int.{ℤ}
use testable_rust_architectu.Base.Effects.{Action, raise}
use testable_rust_architectu.Domain.Errors.{
  ItemError, invalid_state, BlockchainError, submission_failed, HealthCheckError,
}
use testable_rust_architectu.Domain.Status.{BlockchainStatus, OutboxStatus}
use testable_rust_architectu.Domain.Items.{
  Time, Item, CreateItemRequest, PaginatedResponse, SolanaOutboxEntry, SolanaOutboxPayload,
}

pub record TransactionSigner (S : Type 0) : Type 0 where
  pub sign_message : String → Action S BlockchainError String
  pub public_key : String

pub record ItemRepository (S : Type 0) : Type 0 where
  pub health_check : Action S HealthCheckError (Unit {0})
  pub get_item : String → Action S ItemError (Option Item)
  pub create_item : CreateItemRequest → Action S ItemError Item
  pub list_items : ℤ → Option String → Action S ItemError (PaginatedResponse Item)
  pub update_item : String → CreateItemRequest → Action S ItemError Item
  pub delete_item : String → Action S ItemError Bool
  -- The id, the status, the signature, the error and the time of the next attempt.
  pub update_blockchain_status :
      String
      → BlockchainStatus
      → Option String
      → Option String
      → Option Time
      → Action S ItemError (Unit {0})
  pub enqueue_solana_outbox_for_item : String → SolanaOutboxPayload → Action S ItemError Item
  pub get_pending_blockchain_items : ℕ → Action S ItemError (List Item)
  pub increment_retry_count : String → Action S ItemError ℕ

-- What `fail_solana_outbox` is told about an attempt. For `attempt_blockhash`, `none` leaves the
-- stored blockhash alone, `some none` clears it and `some (some h)` stores `h`.
pub record Failure : Type 0 where
  pub retry_count : ℕ
  pub outbox_status : OutboxStatus
  pub item_status : BlockchainStatus
  pub error : String
  pub next_retry_at : Option Time
  pub attempt_blockhash : Option (Option String)

pub record OutboxRepository (S : Type 0) : Type 0 where
  pub health_check : Action S HealthCheckError (Unit {0})
  pub claim_pending_solana_outbox : ℕ → Action S ItemError (List SolanaOutboxEntry)
  pub complete_solana_outbox : String → String → String → Action S ItemError (Unit {0})
  pub fail_solana_outbox : String → String → Failure → Action S ItemError (Unit {0})
  pub save_attempt_blockhash : String → Option String → Action S ItemError (Unit {0})

pub record BlockchainClient (S : Type 0) : Type 0 where
  pub health_check : Action S HealthCheckError (Unit {0})
  -- The signature and the blockhash that the transaction was built with.
  pub submit_transaction : String → Option String → Action S BlockchainError (String × String)
  pub get_transaction_status : String → Action S BlockchainError Bool
  pub get_block_height : Action S BlockchainError ℕ
  pub get_latest_blockhash : Action S BlockchainError String
  pub wait_for_confirmation : String → ℕ → Action S BlockchainError Bool

-- The default methods: an adapter that does not implement an operation refuses it.
module _ {S : Type 0} where
  unfoldable pub update_item_default : String → CreateItemRequest → Action S ItemError Item
  update_item_default id r = raise (invalid_state "update_item not implemented")

  unfoldable pub delete_item_default : String → Action S ItemError Bool
  delete_item_default id = raise (invalid_state "delete_item not implemented")

  unfoldable pub get_transaction_status_default : String → Action S BlockchainError Bool
  get_transaction_status_default signature =
      raise (submission_failed "get_transaction_status not implemented")

  unfoldable pub get_block_height_default : Action S BlockchainError ℕ
  get_block_height_default = raise (submission_failed "get_block_height not implemented")

  unfoldable pub get_latest_blockhash_default : Action S BlockchainError String
  get_latest_blockhash_default = raise (submission_failed "get_latest_blockhash not implemented")

  unfoldable pub wait_for_confirmation_default : String → ℕ → Action S BlockchainError Bool
  wait_for_confirmation_default signature timeout_secs =
      raise (submission_failed "wait_for_confirmation not implemented")
