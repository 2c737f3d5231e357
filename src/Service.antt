-- ===== src/Service.antt =====
-- app/service.rs: the application service, over any adapters of the ports.
pub mod Expected
pub mod Backoff
pub mod Requests
pub mod Attempts
pub mod Passes
pub mod GivingUp
pub mod Standing
pub mod Settling
pub mod Reading
pub mod Selecting
pub mod Claiming
pub mod Delivery
pub mod Columns
pub mod Late
use testable_rust_architectu.Base.{
  ℕ, suc, ◌+◌, ◌^◌, String, Bool, true, false, Option, none, some, List, [], ◌∷◌, if◌then◌else◌,
  leb, min, length,
}
use testable_rust_architectu.Base.Int.{ℤ}
use testable_rust_architectu.Base.Effects.{
  Action, Result, ok, err, pure, raise, lift, ok_or, map_err, map_err_result, matching, ◌>>=◌, ◌>>◌,
}
use testable_rust_architectu.Domain.Errors.{
  ItemError, not_found, invalid_state, BlockchainError, submission_failed,
  submission_failed_with_blockhash, blockhash_expired, network_error, insufficient_funds, timeout,
  blockchain_error_to_string, HealthCheckError, ValidationError, multiple,
}
use testable_rust_architectu.Domain.Status.{
  BlockchainStatus, pending_submission, submitted, confirmed, OutboxStatus,
}
use testable_rust_architectu.Domain.Items.{
  Time, seconds, Item, CreateItemRequest, PaginatedResponse, SolanaOutboxEntry,
}
use testable_rust_architectu.Domain.Validation.{FieldError, validate}
use testable_rust_architectu.Domain.Health.{
  HealthStatus, healthy, unhealthy, HealthResponse, health_response_new,
}
use testable_rust_architectu.Domain.Hash.{build_solana_outbox_payload_from_item}
use testable_rust_architectu.Domain.Ports.{
  ItemRepository, OutboxRepository, Failure, BlockchainClient,
}

pub data CreateItemError : Type 0 where
  validation : ValidationError → CreateItemError
  item : ItemError → CreateItemError

pub data ProcessError : Type 0 where
  item : ItemError → ProcessError
  blockchain : BlockchainError → ProcessError

abbrev pub max_retry_attempts : ℕ
max_retry_attempts = 10

abbrev pub max_backoff_secs : ℕ
max_backoff_secs = 300

-- Seconds before attempt number `retry_count`.
unfoldable pub calculate_backoff : ℕ → ℕ
calculate_backoff retry_count = min (2 ^ min retry_count 8) max_backoff_secs

-- The adapters, and what the service takes from its surroundings: the clock, SHA-256, the text of
-- `validator`'s errors and the version of the crate.
pub record AppService (S : Type 0) : Type 0 where
  pub item_repo : ItemRepository S
  pub outbox_repo : OutboxRepository S
  pub blockchain_client : BlockchainClient S
  pub utc_now : S → Time × S
  pub sha256 : String → List ℕ
  pub show_field_errors : List FieldError → String
  pub version : String

-- Which update of the stored blockhash an error of the chain asks for.
unfoldable pub attempt_update : BlockchainError → Option (Option String)
attempt_update blockhash_expired = some none
attempt_update (submission_failed_with_blockhash m used) = some (some used)
attempt_update (timeout m blockhash) = some (some blockhash)
attempt_update (network_error m blockhash) = some (some blockhash)
attempt_update (submission_failed m) = none
attempt_update insufficient_funds = none

abbrev pub is_retryable : BlockchainStatus → Bool
is_retryable pending_submission = true
is_retryable BlockchainStatus.failed = true
is_retryable _ = false

abbrev pub is_queued : BlockchainStatus → Bool
is_queued pending_submission = true
is_queued _ = false

abbrev health_of : Result HealthCheckError (Unit {0}) → HealthStatus
health_of (ok _) = healthy
health_of (err _) = unhealthy

module _ {S : Type 0} (app : AppService S) where
  abbrev clock : {E : Type 0} → Action S E Time
  clock s = let (t, s') = app.utc_now s in (ok t, s')

  unfoldable pub create_and_submit_item : CreateItemRequest → Action S CreateItemError Item
  create_and_submit_item request = do
    lift (map_err_result (λ e. validation (multiple (app.show_field_errors e))) (validate request))
    map_err CreateItemError.item (app.item_repo.create_item request)

  unfoldable pub get_item : String → Action S ItemError (Option Item)
  get_item id = app.item_repo.get_item id

  unfoldable pub list_items : ℤ → Option String → Action S ItemError (PaginatedResponse Item)
  list_items limit cursor = app.item_repo.list_items limit cursor

  -- The retry of an item that was found, by its status.
  unfoldable pub retry_item : Item → Action S ItemError Item
  unfolding build_solana_outbox_payload_from_item
  retry_item i =
      if is_retryable i.blockchain_status
      then (if is_queued i.blockchain_status
          then pure i
          else app.item_repo.enqueue_solana_outbox_for_item i.id
              (build_solana_outbox_payload_from_item app.sha256 i))
      else raise (invalid_state "Item is not pending submission or failed")

  unfoldable pub retry_blockchain_submission : String → Action S ItemError Item
  unfolding retry_item
  retry_blockchain_submission id = do
    found ← app.item_repo.get_item id
    i ← ok_or found (not_found id)
    retry_item i

  -- What is recorded of a failed attempt, which was number `retry_count`.
  unfoldable pub failure : ℕ → BlockchainError → Action S ProcessError Failure
  unfolding attempt_update calculate_backoff
  failure retry_count e =
      if leb max_retry_attempts retry_count
      then pure (record {
        retry_count = retry_count;
        outbox_status = OutboxStatus.failed;
        item_status = BlockchainStatus.failed;
        error = blockchain_error_to_string e;
        next_retry_at = none;
        attempt_blockhash = attempt_update e;
      })
      else (do
        at ← clock
        pure (record {
          retry_count = retry_count;
          outbox_status = OutboxStatus.pending;
          item_status = pending_submission;
          error = blockchain_error_to_string e;
          next_retry_at = some (at + seconds (calculate_backoff retry_count));
          attempt_blockhash = attempt_update e;
        }))

  unfoldable pub handle_outcome :
      SolanaOutboxEntry
      → Result BlockchainError (String × String)
      → Action S ProcessError (Unit {0})
  handle_outcome entry (ok (signature, used)) =
      map_err ProcessError.item
        (app.outbox_repo.complete_solana_outbox entry.id entry.aggregate_id signature)
  handle_outcome entry (err e) = do
    f ← failure (entry.retry_count + 1) e
    map_err ProcessError.item (app.outbox_repo.fail_solana_outbox entry.id entry.aggregate_id f)

  unfoldable pub process_outbox_entry : SolanaOutboxEntry → Action S ProcessError (Unit {0})
  unfolding handle_outcome
  process_outbox_entry entry =
      matching (app.blockchain_client.submit_transaction entry.payload.hash entry.attempt_blockhash)
        (handle_outcome entry)

  -- The loop: an error of one entry is logged, and the next entry is processed.
  unfoldable pub process_entries : List SolanaOutboxEntry → S → S
  unfolding process_outbox_entry
  process_entries [] s = s
  process_entries (entry ∷ entries) s = process_entries entries (process_outbox_entry entry s).1

  unfoldable pub process_pending_submissions : ℕ → Action S ItemError ℕ
  unfolding process_entries
  process_pending_submissions batch_size = do
    entries ← app.outbox_repo.claim_pending_solana_outbox batch_size
    λ s. (ok (length entries), process_entries entries s)

  unfoldable pub health_check : S → HealthResponse × S
  unfolding health_response_new
  health_check s =
      let (db, s1) = app.item_repo.health_check s in
      let (chain, s2) = app.blockchain_client.health_check s1 in
      let (at, s3) = app.utc_now s2 in
      (health_response_new at app.version (health_of db) (health_of chain), s3)
