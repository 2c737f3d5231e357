-- ===== src/Mock/Chain.antt =====
-- test_utils/mocks.rs: `MockBlockchainClient`.
use testable_rust_architectu.Base.{
  ℕ, String, Bool, true, not, Option, none, some, List, [], ◌∷◌, ◌++◌, concat, if◌then◌else◌, any,
}
use testable_rust_architectu.Base.Effects.{
  Action, Result, ok, err, pure, gets, lift, map_err, modify, ◌>>◌,
}
use testable_rust_architectu.Domain.Errors.{
  BlockchainError, timeout, submission_failed, HealthCheckError, blockchain_unavailable,
}
use testable_rust_architectu.Domain.Ports.{BlockchainClient}
use testable_rust_architectu.Rpc.Provider.{contains}
use testable_rust_architectu.Mock.Store.{MockConfig}

-- The fields that change; the transactions stand in the order in which they were pushed.
pub record ChainState : Type 0 where
  pub transactions : List String
  pub is_healthy : Bool

-- What `MockBlockchainClient::with_config` starts with.
unfoldable pub empty_chain : ChainState
empty_chain = record { transactions = []; is_healthy = true }

unfoldable pub get_transactions : ChainState → List String
get_transactions s = s.transactions

abbrev text_or : String → Option String → String
text_or d none = d
text_or d (some t) = t

-- `MockBlockchainClient::check_should_fail`.
abbrev pub check_chain : MockConfig → Result BlockchainError (Unit {0})
check_chain config =
    if config.should_fail
    then (if config.fail_with_timeout
        then err (timeout "Mock timeout" (text_or "" config.timeout_blockhash))
        else err (submission_failed (text_or "Mock error" config.error_message)))
    else ok tt

unfoldable pub set_chain_healthy : Bool → ChainState → ChainState
set_chain_healthy healthy s = record s { is_healthy = healthy }

module _ (config : MockConfig) where
  unfoldable pub chain_health_check : Action ChainState HealthCheckError (Unit {0})
  chain_health_check s =
      if not s.is_healthy
      then (err blockchain_unavailable, s)
      else map_err (λ (e : BlockchainError). blockchain_unavailable) (lift (check_chain config)) s

  unfoldable pub submit_transaction :
      String → Option String → Action ChainState BlockchainError (String × String)
  submit_transaction hash existing_blockhash = do
    lift (check_chain config)
    modify (λ s. record s { transactions = s.transactions ++ (hash ∷ []) })
    pure (concat ("sig_" ∷ hash ∷ []), text_or "mock_blockhash" existing_blockhash)

  -- Whether the signature contains a transaction that was pushed.
  unfoldable pub get_transaction_status : String → Action ChainState BlockchainError Bool
  get_transaction_status signature = do
    lift (check_chain config)
    gets (λ s. any (λ t. contains signature t) s.transactions)

  unfoldable pub get_block_height : Action ChainState BlockchainError ℕ
  get_block_height = do lift (check_chain config); pure 12345678

  unfoldable pub get_latest_blockhash : Action ChainState BlockchainError String
  get_latest_blockhash = do lift (check_chain config); pure "mock_blockhash_abc123"

  unfoldable pub wait_for_confirmation : String → ℕ → Action ChainState BlockchainError Bool
  unfolding get_transaction_status
  wait_for_confirmation signature timeout_secs = get_transaction_status signature

  abbrev pub mock_client : BlockchainClient ChainState
  mock_client = record {
    health_check = chain_health_check;
    submit_transaction = submit_transaction;
    get_transaction_status = get_transaction_status;
    get_block_height = get_block_height;
    get_latest_blockhash = get_latest_blockhash;
    wait_for_confirmation = wait_for_confirmation;
  }
