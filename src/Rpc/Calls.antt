-- ===== src/Rpc/Calls.antt =====
-- infra/blockchain/solana.rs: `rpc_call`, and the errors that a call of the node can end in.
use testable_rust_architectu.Base.{
  ℕ, zero, suc, String, Bool, false, ◌||◌, Option, none, some, [], ◌∷◌, concat,
}
use testable_rust_architectu.Base.Effects.{Action, Result, ok, err}
use testable_rust_architectu.Domain.Errors.{
  BlockchainError, submission_failed, submission_failed_with_blockhash, blockhash_expired,
  network_error, insufficient_funds, timeout,
}
use testable_rust_architectu.Domain.Items.{Time}
use testable_rust_architectu.Rpc.Provider.{SolanaRpcProvider, contains}

pub record RpcClientConfig : Type 0 where
  pub timeout : Time
  pub max_retries : ℕ
  pub retry_delay : Time
  pub confirmation_timeout : Time

-- `RpcClientConfig::default`; durations are in nanoseconds.
unfoldable pub rpc_client_config_default : RpcClientConfig
rpc_client_config_default = record {
  timeout = 30000000000;
  max_retries = 3;
  retry_delay = 500000000;
  confirmation_timeout = 60000000000;
}

unfoldable pub blockchain_error_type : BlockchainError → String
blockchain_error_type (submission_failed m) = "submission_failed"
blockchain_error_type (submission_failed_with_blockhash m b) = "submission_failed_with_blockhash"
blockchain_error_type blockhash_expired = "blockhash_expired"
blockchain_error_type (network_error m b) = "network_error"
blockchain_error_type insufficient_funds = "insufficient_funds"
blockchain_error_type (timeout m b) = "timeout"

abbrev mentions_expiry : String → Bool
mentions_expiry m =
    contains m "block height exceeded"
    || (contains m "blockhash not found"
        || (contains m "blockhash has expired"
            || (contains m "blockhash expired"
                || (contains m "blockhash is expired" || contains m "block hash expired"))))

-- `to_lowercase` is that of the standard library.
unfoldable pub is_blockhash_expired : (String → String) → BlockchainError → Bool
is_blockhash_expired to_lowercase (submission_failed m) = mentions_expiry (to_lowercase m)
is_blockhash_expired to_lowercase (submission_failed_with_blockhash m b) =
    mentions_expiry (to_lowercase m)
is_blockhash_expired to_lowercase _ = false

abbrev unwrap_error : Option BlockchainError → BlockchainError
unwrap_error none = submission_failed "Unknown error"
unwrap_error (some e) = e

module _ {S : Type 0} (provider : SolanaRpcProvider S) (sleep : Time → S → S) where
  -- `decode` is `serde_json::from_value` at the result type, with the text of its error.
  module _ {R : Type 0} (decode : String → Result String R) where
    abbrev pub decoded : String → Result BlockchainError R
    decoded v = elim (decode v) [
      | ok r ↦ ok r
      | err m ↦ err (submission_failed (concat ("Deserialization: " ∷ m ∷ [])))
    ]

    -- The rounds left of the loop over the attempts, after at least one attempt.
    unfoldable pub retry_loop :
        RpcClientConfig → ℕ → String → String → Option BlockchainError → Action S BlockchainError R
    retry_loop config zero method params last s = (err (unwrap_error last), s)
    retry_loop config (suc left) method params last s =
        let (r, s') = provider.send_request method params (sleep config.retry_delay s) in
        elim r [ ok v ↦ (decoded v, s') | err e ↦ retry_loop config left method params (some e) s' ]

    -- Attempt 0 comes without a delay; `max_retries` more follow while they fail.
    unfoldable pub rpc_call :
        RpcClientConfig → String → Result String String → Action S BlockchainError R
    unfolding retry_loop
    rpc_call config method (err m) s =
        (err (submission_failed (concat ("Serialization: " ∷ m ∷ []))), s)
    rpc_call config method (ok params) s =
        let (r, s') = provider.send_request method params s in
        elim r [
          | ok v ↦ (decoded v, s')
          | err e ↦ retry_loop config config.max_retries method params (some e) s'
        ]
