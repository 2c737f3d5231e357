-- ===== src/Api/Responses.antt =====
-- api/handlers.rs: the responses that errors turn into. A response is its status and its body.
use testable_rust_architectu.Base.{ℕ, String}
use testable_rust_architectu.Domain.Errors.{
  ItemError, not_found, invalid_state, repository_failure, item_error_to_string, BlockchainError,
  submission_failed, submission_failed_with_blockhash, blockhash_expired, network_error,
  insufficient_funds, timeout, blockchain_error_to_string, ValidationError,
  validation_error_to_string,
}
use testable_rust_architectu.Service.{CreateItemError, validation}

pub record ErrorResponse : Type 0 where
  pub status : ℕ
  pub error_type : String
  pub message : String

unfoldable pub error_response : ℕ → String → String → ErrorResponse
error_response status error_type message = record {
  status = status;
  error_type = error_type;
  message = message;
}

unfoldable pub item_error_into_response : ItemError → ErrorResponse
unfolding error_response
item_error_into_response (not_found id) =
    error_response 404 "not_found" (item_error_to_string (not_found id))
item_error_into_response (invalid_state m) =
    error_response 400 "invalid_state" (item_error_to_string (invalid_state m))
item_error_into_response repository_failure =
    error_response 500 "repository_error" "Internal server error"

unfoldable pub blockchain_error_into_response : BlockchainError → ErrorResponse
unfolding error_response
blockchain_error_into_response (submission_failed m) =
    error_response 500 "blockchain_error" "Transaction submission failed"
blockchain_error_into_response (submission_failed_with_blockhash m b) =
    error_response 500 "blockchain_error" "Transaction submission failed"
blockchain_error_into_response blockhash_expired =
    error_response 400 "blockhash_expired" "Blockhash expired or invalid"
blockchain_error_into_response (network_error m b) =
    error_response 503 "blockchain_unavailable" "Blockchain service unavailable"
blockchain_error_into_response insufficient_funds =
    error_response 402 "insufficient_funds" (blockchain_error_to_string insufficient_funds)
blockchain_error_into_response (timeout m b) =
    error_response 504 "timeout" (blockchain_error_to_string (timeout m b))

unfoldable pub validation_error_into_response : ValidationError → ErrorResponse
unfolding error_response
validation_error_into_response e =
    error_response 400 "validation_error" (validation_error_to_string e)

unfoldable pub create_item_error_into_response : CreateItemError → ErrorResponse
unfolding validation_error_into_response item_error_into_response
create_item_error_into_response (validation e) = validation_error_into_response e
create_item_error_into_response (CreateItemError.item e) = item_error_into_response e
