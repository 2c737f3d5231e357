-- ===== src/Domain/Errors.antt =====
-- domain/error.rs: the error enums and their `Display`.
use testable_rust_architectu.Base.{String, [], ◌∷◌, concat}

pub data ItemError : Type 0 where
  not_found invalid_state : String → ItemError
  repository_failure : ItemError

pub data BlockchainError : Type 0 where
  submission_failed : String → BlockchainError
  -- The message, then the blockhash that the transaction was built with.
  submission_failed_with_blockhash : String → String → BlockchainError
  blockhash_expired : BlockchainError
  network_error : String → String → BlockchainError
  insufficient_funds : BlockchainError
  timeout : String → String → BlockchainError

pub data HealthCheckError : Type 0 where
  database_unavailable blockchain_unavailable : HealthCheckError

pub data ConfigError : Type 0 where
  missing_env_var : String → ConfigError
  -- The key, then the message.
  invalid_value : String → String → ConfigError
  parse_error : String → ConfigError

pub data ValidationError : Type 0 where
  invalid_field : String → String → ValidationError
  missing_field invalid_format multiple : String → ValidationError

unfoldable pub item_error_to_string : ItemError → String
item_error_to_string (not_found s) = concat ("Item not found: " ∷ s ∷ [])
item_error_to_string (invalid_state s) = concat ("Invalid state: " ∷ s ∷ [])
item_error_to_string repository_failure = "Repository operation failed"

unfoldable pub blockchain_error_to_string : BlockchainError → String
blockchain_error_to_string (submission_failed m) =
    concat ("Transaction submission failed: " ∷ m ∷ [])
blockchain_error_to_string (submission_failed_with_blockhash m b) =
    concat ("Transaction submission failed: " ∷ m ∷ " (blockhash_used: " ∷ b ∷ ")" ∷ [])
blockchain_error_to_string blockhash_expired = "Blockhash expired or invalid"
blockchain_error_to_string (network_error m b) =
    concat ("Network error: " ∷ m ∷ " (blockhash_used: " ∷ b ∷ ")" ∷ [])
blockchain_error_to_string insufficient_funds = "Insufficient funds for transaction"
blockchain_error_to_string (timeout m b) =
    concat ("Timeout: " ∷ m ∷ " (blockhash_used: " ∷ b ∷ ")" ∷ [])

unfoldable pub validation_error_to_string : ValidationError → String
validation_error_to_string (invalid_field f m) = concat ("Invalid field '" ∷ f ∷ "': " ∷ m ∷ [])
validation_error_to_string (missing_field f) = concat ("Missing required field: " ∷ f ∷ [])
validation_error_to_string (invalid_format m) = concat ("Invalid format: " ∷ m ∷ [])
validation_error_to_string (multiple m) = concat ("Validation failed: " ∷ m ∷ [])

unfoldable pub health_check_error_to_string : HealthCheckError → String
health_check_error_to_string database_unavailable = "Database unavailable"
health_check_error_to_string blockchain_unavailable = "Blockchain unavailable"

unfoldable pub config_error_to_string : ConfigError → String
config_error_to_string (missing_env_var v) = concat ("Missing environment variable: " ∷ v ∷ [])
config_error_to_string (invalid_value k m) = concat ("Invalid value for '" ∷ k ∷ "': " ∷ m ∷ [])
config_error_to_string (parse_error m) = concat ("Parse error: " ∷ m ∷ [])

-- `From<&str>`.
unfoldable pub config_error_from : String → ConfigError
config_error_from s = parse_error s
