-- ===== src/Rpc/Provider.antt =====
-- infra/blockchain/solana.rs: the JSON-RPC provider over HTTP. The HTTP exchange is a parameter;
-- a JSON value is its text.
use text.Mathlib.Text.{find?}
use testable_rust_architectu.Base.{
  String, Bool, true, false, ◌||◌, Option, none, some, [], ◌∷◌, if◌then◌else◌, concat,
}
use testable_rust_architectu.Base.Int.{ℤ, negsuc, pos_part, neg_part}
use testable_rust_architectu.Base.Show.{show_ℤ}
use testable_rust_architectu.Base.{ℕ, ◌==◌, ◌&&◌}
use testable_rust_architectu.Base.Effects.{Action, Result, ok, err}
use testable_rust_architectu.Domain.Errors.{
  BlockchainError, submission_failed, network_error, insufficient_funds, timeout,
}

pub record JsonRpcRequest : Type 0 where
  pub jsonrpc : String
  pub id : ℕ
  pub method : String
  pub params : String

-- `code` is an `i64`.
pub record JsonRpcError : Type 0 where
  pub code : ℤ
  pub message : String

pub record JsonRpcResponse : Type 0 where
  pub result : Option String
  pub error : Option JsonRpcError

-- What `reqwest` reports: an error of the exchange, which may be a timeout, a body that is no
-- JSON-RPC response, or a response.
pub data HttpOutcome : Type 0 where
  failed : Bool → String → HttpOutcome
  undecodable : String → HttpOutcome
  responded : JsonRpcResponse → HttpOutcome

-- `str::contains`.
abbrev pub contains : String → String → Bool
contains s t = elim (find? s t) [ none ↦ false | some _ ↦ true ]

abbrev eq_ℤ : ℤ → ℤ → Bool
eq_ℤ a b = pos_part a == pos_part b && neg_part a == neg_part b

pub record SolanaRpcProvider (S : Type 0) : Type 0 where
  pub send_request : String → String → Action S BlockchainError String

unfoldable pub rpc_error : JsonRpcError → BlockchainError
rpc_error e =
    if contains e.message "insufficient" || eq_ℤ e.code (negsuc 32001)
    then insufficient_funds
    else submission_failed (concat (show_ℤ e.code ∷ ": " ∷ e.message ∷ []))

unfoldable pub interpret_response : JsonRpcResponse → Result BlockchainError String
unfolding rpc_error
interpret_response r = elim r.error [
  | some e ↦ err (rpc_error e)
  | none ↦ elim r.result [ some v ↦ ok v | none ↦ err (submission_failed "Empty response") ]
]

unfoldable pub interpret : HttpOutcome → Result BlockchainError String
unfolding interpret_response
interpret (failed true m) = err (timeout m "")
interpret (failed false m) = err (network_error m "")
interpret (undecodable m) = err (submission_failed m)
interpret (responded r) = interpret_response r

-- `HttpSolanaRpcProvider`.
unfoldable pub http_provider :
    {S : Type 0} → (JsonRpcRequest → S → HttpOutcome × S) → SolanaRpcProvider S
unfolding interpret
http_provider exchange = record {
  send_request = λ method params s.
      let (outcome, s') =
        exchange (record { jsonrpc = "2.0"; id = 1; method = method; params = params }) s in
      (interpret outcome, s');
}
