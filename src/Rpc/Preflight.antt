-- ===== src/Rpc/Preflight.antt =====
-- How a refused preflight of sendTransaction is understood.
use testable_rust_architectu.Base.{String, ◌≡◌, refl, some, arith}
use testable_rust_architectu.Base.Int.{negsuc}
use testable_rust_architectu.Domain.Errors.{insufficient_funds}
use testable_rust_architectu.Service.{attempt_update}
use testable_rust_architectu.Rpc.Provider.{JsonRpcError, rpc_error}
use testable_rust_architectu.Rpc.Calls.{is_blockhash_expired}
use testable_rust_architectu.Rpc.Client.{send_error}

preflight_refused : (e : JsonRpcError) → e.code ≡ negsuc 32001 → rpc_error e ≡ insufficient_funds
unfolding rpc_error
preflight_refused e h = ground arith

-- An answer with code -32002 never counts as an expired blockhash, whatever its message says: the
-- service is told to keep the blockhash that the transaction was built with.
pub preflight_keeps_blockhash :
    (lower : String → String) (blockhash : String) (e : JsonRpcError)
    → e.code ≡ negsuc 32001
    → (rpc_error e ≡ insufficient_funds)
      × (attempt_update (send_error lower blockhash (rpc_error e)) ≡ some (some blockhash))
unfolding send_error attempt_update is_blockhash_expired
preflight_keeps_blockhash lower blockhash e h =
    let refused = preflight_refused e h in (refused, rw refused refl)
