-- ===== src/Rpc/Blank.antt =====
-- What becomes of an entry whose blockhash could not be fetched over HTTP.
use testable_rust_architectu.Base.{
  ℕ, zero, suc, String, ◌≡◌, refl, sym, ◌≢◌, ◌⊎◌, inl, inr, none, some, arith, ap, subst,
}
use testable_rust_architectu.Base.Effects.{Result, ok, err, Result-cases}
use testable_rust_architectu.Domain.Errors.{BlockchainError, submission_failed_with_blockhash}
use testable_rust_architectu.Domain.Items.{Time}
use testable_rust_architectu.Service.{attempt_update}
use testable_rust_architectu.Rpc.Provider.{HttpOutcome, JsonRpcRequest, http_provider, interpret}
use testable_rust_architectu.Rpc.Calls.{RpcClientConfig, decoded, rpc_call, retry_loop}
use testable_rust_architectu.Rpc.Client.{
  RpcBlockchainClient, submit_transaction, get_latest_blockhash,
}
use testable_rust_architectu.Rpc.Sticky.{submit_unfetched, submit_unparsable}

-- An error that names no blockhash, or the empty text for one.
abbrev pub IsBlank : BlockchainError → Type 0
IsBlank e = (attempt_update e ≡ none) ⊎ (attempt_update e ≡ some (some ""))

interpret-IsBlank :
    (outcome : HttpOutcome) (e : BlockchainError) → interpret outcome ≡ err e → IsBlank e
unfolding interpret attempt_update
interpret-IsBlank outcome e h = ground arith

abbrev EndsBlank : {R : Type 0} → Result BlockchainError R → Type 0
EndsBlank (ok _) = Unit
EndsBlank (err e) = IsBlank e

module _ {S R : Type 0} (exchange : JsonRpcRequest → S → HttpOutcome × S) (sleep : Time → S → S)
    (decode : String → Result String R) where
  decoded-EndsBlank : (v : String) → EndsBlank (decoded (http_provider exchange) sleep decode v)
  unfolding attempt_update
  decoded-EndsBlank v = elim (Result-cases (decode v)) [
    | inl (m, x) ↦ rw (x, decoded, EndsBlank) (inl refl)
    | inr (r, x) ↦ rw (x, decoded, EndsBlank) tt
  ]

  abbrev request : String → String → JsonRpcRequest
  request method params = record { jsonrpc = "2.0"; id = 1; method = method; params = params }

  retry_loop-EndsBlank :
      (config : RpcClientConfig) (left : ℕ) (method params : String) (last : BlockchainError)
      (s : S)
      → IsBlank last
      → EndsBlank
          (retry_loop
            (http_provider exchange)
            sleep
            decode
            config
            left
            method
            params
            (some last)
            s).0
  unfolding retry_loop http_provider
  retry_loop-EndsBlank config zero method params last s b = b
  retry_loop-EndsBlank config (suc left) method params last s b =
      let (outcome, s') = exchange (request method params) (sleep config.retry_delay s) in
      elim (Result-cases (interpret outcome)) [
        | inl (e, x) ↦
            rw (x, EndsBlank)
              (retry_loop-EndsBlank config left method params e s' (interpret-IsBlank outcome e x))
        | inr (v, x) ↦ rw (x, EndsBlank) (decoded-EndsBlank v)
      ]

  -- Whatever error a call over HTTP ends in, it names no blockhash or the empty text for one.
  pub rpc_call-EndsBlank :
      (config : RpcClientConfig) (method params : String) (s : S)
      → EndsBlank (rpc_call (http_provider exchange) sleep decode config method (ok params) s).0
  unfolding rpc_call http_provider
  rpc_call-EndsBlank config method params s =
      let (outcome, s') = exchange (request method params) s in
      elim (Result-cases (interpret outcome)) [
        | inl (e, x) ↦
            rw (x, EndsBlank)
              (retry_loop-EndsBlank config config.max_retries method params e s'
                (interpret-IsBlank outcome e x))
        | inr (v, x) ↦ rw (x, EndsBlank) (decoded-EndsBlank v)
      ]

-- An error that comes with a blockhash for the service to store.
abbrev pub NamesBlockhash : BlockchainError → Type 0
NamesBlockhash e = attempt_update e ≢ none

blank_of_named :
    (e : BlockchainError) → IsBlank e → NamesBlockhash e → attempt_update e ≡ some (some "")
blank_of_named e (inl h) n = absurd (n h)
blank_of_named e (inr h) n = h

-- The first attempt ends in `e`, which makes the service store the empty text; and an attempt with
-- the empty text, from any state, changes nothing, fails, and makes it store the empty text again.
abbrev pub StaysBlank :
    {S : Type 0} (client : RpcBlockchainClient S) (memo : String) (e : BlockchainError) (s : S)
    → Type 0
StaysBlank {S = S} client memo e s =
    ((submit_transaction client memo none s).0 ≡ err e)
    × (attempt_update e ≡ some (some ""))
    × ((s' : S)
        → let (r, s'') = submit_transaction client memo (some "") s' in
          (s'' ≡ s')
          × ((e' : BlockchainError) × (r ≡ err e') × (attempt_update e' ≡ some (some ""))))

-- Over HTTP, where the empty text is no blockhash: if the first attempt of an entry cannot fetch
-- a blockhash, and the error is one that comes with a blockhash to store (a timeout or a network
-- error), then the empty text is to be stored; and from any state on, an attempt with the stored
-- empty text sends nothing, fails, and asks for the empty text to be stored again.
pub blank_blockhash_stays :
    {S : Type 0} (client : RpcBlockchainClient S) (exchange : JsonRpcRequest → S → HttpOutcome × S)
    (memo x : String) (e : BlockchainError) (s : S)
    → client.provider ≡ http_provider exchange
    → client.sdk.hash_from_str "" ≡ err x
    → (get_latest_blockhash client s).0 ≡ err e
    → NamesBlockhash e
    → StaysBlank client memo e s
unfolding get_latest_blockhash attempt_update
blank_blockhash_stays client exchange memo x e s http bad lost named =
    let ends =
      subst
        (λ p.
          EndsBlank
            (rpc_call p client.sleep client.sdk.decode_blockhash client.config "getLatestBlockhash"
              (ok client.sdk.no_params) s).0)
        (sym http)
        (rpc_call-EndsBlank exchange client.sleep client.sdk.decode_blockhash client.config
          "getLatestBlockhash" client.sdk.no_params s) in
    (
      ap (λ p. p.0) (submit_unfetched client memo e s lost),
      blank_of_named e (subst EndsBlank lost ends) named,
      λ s'.
          let (same, (m, r)) = submit_unparsable client memo "" x s' bad in
          (same, (submission_failed_with_blockhash m "", r, refl)),
    )
