-- ===== src/Rpc/Spending.antt =====
-- infra/blockchain/solana.rs: what each operation of the client costs, if a request costs one, and
-- sleeping and signing nothing.
use testable_rust_architectu.Base.{
  ℕ, zero, suc, ◌+◌, ◌-◌, ◌*◌, ltb, String, Option, none, some, arith,
}
use testable_rust_architectu.Base.Effects.{
  Action, Result, err, ◌>>=◌, map_err, lift, pure, matching,
}
use testable_rust_architectu.Domain.Errors.{
  BlockchainError, blockchain_unavailable, blockchain_error_to_string,
  submission_failed_with_blockhash,
}
use testable_rust_architectu.Domain.Items.{Time, seconds}
use testable_rust_architectu.Rpc.Calls.{RpcClientConfig, decoded, retry_loop, rpc_call}
use testable_rust_architectu.Rpc.Client.{
  RpcBlockchainClient, memo_program_id, call, signed_transaction, build_memo_transaction,
  get_latest_blockhash, send_with, send_error, submit_transaction, get_transaction_status,
  status_of, poll, settled, wait_for_confirmation, poll_interval, not_confirmed, health_check,
}
use testable_rust_architectu.Rpc.Costs.{
  IsCost, Costs, Ended, Ended-test, Ended-round, Ended-weaken, Ended-result, >>=-Costs,
  attempt-Costs, lift->>=-Costs,
}

-- What follows in `send_with` once the transaction is built.
abbrev pub sending :
    {S : Type 0}
    → RpcBlockchainClient S
    → String
    → String
    → Action S BlockchainError (String × String)
sending client blockhash tx =
    map_err (send_error client.sdk.to_lowercase blockhash)
      (call client client.sdk.decode_text "sendTransaction" (client.sdk.send_params tx))
    >>= λ signature. pure (signature, blockhash)

-- `max_retries` and one more, if all of them fail.
abbrev pub attempts : {S : Type 0} → RpcBlockchainClient S → ℕ
attempts client = suc client.config.max_retries

module _ {S : Type 0} {R : ℕ → S → S → Type 0} (cost : IsCost R) (client : RpcBlockchainClient S)
    (sleeps : (t : Time) (s : S) → R 0 s (client.sleep t s)) (method params : String)
    (asks : Costs R 1 (client.provider.send_request method params)) where
  pub retry_loop-Costs :
      {A : Type 0} (decode : String → Result String A) (config : RpcClientConfig) (left : ℕ)
      (last : Option BlockchainError)
      → Costs R left (retry_loop client.provider client.sleep decode config left method params last)
  unfolding retry_loop
  retry_loop-Costs decode config zero last s = cost.free s
  retry_loop-Costs decode config (suc left) last s =
      let rested = client.sleep config.retry_delay s in
      let (r, s') = client.provider.send_request method params rested in
      attempt-Costs cost {b = left} s s' r (decoded client.provider client.sleep decode)
        (λ e. retry_loop client.provider client.sleep decode config left method params (some e))
        (cost.both s rested s' (sleeps config.retry_delay s) (asks rested))
        (λ e. retry_loop-Costs decode config left (some e))

  pub call-Costs :
      {A : Type 0} (decode : String → Result String A)
      → Costs R (attempts client) (call client decode method params)
  unfolding rpc_call
  call-Costs decode s =
      let (r, s') = client.provider.send_request method params s in
      attempt-Costs cost {b = client.config.max_retries} s s' r
        (decoded client.provider client.sleep decode)
        (λ e.
          retry_loop client.provider client.sleep decode client.config client.config.max_retries
            method params (some e))
        (asks s) (λ e. retry_loop-Costs decode client.config client.config.max_retries (some e))

module _ {S : Type 0} {R : ℕ → S → S → Type 0} (cost : IsCost R) (client : RpcBlockchainClient S)
    (signs : (m : String) → Costs R 0 (client.signer.sign_message m)) where
  signed-Costs :
      (message payer signature_text : String)
      → Costs R 0 (signed_transaction client message payer signature_text)
  signed-Costs message payer signature_text =
      lift->>=-Costs cost (client.sdk.bs58_decode signature_text) _ λ bytes.
        lift->>=-Costs cost (client.sdk.signature_try_from bytes) _ λ signature.
          lift->>=-Costs cost (client.sdk.replace_signatures message payer signature) _
            λ tx. lift->>=-Costs cost (client.sdk.serialize tx) _ λ serialized. cost.free

  pub build-Costs :
      (memo blockhash : String) → Costs R 0 (build_memo_transaction client memo blockhash)
  unfolding build_memo_transaction
  build-Costs memo blockhash =
      lift->>=-Costs cost (client.sdk.pubkey_from_str memo_program_id) _ λ program.
        lift->>=-Costs cost (client.sdk.hash_from_str blockhash) _ λ hash.
          lift->>=-Costs cost (client.sdk.pubkey_from_str client.signer.public_key) _ λ payer.
            let message = client.sdk.new_message program memo payer hash in
            >>=-Costs cost 0 0 (client.signer.sign_message message)
              (signed_transaction client message payer) (omega arith) (signs message)
              (signed-Costs message payer)

module _ {S : Type 0} {R : ℕ → S → S → Type 0} (cost : IsCost R) (client : RpcBlockchainClient S)
    (asks : (method params : String) → Costs R 1 (client.provider.send_request method params))
    (sleeps : (t : Time) (s : S) → R 0 s (client.sleep t s))
    (signs : (m : String) → Costs R 0 (client.signer.sign_message m)) where
  calls :
      {A : Type 0} (decode : String → Result String A) (method params : String)
      → Costs R (attempts client) (call client decode method params)
  calls decode method params =
      call-Costs cost client sleeps method params (asks method params) decode

  abbrev max : ℕ
  max = attempts client

  send-Costs : (memo blockhash : String) → Costs R max (send_with client memo blockhash)
  unfolding send_with
  send-Costs memo blockhash =
      >>=-Costs cost 0 max
        (map_err (λ e. submission_failed_with_blockhash (blockchain_error_to_string e) blockhash)
          (build_memo_transaction client memo blockhash))
        (sending client blockhash) (omega arith) (build-Costs cost client signs memo blockhash)
        (λ tx.
          >>=-Costs cost max 0
            (map_err (send_error client.sdk.to_lowercase blockhash)
              (call client client.sdk.decode_text "sendTransaction" (client.sdk.send_params tx)))
            (λ signature. pure (signature, blockhash)) (omega arith)
            (calls client.sdk.decode_text "sendTransaction" (client.sdk.send_params tx))
            (λ signature. cost.free))

  -- The requests that an attempt sends at most.
  abbrev pub budget : Option String → ℕ
  budget (some h) = max
  budget none = max + max

  pub submit-Costs :
      (memo : String) (existing : Option String)
      → Costs R (budget existing) (submit_transaction client memo existing)
  unfolding submit_transaction get_latest_blockhash
  submit-Costs memo (some h) = send-Costs memo h
  submit-Costs memo none =
      >>=-Costs cost max max (get_latest_blockhash client) (send_with client memo) (omega arith)
        (calls client.sdk.decode_blockhash "getLatestBlockhash" client.sdk.no_params)
        (λ blockhash. send-Costs memo blockhash)

  status-Costs : (signature : String) → Costs R max (get_transaction_status client signature)
  unfolding get_transaction_status
  status-Costs signature =
      >>=-Costs cost max 0
        (call client client.sdk.decode_statuses "getSignatureStatuses"
          (client.sdk.status_params signature))
        (λ statuses. lift (status_of statuses)) (omega arith)
        (calls client.sdk.decode_statuses "getSignatureStatuses"
          (client.sdk.status_params signature))
        (λ statuses. cost.free)

  poll-Costs :
      (fuel : ℕ) (signature : String) (timeout_secs : ℕ) (start : Time) (s : S)
      → Ended (λ t. R (fuel * max) s t) (poll client fuel signature timeout_secs start s)
  unfolding poll
  poll-Costs zero signature timeout_secs start s = tt
  poll-Costs (suc fuel) signature timeout_secs start s =
      let n = suc fuel * max in
      let asked = (get_transaction_status client signature s).1 in
      let rested = client.sleep (poll_interval client) asked in
      let P = λ (t : S). R n s t in
      let first = status-Costs signature s in
      Ended-test P (ltb (client.instant s - start) (seconds timeout_secs)) _ _
        (cost.weaker s s (omega arith) (cost.free s))
        (Ended-round P (settled (get_transaction_status client signature s).0) asked
          (poll client fuel signature timeout_secs start rested)
          (cost.weaker s asked (grind arith) first)
          (Ended-weaken (λ t. R (fuel * max) rested t) P _
            (λ t h.
              cost.weaker s t (grind arith)
                (cost.both s rested t (cost.both s asked rested first (sleeps _ asked)) h))
            (poll-Costs fuel signature timeout_secs start rested)))

  pub wait-Costs :
      (signature : String) (timeout_secs : ℕ)
      → Costs R ((2 * timeout_secs + 1) * max) (wait_for_confirmation client signature timeout_secs)
  unfolding wait_for_confirmation
  wait-Costs signature timeout_secs s =
      let fuel = 2 * timeout_secs + 1 in
      Ended-result (λ t. R (fuel * max) s t)
        (poll client fuel signature timeout_secs (client.instant s) s)
        (err (not_confirmed client signature timeout_secs), s)
        (poll-Costs fuel signature timeout_secs (client.instant s) s)
        (cost.weaker s s (omega arith) (cost.free s))

  pub health-Costs : Costs R (max + max) (health_check client)
  unfolding health_check
  health-Costs =
      >>=-Costs cost max max
        (map_err (λ (e : BlockchainError). blockchain_unavailable)
          (call client client.sdk.decode_u64 "getSlot" client.sdk.no_params))
        (λ _.
          matching
            (call client client.sdk.decode_balance "getBalance"
              (client.sdk.balance_params client.signer.public_key))
            (λ _. pure tt))
        (omega arith) (calls client.sdk.decode_u64 "getSlot" client.sdk.no_params)
        (λ _.
          calls client.sdk.decode_balance "getBalance"
            (client.sdk.balance_params client.signer.public_key))
