-- ===== src/Rpc/Client.antt =====
-- infra/blockchain/solana.rs: `impl BlockchainClient for RpcBlockchainClient`.
use testable_rust_architectu.Base.{
  ℕ, zero, suc, ◌+◌, ◌*◌, ◌-◌, String, Bool, true, false, ◌||◌, Option, none, some, List, [], ◌∷◌,
  concat, if◌then◌else◌, str_eq, ltb, min,
}
use Prim.Native.String.{len, slice}
use testable_rust_architectu.Base.Show.{show_ℕ}
use testable_rust_architectu.Base.Effects.{
  Action, Result, ok, err, pure, lift, map_err, map_err_result, matching, ◌>>=◌, ◌>>◌,
}
use testable_rust_architectu.Domain.Errors.{
  BlockchainError, submission_failed, submission_failed_with_blockhash, blockhash_expired,
  network_error, insufficient_funds, timeout, blockchain_error_to_string, HealthCheckError,
  blockchain_unavailable,
}
use testable_rust_architectu.Domain.Items.{Time, seconds}
use testable_rust_architectu.Domain.Ports.{TransactionSigner, BlockchainClient}
use testable_rust_architectu.Rpc.Provider.{SolanaRpcProvider}
use testable_rust_architectu.Rpc.Calls.{RpcClientConfig, rpc_call, is_blockhash_expired}

-- `value` of the answer to getSignatureStatuses.
pub record SignatureStatus : Type 0 where
  pub has_err : Bool
  pub confirmation_status : Option String

-- What the client uses of solana-sdk, bs58, bincode, serde_json and the standard library. Keys,
-- hashes, messages and transactions are texts.
pub record Sdk : Type 0 where
  pub pubkey_from_str : String → Result String String
  pub hash_from_str : String → Result String String
  -- The message of one instruction: the program, its bytes, the payer and the blockhash.
  pub new_message : String → String → String → String → String
  pub bs58_decode : String → Result String String
  pub signature_try_from : String → Result String String
  -- The signed transaction: the message, the payer and the signature.
  pub replace_signatures : String → String → String → Result String String
  pub serialize : String → Result String String
  pub bs58_encode : String → String
  pub to_lowercase : String → String
  -- The parameters of each method as JSON.
  pub no_params : String
  pub balance_params : String → String
  pub send_params : String → String
  pub status_params : String → String
  -- `serde_json::from_value` at the type that each method expects.
  pub decode_u64 : String → Result String ℕ
  pub decode_text : String → Result String String
  pub decode_balance : String → Result String (Option ℕ)
  pub decode_blockhash : String → Result String String
  pub decode_statuses : String → Result String (List (Option SignatureStatus))

pub record RpcBlockchainClient (S : Type 0) : Type 0 where
  pub provider : SolanaRpcProvider S
  pub signer : TransactionSigner S
  pub config : RpcClientConfig
  pub sdk : Sdk
  pub sleep : Time → S → S
  -- `Instant::now()`.
  pub instant : S → Time

abbrev pub memo_program_id : String
memo_program_id = "MemoSq4gqABAXKb96qnH8TysNcWxMyWCqXgDLGmfcHr"

-- How the client reports an error of sendTransaction.
unfoldable pub send_error : (String → String) → String → BlockchainError → BlockchainError
unfolding is_blockhash_expired
send_error to_lowercase blockhash e =
    if is_blockhash_expired to_lowercase e then blockhash_expired else elim e [
      | timeout m _ ↦ timeout m blockhash
      | network_error m _ ↦ network_error m blockhash
      | submission_failed m ↦
          submission_failed_with_blockhash (blockchain_error_to_string (submission_failed m))
            blockhash
      | submission_failed_with_blockhash m b ↦
          submission_failed_with_blockhash
            (blockchain_error_to_string (submission_failed_with_blockhash m b)) blockhash
      | blockhash_expired ↦
          submission_failed_with_blockhash (blockchain_error_to_string blockhash_expired) blockhash
      | insufficient_funds ↦
          submission_failed_with_blockhash (blockchain_error_to_string insufficient_funds) blockhash
    ]

abbrev is_final : Option String → Bool
is_final none = false
is_final (some s) = str_eq s "confirmed" || str_eq s "finalized"

abbrev pub status_of : List (Option SignatureStatus) → Result BlockchainError Bool
status_of (some s ∷ _) =
    if s.has_err
    then err (submission_failed "Transaction failed")
    else ok (is_final s.confirmation_status)
status_of (none ∷ _) = ok false
status_of [] = ok false

-- Whether an answer ends the polling: other errors are logged, and the next poll follows.
abbrev pub settled : Result BlockchainError Bool → Option (Result BlockchainError Bool)
settled (ok true) = some (ok true)
settled (ok false) = none
settled (err (submission_failed m)) = some (err (submission_failed m))
settled (err _) = none

module _ {S : Type 0} (client : RpcBlockchainClient S) where
  abbrev pub call :
      {R : Type 0} → (String → Result String R) → String → String → Action S BlockchainError R
  call decode method params =
      rpc_call client.provider client.sleep decode client.config method (ok params)

  abbrev sdk_step : {A : Type 0} → Result String A → Action S BlockchainError A
  sdk_step r = lift (map_err_result submission_failed r)

  -- The transaction with the signature of its message, as it is sent.
  abbrev pub signed_transaction : String → String → String → Action S BlockchainError String
  signed_transaction message payer signature_text = do
    signature_bytes ← sdk_step (client.sdk.bs58_decode signature_text)
    signature ← sdk_step (client.sdk.signature_try_from signature_bytes)
    tx ← sdk_step (client.sdk.replace_signatures message payer signature)
    serialized ← sdk_step (client.sdk.serialize tx)
    pure (client.sdk.bs58_encode serialized)

  unfoldable pub build_memo_transaction : String → String → Action S BlockchainError String
  build_memo_transaction memo recent_blockhash = do
    program ← sdk_step (client.sdk.pubkey_from_str memo_program_id)
    blockhash ← sdk_step (client.sdk.hash_from_str recent_blockhash)
    payer ← sdk_step (client.sdk.pubkey_from_str client.signer.public_key)
    let message = client.sdk.new_message program memo payer blockhash
    signature_text ← client.signer.sign_message message
    signed_transaction message payer signature_text

  unfoldable pub get_latest_blockhash : Action S BlockchainError String
  get_latest_blockhash = call client.sdk.decode_blockhash "getLatestBlockhash" client.sdk.no_params

  abbrev pub choose_blockhash : Option String → Action S BlockchainError String
  choose_blockhash (some h) = pure h
  choose_blockhash none = get_latest_blockhash

  -- Building and sending with the blockhash that was chosen.
  unfoldable pub send_with : String → String → Action S BlockchainError (String × String)
  send_with memo blockhash = do
    tx ←
        map_err (λ e. submission_failed_with_blockhash (blockchain_error_to_string e) blockhash)
          (build_memo_transaction memo blockhash)
    signature ←
        map_err (send_error client.sdk.to_lowercase blockhash)
          (call client.sdk.decode_text "sendTransaction" (client.sdk.send_params tx))
    pure (signature, blockhash)

  -- With the feature `real-blockchain`.
  unfoldable pub submit_transaction :
      String → Option String → Action S BlockchainError (String × String)
  submit_transaction memo existing = do
    blockhash ← choose_blockhash existing
    send_with memo blockhash

  unfoldable pub health_check : Action S HealthCheckError (Unit {0})
  health_check = do
    map_err (λ (e : BlockchainError). blockchain_unavailable)
        (call client.sdk.decode_u64 "getSlot" client.sdk.no_params)
    matching
        (call client.sdk.decode_balance "getBalance"
          (client.sdk.balance_params client.signer.public_key))
        (λ _. pure tt)

  unfoldable pub get_block_height : Action S BlockchainError ℕ
  get_block_height = call client.sdk.decode_u64 "getBlockHeight" client.sdk.no_params

  unfoldable pub get_transaction_status : String → Action S BlockchainError Bool
  get_transaction_status signature = do
    statuses ←
        call client.sdk.decode_statuses "getSignatureStatuses" (client.sdk.status_params signature)
    lift (status_of statuses)

  abbrev pub poll_interval : Time
  poll_interval = 500000000

  abbrev pub not_confirmed : String → ℕ → BlockchainError
  not_confirmed signature timeout_secs =
      timeout
        (concat
          ("Transaction " ∷ signature ∷ " not confirmed within " ∷ show_ℕ timeout_secs ∷ "s" ∷ []))
        ""

  -- The polling loop on fuel: `none` when the fuel runs out.
  unfoldable pub poll : ℕ → String → ℕ → Time → S → Option (Result BlockchainError Bool × S)
  poll zero signature timeout_secs start s = none
  poll (suc fuel) signature timeout_secs start s =
      elim (ltb (client.instant s - start) (seconds timeout_secs)) [
        | false ↦ some (err (not_confirmed signature timeout_secs), s)
        | true ↦
            let (r, s') = get_transaction_status signature s in
            elim (settled r) [
              | some outcome ↦ some (outcome, s')
              | none ↦ poll fuel signature timeout_secs start (client.sleep poll_interval s')
            ]
      ]

  -- `wait_for_confirmation`, with a poll for each half second and one more.
  unfoldable pub wait_for_confirmation : String → ℕ → Action S BlockchainError Bool
  wait_for_confirmation signature timeout_secs s =
      elim (poll (2 * timeout_secs + 1) signature timeout_secs (client.instant s) s) [
        | some outcome ↦ outcome
        | none ↦ (err (not_confirmed signature timeout_secs), s)
      ]

  -- Without the feature `real-blockchain` nothing is sent.
  unfoldable pub submit_transaction_mock :
      String → Option String → Action S BlockchainError (String × String)
  submit_transaction_mock memo existing = do
    signature ← client.signer.sign_message memo
    pure (
      concat ("tx_" ∷ slice signature 0 (min 16 (len signature)) ∷ []),
      elim existing [ none ↦ "mock_blockhash" | some h ↦ h ],
    )

  -- The client with the feature `real-blockchain`.
  abbrev pub blockchain_client : BlockchainClient S
  blockchain_client = record {
    health_check = health_check;
    submit_transaction = submit_transaction;
    get_transaction_status = get_transaction_status;
    get_block_height = get_block_height;
    get_latest_blockhash = get_latest_blockhash;
    wait_for_confirmation = wait_for_confirmation;
  }
