-- ===== src/Rpc/Memos.antt =====
-- infra/blockchain/solana.rs: the transaction that `build_memo_transaction` gives, as a function of
-- the memo, the blockhash and the signatures.
use testable_rust_architectu.Base.{String, ◌≡◌, sym, ap, ◌∙◌, arith}
use testable_rust_architectu.Base.Effects.{
  Action, Result, ok, err, ◌>>=◌, >>=-cases, map_err_result, lift, pure, ok_injective,
}
use testable_rust_architectu.Domain.Errors.{BlockchainError, submission_failed}
use testable_rust_architectu.Domain.Ports.{TransactionSigner}
use testable_rust_architectu.Rpc.Client.{
  RpcBlockchainClient, memo_program_id, signed_transaction, build_memo_transaction,
}

-- Signing a message, where it succeeds, gives one signature, as Ed25519 does.
abbrev pub IsSigning : {S : Type 0} → (String → String) → TransactionSigner S → Type 0
IsSigning {S} sign signer =
    (m signature : String) (s : S) → (signer.sign_message m s).0 ≡ ok signature → signature ≡ sign m

abbrev and_then : {A B : Type 0} → Result String A → (A → Result String B) → Result String B
and_then (ok a) f = f a
and_then (err e) f = err e

module _ {S : Type 0} (client : RpcBlockchainClient S) where
  abbrev signed : String → String → String → Result String String
  signed message payer signature_text =
      let sdk = client.sdk in
      and_then (sdk.bs58_decode signature_text) λ bytes.
        and_then (sdk.signature_try_from bytes) λ signature.
          and_then (sdk.replace_signatures message payer signature)
            λ tx. and_then (sdk.serialize tx) λ serialized. ok (sdk.bs58_encode serialized)

  -- The transaction of a memo under a blockhash, with the signature that the signer gives.
  abbrev pub memo_transaction : (String → String) → String → String → Result String String
  memo_transaction sign memo recent_blockhash =
      let sdk = client.sdk in
      and_then (sdk.pubkey_from_str memo_program_id) λ program.
        and_then (sdk.hash_from_str recent_blockhash) λ blockhash.
          and_then (sdk.pubkey_from_str client.signer.public_key) λ payer.
            let message = sdk.new_message program memo payer blockhash in
            signed message payer (sign message)

-- What the code gives where it succeeds is what the reference says.
abbrev Gives : {S A : Type 0} → Action S BlockchainError A → Result String A → Type 0
Gives m r = (a : _) (s : _) → (m s).0 ≡ ok a → r ≡ ok a

pure-Gives : {S A : Type 0} (a : A) → Gives {S = S} (pure a) (ok a)
pure-Gives a b s h = ap ok (ok_injective h)

step-Gives :
    {S A B : Type 0} (r : Result String A) (f : A → Action S BlockchainError B)
    (g : A → Result String B)
    → ((a : A) → Gives (f a) (g a))
    → Gives (lift (map_err_result submission_failed r) >>= f) (and_then r g)
step-Gives (ok a) f g next b s h = next a b s h
step-Gives (err e) f g next b s h = absurd (ground (arith, h))

module _ {S : Type 0} (client : RpcBlockchainClient S) (sign : String → String)
    (signing : IsSigning sign client.signer) where
  signed-Gives :
      (message payer signature_text : String)
      → Gives
          (signed_transaction client message payer signature_text)
          (signed client message payer signature_text)
  signed-Gives message payer signature_text =
      step-Gives (client.sdk.bs58_decode signature_text) _ _ λ bytes.
        step-Gives (client.sdk.signature_try_from bytes) _ _ λ signature.
          step-Gives (client.sdk.replace_signatures message payer signature) _ _ λ tx.
            step-Gives (client.sdk.serialize tx) _ _
              λ serialized. pure-Gives (client.sdk.bs58_encode serialized)

  signing-Gives :
      (message payer : String)
      → Gives
          (client.signer.sign_message message >>= signed_transaction client message payer)
          (signed client message payer (sign message))
  signing-Gives message payer tx s =
      >>=-cases (λ p. p.0 ≡ ok tx → signed client message payer (sign message) ≡ ok tx)
        (client.signer.sign_message message) (signed_transaction client message payer) s
        (λ e failed h. absurd (ground (arith, h)))
        (λ signature_text passed h.
          ap (signed client message payer) (sym (signing message signature_text s passed))
          ∙ signed-Gives message payer signature_text tx _ h)

  pub build-Gives :
      (memo blockhash : String)
      → Gives
          (build_memo_transaction client memo blockhash)
          (memo_transaction client sign memo blockhash)
  unfolding build_memo_transaction
  build-Gives memo blockhash =
      step-Gives (client.sdk.pubkey_from_str memo_program_id) _ _ λ program.
        step-Gives (client.sdk.hash_from_str blockhash) _ _ λ hash.
          step-Gives (client.sdk.pubkey_from_str client.signer.public_key) _ _
            λ payer. signing-Gives (client.sdk.new_message program memo payer hash) payer
