-- ===== src/Rpc/Repeating.antt =====
-- infra/blockchain/solana.rs: which transaction the attempts with one blockhash send.
use testable_rust_architectu.Base.{
  String, ◌≡◌, refl, sym, ap, subst, ◌∙◌, ◌⊎◌, inl, inr, none, some, List, arith,
}
use testable_rust_architectu.Base.Effects.{
  Result, ok, err, >>=-cases, map_err, map_err_result-ok, pure, ok_injective,
}
use testable_rust_architectu.Domain.Errors.{
  BlockchainError, submission_failed_with_blockhash, blockchain_error_to_string,
}
use testable_rust_architectu.Domain.Ports.{TransactionSigner}
use testable_rust_architectu.Signer.{Crypto, local_signer_new}
use testable_rust_architectu.Signer.Keys.{local_signer-signs}
use testable_rust_architectu.Rpc.Client.{
  RpcBlockchainClient, call, build_memo_transaction, get_latest_blockhash, send_with, send_error,
  submit_transaction,
}
use testable_rust_architectu.Rpc.Logs.{
  Sent, IsLogged, SendsOnly, Latest, Only, only, silent, widened, called, call-Latest,
}
use testable_rust_architectu.Rpc.Memos.{IsSigning, memo_transaction, build-Gives}
use testable_rust_architectu.Rpc.Costs.{>>=-Costs}
use testable_rust_architectu.Rpc.Spending.{sending, build-Costs}

module _ {S : Type 0} (client : RpcBlockchainClient S) where
  -- A request that sends that transaction.
  abbrev pub Carries : (String → String) → String → String → Sent → Type 0
  Carries sign memo blockhash r =
      (tx : String) × (memo_transaction client sign memo blockhash ≡ ok tx)
      × (r ≡ ("sendTransaction", client.sdk.send_params tx))

  abbrev pub IsFetch : Sent → Type 0
  IsFetch r = r ≡ ("getLatestBlockhash", client.sdk.no_params)

module _ {S : Type 0} (client : RpcBlockchainClient S) (sign : String → String)
    (signing : IsSigning sign client.signer) (log : S → List Sent)
    (logged : IsLogged client log) where
  send_with-SendsOnly :
      (memo blockhash : String) (s : S)
      → SendsOnly log (Carries client sign memo blockhash) s (send_with client memo blockhash s).1
  unfolding send_with
  send_with-SendsOnly memo blockhash s =
      let P = Carries client sign memo blockhash in
      let built =
        build-Costs {R = Only log P} (only log P) client
          (λ m s. silent log P s _ (logged.signs m s)) memo blockhash s in
      let after = (build_memo_transaction client memo blockhash s).1 in
      >>=-cases (λ p. SendsOnly log P s p.1)
        (map_err (λ e. submission_failed_with_blockhash (blockchain_error_to_string e) blockhash)
          (build_memo_transaction client memo blockhash))
        (sending client blockhash) s (λ e failed. built)
        (λ tx passed.
          let carried =
            called client log logged P client.sdk.decode_text "sendTransaction"
              (client.sdk.send_params tx)
              (
                tx,
                build-Gives client sign signing memo blockhash tx s
                    (map_err_result-ok _ _ tx passed),
                refl,
              ) in
          (only log P).both {a = 0} {b = 0} s after (sending client blockhash tx after).1 built (
            >>=-Costs (only log P) {n = 0} 0 0
              (map_err (send_error client.sdk.to_lowercase blockhash)
                (call client client.sdk.decode_text "sendTransaction" (client.sdk.send_params tx)))
              (λ signature. pure (signature, blockhash)) (omega arith) carried
              (λ signature t. (only log P).free t) after))

  get_latest_blockhash-SendsOnly :
      (s : S) → SendsOnly log (IsFetch client) s (get_latest_blockhash client s).1
  unfolding get_latest_blockhash
  get_latest_blockhash-SendsOnly s =
      called client log logged (IsFetch client) client.sdk.decode_blockhash "getLatestBlockhash"
        client.sdk.no_params refl s

  abbrev IsFirst : String → String → Sent → Type 0
  IsFirst memo blockhash r = IsFetch client r ⊎ Carries client sign memo blockhash r

  submit_transaction-SendsOnly :
      (memo blockhash : String) (s : S)
      → (get_latest_blockhash client s).0 ≡ ok blockhash
      → SendsOnly log (IsFirst memo blockhash) s (submit_transaction client memo none s).1
  unfolding submit_transaction
  submit_transaction-SendsOnly memo blockhash s fetched =
      let Q = IsFirst memo blockhash in
      let asked = (get_latest_blockhash client s).1 in
      let first = widened log (IsFetch client) Q (λ r. inl) (get_latest_blockhash-SendsOnly s) in
      >>=-cases (λ p. SendsOnly log Q s p.1) (get_latest_blockhash client) (send_with client memo) s
        (λ e failed. first)
        (λ h passed.
          subst (λ b. SendsOnly log Q s (send_with client memo b asked).1)
            (ok_injective (sym fetched ∙ passed))
            ((only log Q).both {a = 0} {b = 0} s asked (send_with client memo blockhash asked).1
              first
              (widened log (Carries client sign memo blockhash) Q (λ r. inr)
                (send_with-SendsOnly memo blockhash asked))))

  -- An attempt failed, or the latest request is one that carries the transaction.
  abbrev Delivers : String → String → Result BlockchainError (String × String) × S → Type 0
  Delivers memo blockhash (r, t) =
      ((e : BlockchainError) × (r ≡ err e)) ⊎ Latest log (Carries client sign memo blockhash) t

  send_with-Delivers :
      (memo blockhash : String) (s : S)
      → Delivers memo blockhash (send_with client memo blockhash s)
  unfolding send_with
  send_with-Delivers memo blockhash s =
      let after = (build_memo_transaction client memo blockhash s).1 in
      >>=-cases (Delivers memo blockhash)
        (map_err (λ e. submission_failed_with_blockhash (blockchain_error_to_string e) blockhash)
          (build_memo_transaction client memo blockhash))
        (sending client blockhash) s (λ e failed. inl (e, refl))
        (λ tx passed.
          let (r, rest, l, same) =
            call-Latest client log logged client.sdk.decode_text "sendTransaction"
              (client.sdk.send_params tx) after in
          let carried : Latest log (Carries client sign memo blockhash)
              (call client client.sdk.decode_text "sendTransaction" (client.sdk.send_params tx)
                after).1 =
            (
              r,
              rest,
              l,
              (
                tx,
                build-Gives client sign signing memo blockhash tx s
                    (map_err_result-ok _ _ tx passed),
                same,
              ),
            ) in
          >>=-cases (Delivers memo blockhash)
            (map_err (send_error client.sdk.to_lowercase blockhash)
              (call client client.sdk.decode_text "sendTransaction" (client.sdk.send_params tx)))
            (λ signature. pure (signature, blockhash)) after (λ e failed. inr carried)
            (λ signature taken. inr carried))

  submit_transaction-Delivers :
      (memo blockhash : String) (s : S)
      → (get_latest_blockhash client s).0 ≡ ok blockhash
      → Delivers memo blockhash (submit_transaction client memo none s)
  unfolding submit_transaction
  submit_transaction-Delivers memo blockhash s fetched =
      let asked = (get_latest_blockhash client s).1 in
      >>=-cases (Delivers memo blockhash) (get_latest_blockhash client) (send_with client memo) s
        (λ e failed. inl (e, refl))
        (λ h passed.
          subst (λ b. Delivers memo blockhash (send_with client memo b asked))
            (ok_injective (sym fetched ∙ passed)) (send_with-Delivers memo blockhash asked))

  -- Attempts with one blockhash, the first of which fetches it, send one transaction, which is
  -- that of the memo under the blockhash: of an attempt that fetches, each request asks for a
  -- blockhash or sends that transaction, and of an attempt with the blockhash stored, each request
  -- sends that transaction; where an attempt succeeds, its latest request is one that sends it.
  -- Where the signer gives one signature for a message.
  pub attempts-Identical :
      (memo blockhash : String) (s t : S)
      (fetched : (get_latest_blockhash client s).0 ≡ ok blockhash)
      → let first = submit_transaction client memo none s in
        let again = submit_transaction client memo (some blockhash) t in
        SendsOnly log (λ r. IsFetch client r ⊎ Carries client sign memo blockhash r) s first.1
        × SendsOnly log (Carries client sign memo blockhash) t again.1
        × (((e : BlockchainError) × (first.0 ≡ err e))
            ⊎ Latest log (Carries client sign memo blockhash) first.1)
        × (((e : BlockchainError) × (again.0 ≡ err e))
            ⊎ Latest log (Carries client sign memo blockhash) again.1)
  unfolding submit_transaction
  attempts-Identical memo blockhash s t fetched = (
    submit_transaction-SendsOnly memo blockhash s fetched,
    send_with-SendsOnly memo blockhash t,
    submit_transaction-Delivers memo blockhash s fetched,
    send_with-Delivers memo blockhash t,
  )

-- A local signer gives one signature for each message.
local_signer-IsSigning :
    {Key S : Type 0} (crypto : Crypto Key) (secret : String) (signer : TransactionSigner S)
    → local_signer_new crypto secret ≡ ok signer
    → (sign : String → String) × IsSigning sign signer
local_signer-IsSigning crypto secret signer built =
    let (key, shown, signs) = local_signer-signs crypto secret signer built in
    (
      λ m. crypto.bs58_encode (crypto.sign key m),
      λ m signature s given. ok_injective (sym given ∙ ap (λ p. p.0) (signs m s)),
    )
