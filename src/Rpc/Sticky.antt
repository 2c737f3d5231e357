-- ===== src/Rpc/Sticky.antt =====
-- The blockhash that `submit_transaction` reports back, on every path.
use testable_rust_architectu.Base.{
  String, ◌≡◌, refl, sym, ◌∙◌, ◌⊎◌, inl, inr, none, some, arith, true, List, [], ◌∷◌, any, Any,
  Bool-cases,
}
use testable_rust_architectu.Base.Effects.{
  Result, ok, err, map_err, map_err_result-ok, Result-cases, >>=-cases, err_injective,
}
use testable_rust_architectu.Domain.Errors.{
  BlockchainError, submission_failed, network_error, insufficient_funds, timeout,
  submission_failed_with_blockhash, blockhash_expired, blockchain_error_to_string,
}
use testable_rust_architectu.Service.{attempt_update}
use testable_rust_architectu.Rpc.Provider.{contains}
use testable_rust_architectu.Rpc.Calls.{is_blockhash_expired}
use testable_rust_architectu.Rpc.Spending.{sending}
use testable_rust_architectu.Rpc.Client.{
  RpcBlockchainClient, call, memo_program_id, send_error, send_with, submit_transaction,
  build_memo_transaction, get_latest_blockhash,
}

-- The texts, in lower case, by which a node says that a blockhash has expired.
abbrev expiry_texts : List String
expiry_texts =
    "block height exceeded" ∷ "blockhash not found" ∷ "blockhash has expired" ∷ "blockhash expired"
    ∷ "blockhash is expired" ∷ "block hash expired" ∷ []

-- The error is a refusal whose message has one of these texts.
abbrev pub SaysExpired : (String → String) → BlockchainError → Type 0
SaysExpired lower e =
    (m : String) × ((e ≡ submission_failed m)
      ⊎ ((b : String) × (e ≡ submission_failed_with_blockhash m b)))
    × Any (λ t. contains (lower m) t ≡ true) expiry_texts

any-Any :
    (m : String) (ts : List String)
    → any (λ t. contains m t) ts ≡ true
    → Any (λ t. contains m t ≡ true) ts
any-Any m [] h = cc
any-Any m (t ∷ ts) h = elim (Bool-cases (contains m t)) [
  | inl here ↦ inl here
  | inr other ↦ inr (any-Any m ts (sym (rw other refl) ∙ h))
]

expired-Says :
    (lower : String → String) (e : BlockchainError)
    → is_blockhash_expired lower e ≡ true
    → SaysExpired lower e
unfolding is_blockhash_expired
expired-Says lower (submission_failed m) h =
    (m, inl refl, any-Any (lower m) expiry_texts (ground (arith, h)))
expired-Says lower (submission_failed_with_blockhash m b) h =
    (m, inr (b, refl), any-Any (lower m) expiry_texts (ground (arith, h)))
expired-Says lower blockhash_expired h = cc
expired-Says lower (network_error m b) h = cc
expired-Says lower insufficient_funds h = cc
expired-Says lower (timeout m b) h = cc

send_error-cases :
    (lower : String → String) (h : String) (e : BlockchainError)
    → (attempt_update (send_error lower h e) ≡ some (some h))
      ⊎ ((send_error lower h e ≡ blockhash_expired) × SaysExpired lower e)
unfolding send_error attempt_update
send_error-cases lower h e = elim (Bool-cases (is_blockhash_expired lower e)) [
  | inl x ↦ inr (rw x refl, expired-Says lower e x)
  | inr x ↦ inl (ground (arith, x))
]

module _ {S : Type 0} (client : RpcBlockchainClient S) (memo h : String) (s : S) where
  -- The transaction of the memo under the blockhash was built, and the call that sends it gave this.
  abbrev pub SendGives : Result BlockchainError String → Type 0
  SendGives r =
      let (built, after) = build_memo_transaction client memo h s in
      (tx : String) × (built ≡ ok tx)
      × ((call client client.sdk.decode_text "sendTransaction" (client.sdk.send_params tx) after).0
          ≡ r)

  -- A success was sent with `h`, and an error makes the service store `h`, or the call that sends
  -- ended in an error that says that `h` has expired.
  abbrev pub Reports : Result BlockchainError (String × String) → Type 0
  Reports (ok (signature, used)) = (used ≡ h) × SendGives (ok signature)
  Reports (err e) =
      (attempt_update e ≡ some (some h))
      ⊎ ((e ≡ blockhash_expired)
          × ((x : BlockchainError) × SendGives (err x) × SaysExpired client.sdk.to_lowercase x))

  send-Reports :
      (tx : String)
      → let (built, after) = build_memo_transaction client memo h s in
        built ≡ ok tx → Reports (sending client h tx after).0
  send-Reports tx built =
      let after = (build_memo_transaction client memo h s).1 in
      let ask = call client client.sdk.decode_text "sendTransaction" (client.sdk.send_params tx) in
      elim (Result-cases (ask after).0) [
        | inr (a, x) ↦ rw (x, Reports) (refl, (tx, built, x))
        | inl (e, x) ↦
            rw (x, Reports)
              (elim (send_error-cases client.sdk.to_lowercase h e) [
                | inl stored ↦ inl stored
                | inr (expired, says) ↦ inr (expired, (e, (tx, built, x), says))
              ])
      ]

  send_with-Reports : Reports (send_with client memo h s).0
  unfolding send_with attempt_update
  send_with-Reports =
      >>=-cases (λ p. Reports p.0)
        (map_err (λ e. submission_failed_with_blockhash (blockchain_error_to_string e) h)
          (build_memo_transaction client memo h))
        (sending client h) s
        (λ e failed. elim (Result-cases (build_memo_transaction client memo h s).0) [
          | inl (x, broken) ↦ ground arith
          | inr (tx, built) ↦ ground arith
        ])
        (λ tx passed. send-Reports tx (map_err_result-ok _ _ tx passed))

module _ {S : Type 0} (client : RpcBlockchainClient S) where
  -- Given a stored blockhash, the client builds with it and reports it back, unless it has expired.
  pub submit_again-Reports :
      (memo h : String) (s : S)
      → Reports client memo h s (submit_transaction client memo (some h) s).0
  unfolding submit_transaction
  submit_again-Reports memo h s = send_with-Reports client memo h s

  -- Without one it does so for the blockhash that it has fetched.
  pub submit_first-Reports :
      (memo h : String) (s : S)
      → (get_latest_blockhash client s).0 ≡ ok h
      → Reports client memo h
          (get_latest_blockhash client s).1
          (submit_transaction client memo none s).0
  unfolding submit_transaction
  submit_first-Reports memo h s fetched =
      rw (fetched, Reports) (send_with-Reports client memo h (get_latest_blockhash client s).1)

  -- A blockhash that could not be fetched: the error is handed on as it is.
  pub submit_unfetched :
      (memo : String) (e : BlockchainError) (s : S)
      → (get_latest_blockhash client s).0 ≡ err e
      → submit_transaction client memo none s ≡ (err e, (get_latest_blockhash client s).1)
  unfolding submit_transaction
  submit_unfetched memo e s lost =
      >>=-cases (λ p. p ≡ (err e, (get_latest_blockhash client s).1)) (get_latest_blockhash client)
        (send_with client memo) s
        (λ x h i. (err (err_injective (sym h ∙ lost) i), (get_latest_blockhash client s).1))
        (λ h fetched. absurd (ground (arith, lost, fetched)))

  -- Every attempt with a stored blockhash that is no blockhash is refused before anything is
  -- sent, and asks the service to store it again.
  pub submit_unparsable :
      (memo h x : String) (s : S)
      → client.sdk.hash_from_str h ≡ err x
      → let (r, s') = submit_transaction client memo (some h) s in
        (s' ≡ s) × ((m : String) × (r ≡ err (submission_failed_with_blockhash m h)))
  unfolding submit_transaction send_with build_memo_transaction
  submit_unparsable memo h x s bad =
      elim (Result-cases (client.sdk.pubkey_from_str memo_program_id)) [
        | inl (y, e) ↦ rw e (refl, (_, refl))
        | inr (p, e) ↦ rw (e, bad) (refl, (_, refl))
      ]
