-- ===== src/Rpc/Requests.antt =====
-- infra/blockchain/solana.rs: how many requests an operation of the client sends, and what it
-- leaves alone.
use testable_rust_architectu.Base.{ℕ, ◌+◌, ◌*◌, ◌≤◌, String, Bool, ◌≡◌, Option, none, some, arith}
use testable_rust_architectu.Base.Effects.{Result}
use testable_rust_architectu.Domain.Errors.{BlockchainError}
use testable_rust_architectu.Domain.Items.{Time}
use testable_rust_architectu.Rpc.Client.{
  RpcBlockchainClient, submit_transaction, poll, wait_for_confirmation,
}
use testable_rust_architectu.Rpc.Costs.{IsCost}
use testable_rust_architectu.Rpc.Waiting.{IsClock, wait_for_confirmation-returns}
use testable_rust_architectu.Rpc.Spending.{submit-Costs, wait-Costs}

-- A request sends at most one, and sleeping and signing send none.
pub record IsCounted {S : Type 0} (client : RpcBlockchainClient S) (sent : S → ℕ) : Type 0 where
  pub asks :
      (method params : String) (s : S)
      → sent (client.provider.send_request method params s).1 ≤ sent s + 1
  pub sleeps : (t : Time) (s : S) → sent (client.sleep t s) ≤ sent s
  pub signs : (m : String) (s : S) → sent (client.signer.sign_message m s).1 ≤ sent s

counting : {S : Type 0} (sent : S → ℕ) → IsCost (λ n s t. sent t ≤ sent s + n)
counting sent = record {
  free = λ s. omega arith;
  both = λ s t u h k. omega arith;
  weaker = λ s t fits h. omega arith;
}

abbrev pub requests : ℕ → Option String → ℕ
requests max_retries (some h) = max_retries + 1
requests max_retries none = 2 * (max_retries + 1)

module _ {S : Type 0} (client : RpcBlockchainClient S) (sent : S → ℕ)
    (counted : IsCounted client sent) where
  slept : (t : Time) (s : S) → sent (client.sleep t s) ≤ sent s + 0
  slept t s = let h = counted.sleeps t s in omega arith

  signed : (m : String) (s : S) → sent (client.signer.sign_message m s).1 ≤ sent s + 0
  signed m s = let h = counted.signs m s in omega arith

  submit_transaction-bounded :
      (memo : String) (existing : Option String) (s : S)
      → sent (submit_transaction client memo existing s).1
        ≤ sent s + requests client.config.max_retries existing
  submit_transaction-bounded memo (some h) s =
      let all = submit-Costs (counting sent) client counted.asks slept signed memo (some h) s in
      omega arith
  submit_transaction-bounded memo none s =
      let all = submit-Costs (counting sent) client counted.asks slept signed memo none s in
      omega arith

  wait_for_confirmation-bounded :
      (signature : String) (timeout_secs : ℕ) (s : S)
      → sent (wait_for_confirmation client signature timeout_secs s).1
        ≤ sent s + (2 * timeout_secs + 1) * (client.config.max_retries + 1)
  wait_for_confirmation-bounded signature timeout_secs s =
      let all =
        wait-Costs (counting sent) client counted.asks slept signed signature timeout_secs s in
      grind arith

  -- On a clock that does not go back and with sleeps that last: an attempt to submit sends at
  -- most max_retries + 1 requests, and as many again where it has to fetch a blockhash first; and
  -- the polling for a confirmation, with any fuel from 2 * timeout + 1 on, comes to an end and
  -- has sent at most max_retries + 1 for each half second of the timeout and for one poll more.
  pub requests-Bounded :
      (clock : IsClock client) (memo : String) (existing : Option String) (signature : String)
      (timeout_secs : ℕ) (s : S) (fuel : ℕ)
      → 2 * timeout_secs + 1 ≤ fuel
      → (sent (submit_transaction client memo existing s).1
          ≤ sent s + requests client.config.max_retries existing)
        × ((o : Result BlockchainError Bool × S) × (poll client fuel signature timeout_secs
                (client.instant s)
                s
              ≡ some o)
            × (sent o.1 ≤ sent s + (2 * timeout_secs + 1) * (client.config.max_retries + 1)))
  requests-Bounded clock memo existing signature timeout_secs s fuel enough = (
    submit_transaction-bounded memo existing s,
    (
      wait_for_confirmation client signature timeout_secs s,
      wait_for_confirmation-returns client clock signature timeout_secs s fuel enough,
      wait_for_confirmation-bounded signature timeout_secs s,
    ),
  )
