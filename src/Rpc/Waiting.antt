-- ===== src/Rpc/Waiting.antt =====
-- infra/blockchain/solana.rs: `wait_for_confirmation` comes to an end.
use testable_rust_architectu.Base.{
  ℕ, zero, suc, ◌+◌, ◌*◌, ◌-◌, ◌≤◌, String, ◌≡◌, refl, sym, ap, ◌∙◌, inl, inr, Bool, true, false,
  Option, none, some, arith, ltb, Bool-cases, Option-cases,
}
use testable_rust_architectu.Base.Show.{show_ℕ}
use testable_rust_architectu.Base.Effects.{Result, ok, err, Result-cases, >>=-cases}
use testable_rust_architectu.Domain.Errors.{BlockchainError}
use testable_rust_architectu.Domain.Items.{Time, seconds}
use testable_rust_architectu.Rpc.Calls.{RpcClientConfig, rpc_call, retry_loop}
use testable_rust_architectu.Rpc.Client.{
  RpcBlockchainClient, call, not_confirmed, poll_interval, settled, get_transaction_status,
  status_of, poll, wait_for_confirmation,
}

-- The clock does not go back: neither in an exchange with the node nor in a sleep, and a sleep
-- lasts as long as it was asked to.
pub record IsClock {S : Type 0} (client : RpcBlockchainClient S) : Type 0 where
  pub exchange :
      (method params : String) (s : S)
      → client.instant s ≤ client.instant (client.provider.send_request method params s).1
  pub sleeps : (t : Time) (s : S) → client.instant s + t ≤ client.instant (client.sleep t s)

module _ {S : Type 0} (client : RpcBlockchainClient S) (clock : IsClock client) where
  retry_loop-later :
      {R : Type 0} (decode : String → Result String R) (config : RpcClientConfig) (left : ℕ)
      (method params : String) (last : Option BlockchainError) (s : S)
      → client.instant s
        ≤ client.instant
            (retry_loop client.provider client.sleep decode config left method params last s).1
  unfolding retry_loop
  retry_loop-later decode config zero method params last s = omega arith
  retry_loop-later decode config (suc left) method params last s =
      let s1 = client.sleep config.retry_delay s in
      let (r, s2) = client.provider.send_request method params s1 in
      let slept = clock.sleeps config.retry_delay s in
      let sent = clock.exchange method params s1 in
      elim (Result-cases r) [
        | inr (v, x) ↦ rw (x, retry_loop) (omega arith)
        | inl (e, x) ↦
            let rest = retry_loop-later decode config left method params (some e) s2 in
            rw (x, retry_loop) (omega arith)
      ]

  rpc_call-later :
      {R : Type 0} (decode : String → Result String R) (config : RpcClientConfig)
      (method params : String) (s : S)
      → client.instant s
        ≤ client.instant
            (rpc_call client.provider client.sleep decode config method (ok params) s).1
  unfolding rpc_call
  rpc_call-later decode config method params s =
      let (r, s1) = client.provider.send_request method params s in
      let sent = clock.exchange method params s in
      elim (Result-cases r) [
        | inr (v, x) ↦ rw (x, rpc_call) sent
        | inl (e, x) ↦
            let rest =
              retry_loop-later decode config config.max_retries method params (some e) s1 in
            rw (x, rpc_call) (omega arith)
      ]

  status-later :
      (signature : String) (s : S)
      → client.instant s ≤ client.instant (get_transaction_status client signature s).1
  unfolding get_transaction_status
  status-later signature s =
      let ask =
        call client client.sdk.decode_statuses "getSignatureStatuses"
          (client.sdk.status_params signature) in
      let later =
        rpc_call-later client.sdk.decode_statuses client.config "getSignatureStatuses"
          (client.sdk.status_params signature) s in
      >>=-cases (λ (p : Result BlockchainError Bool × S). client.instant s ≤ client.instant p.1) ask
        (λ statuses t. (status_of statuses, t)) s (λ e x. later) (λ a x. later)

  abbrev in_time : ℕ → Time → S → Bool
  in_time timeout_secs start s = ltb (client.instant s - start) (seconds timeout_secs)

  abbrev next_poll : String → S → S
  next_poll signature s =
      client.sleep (poll_interval client) (get_transaction_status client signature s).1

  poll-late :
      (fuel : ℕ) (signature : String) (timeout_secs : ℕ) (start : Time) (s : S)
      → in_time timeout_secs start s ≡ false
      → poll client (suc fuel) signature timeout_secs start s
        ≡ some (err (not_confirmed client signature timeout_secs), s)
  unfolding poll show_ℕ
  poll-late fuel signature timeout_secs start s x = rw (x, poll) refl

  poll-settled :
      (fuel : ℕ) (signature : String) (timeout_secs : ℕ) (start : Time) (s : S)
      (o : Result BlockchainError Bool)
      → in_time timeout_secs start s ≡ true
      → settled (get_transaction_status client signature s).0 ≡ some o
      → poll client (suc fuel) signature timeout_secs start s
        ≡ some (o, (get_transaction_status client signature s).1)
  unfolding poll get_transaction_status
  poll-settled fuel signature timeout_secs start s o x y = rw (x, poll, y) refl

  poll-again :
      (fuel : ℕ) (signature : String) (timeout_secs : ℕ) (start : Time) (s : S)
      → in_time timeout_secs start s ≡ true
      → settled (get_transaction_status client signature s).0 ≡ none
      → poll client (suc fuel) signature timeout_secs start s
        ≡ poll client fuel signature timeout_secs start (next_poll signature s)
  unfolding poll get_transaction_status
  poll-again fuel signature timeout_secs start s x y = rw (x, poll, y) refl

  abbrev IsOutcome : ℕ → String → ℕ → Time → S → Result BlockchainError Bool × S → Type 0
  IsOutcome left signature timeout_secs start s o =
      (fuel : ℕ) → left ≤ fuel → poll client (suc fuel) signature timeout_secs start s ≡ some o

  IsOutcome-shift :
      (left : ℕ) (signature : String) (timeout_secs : ℕ) (start : Time) (s : S)
      (o : Result BlockchainError Bool × S)
      → IsOutcome left signature timeout_secs start s o
      → (fuel : ℕ) → suc left ≤ fuel
      → poll client fuel signature timeout_secs start s ≡ some o
  IsOutcome-shift left signature timeout_secs start s o h zero g = absurd (omega arith)
  IsOutcome-shift left signature timeout_secs start s o h (suc fuel) g = h fuel (omega arith)

  poll-returns :
      (left : ℕ) (signature : String) (timeout_secs : ℕ) (start : Time) (s : S)
      → start ≤ client.instant s
      → seconds timeout_secs ≤ (client.instant s - start) + left * 500000000
      → (o : Result BlockchainError Bool × S) × IsOutcome left signature timeout_secs start s o
  poll-returns zero signature timeout_secs start s h k =
      let late : in_time timeout_secs start s ≡ false = ground arith in
      (_, λ fuel g. poll-late fuel signature timeout_secs start s late)
  poll-returns (suc left) signature timeout_secs start s h k =
      elim (Bool-cases (in_time timeout_secs start s)) [
        | inr late ↦ (_, λ fuel g. poll-late fuel signature timeout_secs start s late)
        | inl early ↦ elim (Option-cases (settled (get_transaction_status client signature s).0)) [
          | inr (o, x) ↦ (_, λ fuel g. poll-settled fuel signature timeout_secs start s o early x)
          | inl x ↦
              let asked = status-later signature s in
              let slept =
                clock.sleeps (poll_interval client) (get_transaction_status client signature s).1 in
              let s2 = next_poll signature s in
              let (o, rest) =
                poll-returns left signature timeout_secs start s2 (omega arith) (omega arith) in
              (
                o,
                λ fuel g.
                    poll-again fuel signature timeout_secs start s early x
                    ∙ IsOutcome-shift left signature timeout_secs start s2 o rest fuel g,
              )
        ]
      ]

  -- On a clock that does not go back and with sleeps that last, waiting for a confirmation comes to
  -- an end: any fuel from the one that is chosen on gives the same outcome.
  pub wait_for_confirmation-returns :
      (signature : String) (timeout_secs : ℕ) (s : S) (fuel : ℕ)
      → 2 * timeout_secs + 1 ≤ fuel
      → poll client fuel signature timeout_secs (client.instant s) s
        ≡ some (wait_for_confirmation client signature timeout_secs s)
  unfolding wait_for_confirmation
  wait_for_confirmation-returns signature timeout_secs s fuel g =
      let (o, same) =
        poll-returns (2 * timeout_secs) signature timeout_secs (client.instant s) s (omega arith)
          (omega arith) in
      let run =
        IsOutcome-shift (2 * timeout_secs) signature timeout_secs (client.instant s) s o same in
      let chosen = run (2 * timeout_secs + 1) (omega arith) in
      run fuel (omega arith)
      ∙ ap
          (λ (p : Option (Result BlockchainError Bool × S)). some (elim p [
            | some outcome ↦ outcome
            | none ↦ (err (not_confirmed client signature timeout_secs), s)
          ]))
          (sym chosen)
