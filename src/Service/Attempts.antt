-- ===== src/Service/Attempts.antt =====
-- app/service.rs: `process_outbox_entry`, one attempt at an outbox entry.
use testable_rust_architectu.Base.{
  ℕ, ◌+◌, ◌<◌, ◌≤◌, String, ◌≡◌, refl, sym, ap, subst, ◌∙◌, ◌⊎◌, inl, inr, Option, none, some, List,
  leb, arith, Bool-cases,
}
use testable_rust_architectu.Base.Effects.{Result, ok, err, map_err, map_err_result, >>=-ok}
use testable_rust_architectu.Domain.Errors.{BlockchainError, blockchain_error_to_string}
use testable_rust_architectu.Domain.Status.{
  BlockchainStatus, pending_submission, OutboxStatus, blockchain_status_as_str,
  outbox_status_as_str,
}
use testable_rust_architectu.Domain.Items.{Time, seconds, SolanaOutboxEntry}
use testable_rust_architectu.Domain.Validation.{FieldError}
use testable_rust_architectu.Domain.Ports.{BlockchainClient, Failure}
use testable_rust_architectu.World.{World, Env, OutboxRow, Tables}
use testable_rust_architectu.Postgres.Outbox.{
  failed_row, fail_solana_outbox, complete_solana_outbox,
}
use testable_rust_architectu.Postgres.Effects.{
  AllOrNothing, fail_effect, complete_effect, failed_tables, completed_tables,
}
use testable_rust_architectu.Rpc.Client.{
  RpcBlockchainClient, get_latest_blockhash, submit_transaction,
}
use testable_rust_architectu.Rpc.Sticky.{
  Reports, SendGives, SaysExpired, submit_again-Reports, submit_first-Reports,
}
use testable_rust_architectu.Service.Expected.{
  tables_of_success, tables_of_failure, completed-expected, failed-expected,
}
use testable_rust_architectu.Service.{
  AppService, ProcessError, attempt_update, calculate_backoff, failure, handle_outcome,
  process_outbox_entry,
}
use testable_rust_architectu.Service.Requests.{postgres_app}

AllOrNothing-map_err :
    {E F A : Type 0} (g : E → F) (before after : Tables) (p : Result E A × World)
    → AllOrNothing before after p
    → AllOrNothing before after (map_err_result g p.0, p.1)
AllOrNothing-map_err g before after (ok a, w) h = h
AllOrNothing-map_err g before after (err e, w) h = h

-- What is to be recorded of attempt number `n`, which failed with `e` at the time `at`: before
-- number 10 the entry and its item wait for the next attempt, from number 10 on they have failed.
abbrev pub IsVerdict : ℕ → BlockchainError → Time → Failure → Type 0
IsVerdict n e at f =
    (f.retry_count ≡ n)
    × (f.error ≡ blockchain_error_to_string e)
    × (f.attempt_blockhash ≡ attempt_update e)
    × (((n < 10)
          × (f.outbox_status ≡ OutboxStatus.pending)
          × (f.item_status ≡ pending_submission)
          × (f.next_retry_at ≡ some (at + seconds (calculate_backoff n))))
        ⊎ ((10 ≤ n)
            × (f.outbox_status ≡ OutboxStatus.failed)
            × (f.item_status ≡ BlockchainStatus.failed)
            × (f.next_retry_at ≡ none)))

module _ (env : Env) (client : BlockchainClient World) (show : List FieldError → String) where
  abbrev app : AppService World
  app = postgres_app env client show

  pub failure-IsVerdict :
      (n : ℕ) (e : BlockchainError) (w : World)
      → (f : Failure) × (w' : World) × (failure app n e w ≡ (ok f, w'))
        × (w'.tables ≡ w.tables)
        × IsVerdict n e (env.utc_now w.ticks) f
  unfolding failure
  failure-IsVerdict n e w = elim (Bool-cases (leb 10 n)) [
    | inl h ↦
        let late : 10 ≤ n = ground arith in
        rw h (_, _, refl, refl, (refl, refl, refl, inr (late, refl, refl, refl)))
    | inr h ↦
        let early : n < 10 = ground arith in
        rw h (_, _, refl, refl, (refl, refl, refl, inl (early, refl, refl, refl)))
  ]

  -- What the tables are after an attempt that the chain answered with the first argument in the
  -- state `w1`: the answer is recorded in both tables at once, or an error is returned and neither
  -- has changed.
  abbrev pub Recorded :
      SolanaOutboxEntry
      → Result BlockchainError (String × String)
      → World
      → Result ProcessError (Unit {0}) × World
      → Type 0
  Recorded entry (ok (signature, used)) w1 after =
      (at clock : Time) × AllOrNothing w1.tables
        (tables_of_success entry.id entry.aggregate_id signature at clock w1.tables) after
  Recorded entry (err e) w1 after =
      let n = entry.retry_count + 1 in
      let next = env.utc_now w1.ticks + seconds (calculate_backoff n) in
      let failing = tables_of_failure entry.id entry.aggregate_id n e in
      (at clock : Time) × (((n < 10)
          × AllOrNothing w1.tables
              (failing "pending" "pending_submission" (some next) at clock w1.tables) after)
        ⊎ ((10 ≤ n)
            × AllOrNothing w1.tables (failing "failed" "failed" none at clock w1.tables) after))

  -- What a verdict leads to, in values.
  verdict-Recorded :
      (entry : SolanaOutboxEntry) (e : BlockchainError) (w1 w2 : World) (f : Failure)
      (after : Result ProcessError (Unit {0}) × World)
      → w2.tables ≡ w1.tables
      → IsVerdict (entry.retry_count + 1) e (env.utc_now w1.ticks) f
      → AllOrNothing w1.tables (failed_tables env entry.id entry.aggregate_id f w2) after
      → Recorded entry (err e) w1 after
  unfolding outbox_status_as_str blockchain_status_as_str
  verdict-Recorded entry e w1 w2 f after same (number, text, hash, verdict) effect =
      let n = entry.retry_count + 1 in
      let at = env.utc_now w2.ticks in
      let clock = env.db_now (w2.ticks + 1) in
      let expected = λ (o : OutboxStatus) (i : BlockchainStatus) (next : Option Time).
        tables_of_failure entry.id entry.aggregate_id n e (outbox_status_as_str o)
          (blockchain_status_as_str i) next at clock in
      let written = λ (next : Option Time) (due : f.next_retry_at ≡ next).
        failed-expected env w2 entry.id entry.aggregate_id f n e next number text hash due in
      let recorded =
        λ (o : OutboxStatus) (i : BlockchainStatus) (next : Option Time) (os : f.outbox_status ≡ o)
            (is : f.item_status ≡ i) (due : f.next_retry_at ≡ next).
          subst (λ t. AllOrNothing w1.tables t after)
            (written next due
              ∙ (ap (λ x. expected x f.item_status next w2.tables) os
                  ∙ (ap (λ x. expected o x next w2.tables) is ∙ ap (expected o i next) same)))
            effect in
      (
        at,
        clock,
        elim verdict [
          | inl (early, os, is, due) ↦ inl (early, recorded _ _ _ os is due)
          | inr (late, os, is, due) ↦ inr (late, recorded _ _ _ os is due)
        ],
      )

  handle_outcome-Recorded :
      (entry : SolanaOutboxEntry) (o : Result BlockchainError (String × String)) (w : World)
      → Recorded entry o w (handle_outcome app entry o w)
  unfolding handle_outcome
  handle_outcome-Recorded entry (ok (signature, used)) w =
      let after = completed_tables env entry.id entry.aggregate_id signature w in
      let effect =
        AllOrNothing-map_err ProcessError.item w.tables after
          (complete_solana_outbox env entry.id entry.aggregate_id signature w)
          (complete_effect env w entry.id entry.aggregate_id signature) in
      (
        _,
        _,
        subst (λ t. AllOrNothing w.tables t (handle_outcome app entry (ok (signature, used)) w))
            (completed-expected env w entry.id entry.aggregate_id signature) effect,
      )
  handle_outcome-Recorded entry (err e) w =
      let (f, w2, run, same, verdict) = failure-IsVerdict (entry.retry_count + 1) e w in
      let after = failed_tables env entry.id entry.aggregate_id f w2 in
      let effect =
        AllOrNothing-map_err ProcessError.item w2.tables after
          (fail_solana_outbox env entry.id entry.aggregate_id f w2)
          (fail_effect env w2 entry.id entry.aggregate_id f) in
      let record_failure = λ (g : Failure).
        map_err ProcessError.item (fail_solana_outbox env entry.id entry.aggregate_id g) in
      let step = >>=-ok (failure app (entry.retry_count + 1) e) record_failure w run in
      verdict-Recorded entry e w w2 f (handle_outcome app entry (err e) w) same verdict (
        subst (AllOrNothing w.tables after) (sym step)
          (subst (λ t. AllOrNothing t after (record_failure f w2)) same effect))

  -- One attempt at an entry over PostgreSQL, whatever the client. A success completes the entry
  -- and marks its item submitted with the signature. After an error, below the tenth attempt both
  -- are pending again and due after the backoff, and from the tenth on both have failed; the
  -- attempt's number is written to both, the error to the item, and to the entry the blockhash
  -- that the error carries, none after an expiry, or the one it had. Or an error is returned and
  -- the tables are as the client left them.
  pub process_outbox_entry-Recorded :
      (entry : SolanaOutboxEntry) (w : World)
      → let (o, w1) = client.submit_transaction entry.payload.hash entry.attempt_blockhash w in
        Recorded entry o w1 (process_outbox_entry app entry w)
  unfolding process_outbox_entry
  process_outbox_entry-Recorded entry w =
      let (o, w1) = client.submit_transaction entry.payload.hash entry.attempt_blockhash w in
      handle_outcome-Recorded entry o w1

module _ {S : Type 0} (client : RpcBlockchainClient S) (memo h : String) (s : S) where
  -- A success was sent with `h`. The blockhash that a row holds after the failure with `e` of an
  -- attempt made with `h` is `h`, or none where the call that sends ended in an error that says
  -- that `h` has expired.
  abbrev pub Sticks : Result BlockchainError (String × String) → Type 0
  Sticks (ok (signature, used)) = (used ≡ h) × SendGives client memo h s (ok signature)
  Sticks (err e) =
      (f : Failure) (n : ℕ) (at clock : Time) (r : OutboxRow)
      → IsVerdict n e at f
      → ((failed_row f clock r).attempt_blockhash ≡ some h)
        ⊎ (((failed_row f clock r).attempt_blockhash ≡ none)
            × ((x : BlockchainError) × SendGives client memo h s (err x)
                × SaysExpired client.sdk.to_lowercase x))

  Reports-Sticks :
      (o : Result BlockchainError (String × String)) → Reports client memo h s o → Sticks o
  unfolding attempt_update
  Reports-Sticks (ok (signature, used)) x = x
  Reports-Sticks (err e) (inl x) = λ f n at clock r (a, b, c, d). inl (rw (c, x) refl)
  Reports-Sticks (err e) (inr (x, said)) = λ f n at clock r (a, b, c, d). inr (rw (c, x) refl, said)

-- An attempt with a stored blockhash keeps to it: a success is that of a transaction which was
-- built with that blockhash and sent, and what is recorded of an error leaves that same blockhash
-- for the next attempt; or it leaves none, and then the call that sends the transaction ended in
-- an error whose message says that the blockhash has expired.
pub resubmission-Sticks :
    {S : Type 0} (client : RpcBlockchainClient S) (memo h : String) (s : S)
    → Sticks client memo h s (submit_transaction client memo (some h) s).0
resubmission-Sticks client memo h s =
    Reports-Sticks client memo h s (submit_transaction client memo (some h) s).0
      (submit_again-Reports client memo h s)

-- An attempt without a stored blockhash that fetches one: a success is that of a transaction
-- which was built with the fetched blockhash and sent, and what is recorded of an error leaves it
-- for the next attempt; or it leaves none, and then the call that sends the transaction ended in
-- an error whose message says that the blockhash has expired.
pub first_submission-Sticks :
    {S : Type 0} (client : RpcBlockchainClient S) (memo h : String) (s : S)
    → (get_latest_blockhash client s).0 ≡ ok h
    → Sticks client memo h
        (get_latest_blockhash client s).1
        (submit_transaction client memo none s).0
first_submission-Sticks client memo h s fetched =
    Reports-Sticks client memo h (get_latest_blockhash client s).1
      (submit_transaction client memo none s).0 (submit_first-Reports client memo h s fetched)
