-- ===== src/Service/Passes.antt =====
-- app/service.rs: `process_pending_submissions`, one pass of the worker, over PostgreSQL.
use testable_rust_architectu.Base.{ℕ, ◌+◌, String, ◌≡◌, sym, subst, Option, length, List, [], ◌∷◌}
use testable_rust_architectu.Base.Effects.{Result, ok, err, map_err, >>=-ok, >>=-cases}
use testable_rust_architectu.Domain.Errors.{BlockchainError, ItemError}
use testable_rust_architectu.Domain.Items.{SolanaOutboxEntry}
use testable_rust_architectu.Domain.Validation.{FieldError}
use testable_rust_architectu.Domain.Ports.{Failure, BlockchainClient}
use testable_rust_architectu.World.{World, Env, Tables}
use testable_rust_architectu.Postgres.Outbox.{fail_solana_outbox, claim_pending_solana_outbox}
use testable_rust_architectu.Postgres.Invariant.{IsConsistent}
use testable_rust_architectu.Postgres.Keeps.{
  Call, call, claims, completes, fails, call-IsConsistent,
}
use testable_rust_architectu.Service.{
  ProcessError, handle_outcome, failure, process_outbox_entry, process_entries,
  process_pending_submissions,
}
use testable_rust_architectu.Service.Requests.{postgres_app}
use testable_rust_architectu.Service.Attempts.{failure-IsVerdict}

-- A client of the chain that leaves the tables alone.
abbrev pub IsApart : BlockchainClient World → Type 0
IsApart client =
    (memo : String) (existing : Option String) (w : World)
    → (client.submit_transaction memo existing w).1.tables ≡ w.tables

module _ (env : Env) (client : BlockchainClient World) (show : List FieldError → String)
    (P : Tables → Type 0)
    (keeps : (k : Call) (w : World) → P w.tables → P (call env k w).tables) where
  handle-Keeps :
      (entry : SolanaOutboxEntry) (o : Result BlockchainError (String × String)) (w : World)
      → P w.tables
      → P (handle_outcome (postgres_app env client show) entry o w).1.tables
  unfolding handle_outcome
  handle-Keeps entry (ok (signature, used)) w c =
      keeps (completes entry.id entry.aggregate_id signature) w c
  handle-Keeps entry (err e) w c =
      let app = postgres_app env client show in
      let (f, w2, run, same, verdict) =
        failure-IsVerdict env client show (entry.retry_count + 1) e w in
      let step =
        >>=-ok (failure app (entry.retry_count + 1) e)
          (λ (g : Failure).
            map_err ProcessError.item (fail_solana_outbox env entry.id entry.aggregate_id g))
          w run in
      subst (λ (p : Result ProcessError (Unit {0}) × World). P p.1.tables) (sym step)
        (keeps (fails entry.id entry.aggregate_id f) w2 (subst P (sym same) c))

  process-Keeps :
      (apart : IsApart client) (entry : SolanaOutboxEntry) (w : World)
      → P w.tables
      → P (process_outbox_entry (postgres_app env client show) entry w).1.tables
  unfolding process_outbox_entry
  process-Keeps apart entry w c =
      let (o, w1) = client.submit_transaction entry.payload.hash entry.attempt_blockhash w in
      let same = apart entry.payload.hash entry.attempt_blockhash w in
      handle-Keeps entry o w1 (subst P (sym same) c)

  entries-Keeps :
      (apart : IsApart client) (entries : List SolanaOutboxEntry) (w : World)
      → P w.tables
      → P (process_entries (postgres_app env client show) entries w).tables
  unfolding process_entries
  entries-Keeps apart [] w c = c
  entries-Keeps apart (entry ∷ entries) w c =
      entries-Keeps apart entries (process_outbox_entry (postgres_app env client show) entry w).1
        (process-Keeps apart entry w c)

  -- What every call of the repositories keeps, a pass keeps.
  pub pass-Keeps :
      (apart : IsApart client) (batch_size : ℕ) (w : World)
      → P w.tables
      → P (process_pending_submissions (postgres_app env client show) batch_size w).1.tables
  unfolding process_pending_submissions
  pass-Keeps apart batch_size w c =
      let claimed = keeps (claims batch_size) w c in
      >>=-cases (λ (p : Result ItemError ℕ × World). P p.1.tables)
        (claim_pending_solana_outbox env batch_size)
        (λ entries s.
          (ok (length entries), process_entries (postgres_app env client show) entries s))
        w (λ e x. claimed)
        (λ entries x.
          entries-Keeps apart entries (claim_pending_solana_outbox env batch_size w).1 claimed)

module _ (env : Env) (client : BlockchainClient World) (show : List FieldError → String) where
  pub pass-IsConsistent :
      (apart : IsApart client) (batch_size : ℕ) (w : World)
      → IsConsistent w.tables
      → IsConsistent
          (process_pending_submissions (postgres_app env client show) batch_size w).1.tables
  pass-IsConsistent = pass-Keeps env client show IsConsistent (call-IsConsistent env)
