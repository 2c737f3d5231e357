-- ===== src/Service/GivingUp.antt =====
-- app/service.rs: an entry whose submissions keep failing is given up.
use testable_rust_architectu.Base.{
  ℕ, zero, suc, ◌+◌, ◌≤◌, ◌<◌, String, ◌≡◌, refl, ap, ◌∙◌, Bool, false, Option, none, some, List,
  ◌⊎◌, inl, inr, str_eq, arith, find?,
}
use testable_rust_architectu.Base.Effects.{Result, ok, err, map_err, >>=-ok}
use testable_rust_architectu.Domain.Errors.{BlockchainError, ItemError}
use testable_rust_architectu.Domain.Status.{
  OutboxStatus, outbox_status_as_str, outbox_status_from_str,
}
use testable_rust_architectu.Domain.Items.{Time, SolanaOutboxEntry, SolanaOutboxPayload}
use testable_rust_architectu.Domain.Validation.{FieldError}
use testable_rust_architectu.Domain.Ports.{Failure, BlockchainClient}
use testable_rust_architectu.World.{World, Env, OutboxRow, Tables}
use testable_rust_architectu.Postgres.Sql.{update_outbox_where}
use testable_rust_architectu.Postgres.Rows.{row_to_outbox, unwrap_or}
use testable_rust_architectu.Postgres.Outbox.{failed_row, fail_solana_outbox, is_claimable}
use testable_rust_architectu.Postgres.Lookup.{row_of, found_id, found-updated, unclaimable}
use testable_rust_architectu.Postgres.Calm.{fail_calm}
use testable_rust_architectu.Service.{ProcessError, failure, handle_outcome, process_outbox_entry}
use testable_rust_architectu.Service.Requests.{postgres_app}
use testable_rust_architectu.Service.Attempts.{failure-IsVerdict, IsVerdict}
use testable_rust_architectu.Service.Passes.{IsApart}

-- The entry stands in the tables after `n` recorded attempts, with a payload that decodes.
abbrev pub IsAt : Env → String → ℕ → World → Type 0
IsAt env id n w =
    (r : OutboxRow) × (row_of id w ≡ some r)
    × (r.retry_count ≡ n)
    × ((p : SolanaOutboxPayload) × (env.payload_from_json r.payload ≡ some p))

-- No claim takes the entry any more, whatever the time and the locks.
abbrev pub IsGivenUp : String → World → Type 0
IsGivenUp id w =
    (r : OutboxRow) × (row_of id w ≡ some r)
    × (r.status ≡ "failed")
    × (r.retry_count ≡ 10)
    × ((locked : String → Bool) (at clock : Time) → is_claimable locked at clock r ≡ false)

-- Every submission fails.
abbrev pub IsDown : BlockchainClient World → Type 0
IsDown client =
    (memo : String) (existing : Option String) (w : World)
    → (e : BlockchainError) × ((client.submit_transaction memo existing w).0 ≡ err e)

abbrev pub entry_of : OutboxRow → SolanaOutboxPayload → SolanaOutboxEntry
entry_of r p = record {
  id = r.id;
  aggregate_id = r.aggregate_id;
  payload = p;
  status = unwrap_or (outbox_status_from_str r.status) OutboxStatus.pending;
  retry_count = r.retry_count;
  attempt_blockhash = r.attempt_blockhash;
  created_at = r.created_at;
}

-- One attempt at the entry as the tables have it.
module _ (env : Env) (client : BlockchainClient World) (show : List FieldError → String)
    (w : World) where
  abbrev process_of : Result ItemError SolanaOutboxEntry → World
  process_of (err e) = w
  process_of (ok entry) = (process_outbox_entry (postgres_app env client show) entry w).1

  abbrev attempt_of : Option OutboxRow → World
  attempt_of none = w
  attempt_of (some r) = process_of (row_to_outbox env r)

unfoldable pub attempt :
    Env → BlockchainClient World → (List FieldError → String) → String → World → World
attempt env client show id w = attempt_of env client show w (row_of id w)

abbrev pub attempts :
    Env → BlockchainClient World → (List FieldError → String) → String → ℕ → World → World
attempts env client show id zero w = w
attempts env client show id (suc k) w = attempts env client show id k (attempt env client show id w)

module _ (env : Env) (client : BlockchainClient World) (show : List FieldError → String)
    (calm : (n : ℕ) → env.fault n ≡ none) (apart : IsApart client) (down : IsDown client) where
  -- What an attempt at an entry that the tables have records.
  pub recorded :
      (id : String) (r : OutboxRow) (entry : SolanaOutboxEntry) (w : World)
      → row_of id w ≡ some r
      → entry.id ≡ id
      → let w1 = (client.submit_transaction entry.payload.hash entry.attempt_blockhash w).1 in
        (e : BlockchainError) × (clock : Time) × (f : Failure) × IsVerdict
          (entry.retry_count + 1)
          e
          (env.utc_now w1.ticks)
          f
        × (row_of id (process_outbox_entry (postgres_app env client show) entry w).1
            ≡ some (failed_row f clock r))
  unfolding process_outbox_entry handle_outcome
  recorded id r entry w found same =
      let app = postgres_app env client show in
      let (e, fails) = down entry.payload.hash entry.attempt_blockhash w in
      let w1 = (client.submit_transaction entry.payload.hash entry.attempt_blockhash w).1 in
      let (f, w2, run, kept, verdict) =
        failure-IsVerdict env client show (entry.retry_count + 1) e w1 in
      let tail = λ (g : Failure).
        map_err ProcessError.item (fail_solana_outbox env entry.id entry.aggregate_id g) in
      let step = >>=-ok (failure app (entry.retry_count + 1) e) tail w1 run in
      let clock = env.db_now (w2.ticks + 1) in
      let look = λ (rs : List OutboxRow). find? (λ x. str_eq x.id id) rs in
      let (done, tables) = fail_calm env calm w2 entry.id entry.aggregate_id f in
      let unchanged = kept ∙ apart entry.payload.hash entry.attempt_blockhash w in
      (
        e,
        clock,
        f,
        verdict,
        ap
              (λ (o : Result BlockchainError (String × String)).
                look (handle_outcome app entry o w1).1.tables.outbox)
              fails
            ∙ (ap (λ (p : Result ProcessError (Unit {0}) × World). look p.1.tables.outbox) step
                ∙ (ap (λ (t : Tables). look t.outbox) tables
                    ∙ (ap
                          (λ (t : Tables).
                            look (update_outbox_where entry.id (failed_row f clock) t.outbox))
                          unchanged
                        ∙ (ap
                              (λ i.
                                look (update_outbox_where i (failed_row f clock) w.tables.outbox))
                              same
                            ∙ found-updated id (failed_row f clock) w.tables.outbox r (λ x. refl)
                                found)))),
      )

  -- An attempt at an entry of the tables is the next, and the tenth gives it up.
  attempt-IsAt :
      (id : String) (n : ℕ) (w : World)
      → n < 10
      → IsAt env id n w
      → IsAt env id (n + 1) (attempt env client show id w)
        × ((n + 1 < 10) ⊎ IsGivenUp id (attempt env client show id w))
  unfolding attempt row_to_outbox outbox_status_as_str
  attempt-IsAt id n w early (r, found, count, (p, decodes)) =
      let entry = entry_of r p in
      let decoded : row_to_outbox env r ≡ ok entry = rw (decodes, row_to_outbox) refl in
      let attempted : attempt env client show id w
          ≡ (process_outbox_entry (postgres_app env client show) entry w).1 =
        ap (attempt_of env client show w) found ∙ ap (process_of env client show w) decoded in
      let (e, clock, f, (number, text, hash, verdict), look) =
        recorded id r entry w found (found_id id w.tables.outbox r found) in
      let found' = ap (row_of id) attempted ∙ look in
      let number' : f.retry_count ≡ n + 1 = number ∙ ap (λ k. k + 1) count in
      (
        (failed_row f clock r, found', number', (p, decodes)),
        elim verdict [
          | inl (more, _, _, _) ↦ inl (omega arith)
          | inr (last, failed, _, _) ↦ inr (
            failed_row f clock r,
            found',
            ap outbox_status_as_str failed,
            omega arith,
            λ locked at' clock'.
                unclaimable locked at' clock' (failed_row f clock r)
                  (ap outbox_status_as_str failed),
          )
        ],
      )

  -- Where the chain is down and the database is not: an entry with `n` recorded attempts is given
  -- up by the `k` more that make ten.
  pub attempts-IsGivenUp :
      (id : String) (k n : ℕ) (w : World)
      → 1 ≤ k
      → n + k ≡ 10
      → IsAt env id n w
      → IsGivenUp id (attempts env client show id k w)
  attempts-IsGivenUp id zero n w some' ten h = absurd (omega arith)
  attempts-IsGivenUp id (suc zero) n w some' ten h = elim (attempt-IsAt id n w (omega arith) h).1 [
    | inl more ↦ absurd (omega arith)
    | inr given ↦ given
  ]
  attempts-IsGivenUp id (suc (suc k)) n w some' ten h =
      attempts-IsGivenUp id (suc k) (n + 1) (attempt env client show id w) (omega arith)
        (omega arith) (attempt-IsAt id n w (omega arith) h).0
