-- ===== src/Postgres/Outbox.antt =====
-- infra/database/postgres.rs: `impl OutboxRepository for PostgresClient`.
use testable_rust_architectu.Base.{
  ℕ, ◌+◌, String, Bool, true, ◌&&◌, ◌||◌, not, Option, none, some, List, map, if◌then◌else◌, str_eq,
  ltb, leb, keep, take, any,
}
use testable_rust_architectu.Base.Effects.{Action, ok, lift, ◌>>=◌, ◌>>◌, map_err}
use testable_rust_architectu.Domain.Errors.{ItemError, HealthCheckError, database_unavailable}
use testable_rust_architectu.Domain.Status.{
  submitted, completed, blockchain_status_as_str, outbox_status_as_str,
}
use testable_rust_architectu.Domain.Items.{Time, seconds, SolanaOutboxEntry}
use testable_rust_architectu.Domain.Ports.{Failure}
use testable_rust_architectu.World.{ItemRow, OutboxRow, World, Env, now}
use testable_rust_architectu.Postgres.Sql.{
  Statement, execute, transaction, update_items_where, update_outbox_where,
}
use testable_rust_architectu.Postgres.Rows.{row_to_outbox, collect}
use testable_rust_architectu.Postgres.Sorting.{sort}
use testable_rust_architectu.Postgres.Items.{nothing}

-- `INTERVAL '5 minutes'`.
abbrev pub lease : Time
lease = seconds 300

abbrev pub due : Option Time → Time → Bool
due none at = true
due (some t) at = leb t at

-- The `WHERE` of the candidates, and `SKIP LOCKED`; `at` is bound, `clock` is `NOW()`.
abbrev pub is_claimable : (String → Bool) → Time → Time → OutboxRow → Bool
is_claimable locked at clock r =
    (str_eq r.status "pending"
      || (str_eq r.status "processing" && ltb (r.updated_at + lease) clock))
    && (due r.next_retry_at at && not (locked r.id))

unfoldable pub candidates : (String → Bool) → Time → Time → ℕ → List OutboxRow → List OutboxRow
unfolding sort
candidates locked at clock limit rows =
    take limit
      (sort (λ a b. ltb a.created_at b.created_at) (keep (is_claimable locked at clock) rows))

abbrev pub is_among : List OutboxRow → OutboxRow → Bool
is_among cs r = any (λ c. str_eq c.id r.id) cs

abbrev pub claimed : Time → OutboxRow → OutboxRow
claimed clock r = record r { status = "processing"; updated_at = clock }

-- SQL leaves the order of the returned rows open; here it is that of the table.
unfoldable pub claim : (String → Bool) → Time → Time → ℕ → Statement (List OutboxRow)
unfolding candidates
claim locked at clock limit t =
    let chosen = is_among (candidates locked at clock limit t.outbox) in
    ok (
      map (claimed clock) (keep chosen t.outbox),
      record t { outbox = map (λ r. if chosen r then claimed clock r else r) t.outbox },
    )

abbrev pub set_blockhash : Option (Option String) → Option String → Option String
set_blockhash none old = old
set_blockhash (some new) old = new

abbrev pub failed_row : Failure → Time → OutboxRow → OutboxRow
failed_row f clock r = record r {
  status = outbox_status_as_str f.outbox_status;
  retry_count = f.retry_count;
  next_retry_at = f.next_retry_at;
  attempt_blockhash = set_blockhash f.attempt_blockhash r.attempt_blockhash;
  updated_at = clock;
}

abbrev pub failed_item : Failure → Time → ItemRow → ItemRow
failed_item f at r = record r {
  blockchain_status = blockchain_status_as_str f.item_status;
  blockchain_last_error = some f.error;
  blockchain_next_retry_at = f.next_retry_at;
  blockchain_retry_count = f.retry_count;
  updated_at = at;
}

abbrev pub completed_row : Time → OutboxRow → OutboxRow
completed_row clock r = record r { status = outbox_status_as_str completed; updated_at = clock }

abbrev pub submitted_item : String → Time → ItemRow → ItemRow
submitted_item signature at r = record r {
  blockchain_status = blockchain_status_as_str submitted;
  blockchain_signature = some signature;
  blockchain_last_error = none;
  blockchain_next_retry_at = none;
  updated_at = at;
}

abbrev pub update_outbox : String → (OutboxRow → OutboxRow) → Statement (Unit {0})
update_outbox id f t = ok (tt, record t { outbox = update_outbox_where id f t.outbox })

abbrev pub update_items : String → (ItemRow → ItemRow) → Statement (Unit {0})
update_items id f t = ok (tt, record t { items = update_items_where id f t.items })

module _ (env : Env) where
  unfoldable pub health_check : Action World HealthCheckError (Unit {0})
  health_check = map_err (λ (e : ItemError). database_unavailable) (execute env nothing)

  unfoldable pub claim_pending_solana_outbox : ℕ → Action World ItemError (List SolanaOutboxEntry)
  unfolding claim row_to_outbox
  claim_pending_solana_outbox limit = do
    at ← now env
    rows ← λ w. execute env (claim (env.locked w.ticks) at (env.db_now w.ticks) limit) w
    lift (collect (row_to_outbox env) rows)

  unfoldable pub complete_solana_outbox :
      String → String → String → Action World ItemError (Unit {0})
  complete_solana_outbox outbox_id item_id signature = do
    at ← now env
    transaction env λ clock. do
      execute env (update_outbox outbox_id (completed_row clock))
      execute env (update_items item_id (submitted_item signature at))

  unfoldable pub fail_solana_outbox : String → String → Failure → Action World ItemError (Unit {0})
  fail_solana_outbox outbox_id item_id f = do
    at ← now env
    transaction env λ clock. do
      execute env (update_outbox outbox_id (failed_row f clock))
      execute env (update_items item_id (failed_item f at))

  unfoldable pub save_attempt_blockhash : String → Option String → Action World ItemError (Unit {0})
  save_attempt_blockhash outbox_id blockhash =
      execute env (update_outbox outbox_id (λ r. record r { attempt_blockhash = blockhash }))
