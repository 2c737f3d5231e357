-- ===== src/Service/Expected.antt =====
-- app/service.rs: what the tables should hold after an attempt and after a manual
-- retry, in values, apart from the rows that the statements build.
use testable_rust_architectu.Base.{
  ℕ, ◌+◌, String, ◌≡◌, refl, ap, ◌∙◌, Option, none, some, List, [], ◌∷◌, map, if◌then◌else◌, str_eq,
}
use testable_rust_architectu.Domain.Errors.{
  BlockchainError, submission_failed, submission_failed_with_blockhash, blockhash_expired,
  network_error, insufficient_funds, timeout, blockchain_error_to_string,
}
use testable_rust_architectu.Domain.Status.{blockchain_status_as_str, outbox_status_as_str}
use testable_rust_architectu.Domain.Items.{Time, SolanaOutboxPayload}
use testable_rust_architectu.Domain.Ports.{Failure}
use testable_rust_architectu.World.{World, Env, ItemRow, OutboxRow, Tables}
use testable_rust_architectu.Postgres.Sql.{update_items_where, update_outbox_where}
use testable_rust_architectu.Postgres.Outbox.{failed_row, failed_item, set_blockhash}
use testable_rust_architectu.Postgres.Effects.{completed_tables, failed_tables, enqueued_tables}
use testable_rust_architectu.Service.{attempt_update}

-- The rows with the id are changed, and no other.
abbrev pub changed_items : String → (ItemRow → ItemRow) → List ItemRow → List ItemRow
changed_items id f rs = map (λ r. if str_eq r.id id then f r else r) rs

abbrev pub changed_outbox : String → (OutboxRow → OutboxRow) → List OutboxRow → List OutboxRow
changed_outbox id f rs = map (λ r. if str_eq r.id id then f r else r) rs

items-changed :
    (id : String) (f g : ItemRow → ItemRow) (rs : List ItemRow)
    → ((r : ItemRow) → f r ≡ g r)
    → update_items_where id f rs ≡ changed_items id g rs
items-changed id f g [] same = refl
items-changed id f g (r ∷ rs) same =
    let head = same r in
    let tail = items-changed id f g rs same in λ i. (if str_eq r.id id then head i else r) ∷ tail i

outbox-changed :
    (id : String) (f g : OutboxRow → OutboxRow) (rs : List OutboxRow)
    → ((r : OutboxRow) → f r ≡ g r)
    → update_outbox_where id f rs ≡ changed_outbox id g rs
outbox-changed id f g [] same = refl
outbox-changed id f g (r ∷ rs) same =
    let head = same r in
    let tail = outbox-changed id f g rs same in λ i. (if str_eq r.id id then head i else r) ∷ tail i

-- The blockhash that is left for the next attempt: none after an expiry, the one that the error
-- carries, or else the one that was stored.
abbrev pub next_blockhash : BlockchainError → Option String → Option String
next_blockhash blockhash_expired old = none
next_blockhash (submission_failed_with_blockhash m used) old = some used
next_blockhash (timeout m used) old = some used
next_blockhash (network_error m used) old = some used
next_blockhash (submission_failed m) old = old
next_blockhash insufficient_funds old = old

update-next_blockhash :
    (e : BlockchainError) (old : Option String)
    → set_blockhash (attempt_update e) old ≡ next_blockhash e old
unfolding attempt_update
update-next_blockhash blockhash_expired old = refl
update-next_blockhash (submission_failed_with_blockhash m used) old = refl
update-next_blockhash (timeout m used) old = refl
update-next_blockhash (network_error m used) old = refl
update-next_blockhash (submission_failed m) old = refl
update-next_blockhash insufficient_funds old = refl

-- The entry is completed, and its item is submitted with the signature.
abbrev pub tables_of_success : String → String → String → Time → Time → Tables → Tables
tables_of_success outbox_id item_id signature at clock t = record {
  items =
      changed_items item_id
        (λ r. record r {
          blockchain_status = "submitted";
          blockchain_signature = some signature;
          blockchain_last_error = none;
          blockchain_next_retry_at = none;
          updated_at = at;
        })
        t.items;
  outbox =
      changed_outbox outbox_id (λ r. record r { status = "completed"; updated_at = clock })
        t.outbox;
}

-- The number of the attempt, the next time and both statuses are written to the entry and its
-- item, the error to the item, and the blockhash of the next attempt to the entry.
abbrev pub tables_of_failure :
    String
    → String
    → ℕ
    → BlockchainError
    → String
    → String
    → Option Time
    → Time
    → Time
    → Tables
    → Tables
tables_of_failure outbox_id item_id n e status item_status next at clock t = record {
  items =
      changed_items item_id
        (λ r. record r {
          blockchain_status = item_status;
          blockchain_last_error = some (blockchain_error_to_string e);
          blockchain_next_retry_at = next;
          blockchain_retry_count = n;
          updated_at = at;
        })
        t.items;
  outbox =
      changed_outbox outbox_id
        (λ r. record r {
          status = status;
          retry_count = n;
          next_retry_at = next;
          attempt_blockhash = next_blockhash e r.attempt_blockhash;
          updated_at = clock;
        })
        t.outbox;
}

-- The item waits as a new one does, and a new entry for the payload waits for its first attempt.
abbrev pub tables_of_retry : String → String → String → Time → Time → Tables → Tables
tables_of_retry outbox_id item_id payload at clock t = record {
  items =
      changed_items item_id
        (λ r. record r {
          blockchain_status = "pending_submission";
          blockchain_last_error = none;
          blockchain_next_retry_at = none;
          blockchain_retry_count = 0;
          updated_at = at;
        })
        t.items;
  outbox =
      record {
        id = outbox_id;
        aggregate_id = item_id;
        payload = payload;
        status = "pending";
        created_at = at;
        retry_count = 0;
        next_retry_at = none;
        attempt_blockhash = none;
        updated_at = clock;
      }
      ∷ t.outbox;
}

module _ (env : Env) (w : World) where
  pub completed-expected :
      (outbox_id item_id signature : String)
      → completed_tables env outbox_id item_id signature w
        ≡ tables_of_success outbox_id item_id signature
            (env.utc_now w.ticks)
            (env.db_now (w.ticks + 1))
            w.tables
  unfolding blockchain_status_as_str outbox_status_as_str
  completed-expected outbox_id item_id signature =
      let rows = items-changed item_id _ _ w.tables.items (λ r. refl) in
      let entries = outbox-changed outbox_id _ _ w.tables.outbox (λ r. refl) in
      λ i. record { items = rows i; outbox = entries i }

  pub failed-expected :
      (outbox_id item_id : String) (f : Failure) (n : ℕ) (e : BlockchainError) (next : Option Time)
      → f.retry_count ≡ n
      → f.error ≡ blockchain_error_to_string e
      → f.attempt_blockhash ≡ attempt_update e
      → f.next_retry_at ≡ next
      → failed_tables env outbox_id item_id f w
        ≡ tables_of_failure outbox_id item_id n e
            (outbox_status_as_str f.outbox_status)
            (blockchain_status_as_str f.item_status)
            next
            (env.utc_now w.ticks)
            (env.db_now (w.ticks + 1))
            w.tables
  failed-expected outbox_id item_id f n e next number text hash due =
      let at = env.utc_now w.ticks in
      let clock = env.db_now (w.ticks + 1) in
      let rows = items-changed item_id (failed_item f at) _ w.tables.items (λ r i. record r {
        blockchain_status = blockchain_status_as_str f.item_status;
        blockchain_last_error = some (text i);
        blockchain_next_retry_at = due i;
        blockchain_retry_count = number i;
        updated_at = at;
      }) in
      let entries = outbox-changed outbox_id (failed_row f clock) _ w.tables.outbox (λ r.
        let stored =
          ap (λ u. set_blockhash u r.attempt_blockhash) hash
          ∙ update-next_blockhash e r.attempt_blockhash in
        λ i. record r {
          status = outbox_status_as_str f.outbox_status;
          retry_count = number i;
          next_retry_at = due i;
          attempt_blockhash = stored i;
          updated_at = clock;
        }) in
      λ i. record { items = rows i; outbox = entries i }

  pub enqueued-expected :
      (item_id : String) (payload : SolanaOutboxPayload)
      → enqueued_tables env w item_id payload
        ≡ tables_of_retry
            (env.uuid (w.ticks + 1))
            item_id
            (env.payload_to_json payload)
            (env.utc_now w.ticks)
            (env.db_now (w.ticks + 1 + 1))
            w.tables
  unfolding blockchain_status_as_str outbox_status_as_str
  enqueued-expected item_id payload =
      let rows = items-changed item_id _ _ w.tables.items (λ r. refl) in
      λ i. record { items = rows i; outbox = (enqueued_tables env w item_id payload).outbox }
