-- ===== src/Mock/Agreement.antt =====
-- test_utils/mocks.rs against infra/database/postgres.rs: what the worker and the service record.
use testable_rust_architectu.Base.{
  String, ◌≡◌, refl, ap, subst, ◌∙◌, Option, List, inl, inr, Option-cases, arith,
}
use testable_rust_architectu.Base.Effects.{ok}
use testable_rust_architectu.Domain.Status.{
  BlockchainStatus, OutboxStatus, blockchain_status_as_str, blockchain_status_from_str,
  outbox_status_as_str, outbox_status_from_str, submitted, completed,
  blockchain_status_from_str_iff, outbox_status_from_str_iff,
}
use testable_rust_architectu.Domain.Items.{Time, Item, SolanaOutboxEntry}
use testable_rust_architectu.Domain.Ports.{Failure}
use testable_rust_architectu.World.{Env, ItemRow, OutboxRow}
use testable_rust_architectu.Postgres.Rows.{row_to_item, row_to_outbox}
use testable_rust_architectu.Postgres.Sql
use testable_rust_architectu.Postgres.Outbox
use testable_rust_architectu.Postgres.Calm.{updated_row}
use testable_rust_architectu.Mock.Store.{MockEnv, MockStore, get}
use testable_rust_architectu.Mock.Items.{updated_item}
use testable_rust_architectu.Mock.Outbox.{
  completed_entry, completed_item, failed_entry, failed_item, change_item,
}
use testable_rust_architectu.Mock.Matching.{
  map_ok, SameItem, SameEntry, ItemsMatch, update-ItemsMatch, update_at_absent,
}

status_parses :
    (s : BlockchainStatus) → blockchain_status_from_str (blockchain_status_as_str s) ≡ ok s
status_parses s = (blockchain_status_from_str_iff (blockchain_status_as_str s) s).1 refl

outbox_parses : (s : OutboxStatus) → outbox_status_from_str (outbox_status_as_str s) ≡ ok s
outbox_parses s = (outbox_status_from_str_iff (outbox_status_as_str s) s).1 refl

module _ (env : Env) (at at' : Time) where
  pub updated-SameItem :
      (status : BlockchainStatus) (signature error : Option String) (next : Option Time)
      (r : ItemRow) (i : Item)
      → SameItem env r i
      → SameItem env
          (updated_row status signature error next at r)
          (updated_item status signature error next at' i)
  unfolding row_to_item
  updated-SameItem status signature error next r i h =
      rw (status_parses status) (ap (map_ok (updated_item status signature error next 0)) h)

  pub completed-SameItem :
      (signature : String) (r : ItemRow) (i : Item)
      → SameItem env r i
      → SameItem env (Outbox.submitted_item signature at r) (completed_item signature at' i)
  unfolding row_to_item
  completed-SameItem signature r i h =
      rw (status_parses submitted) (ap (map_ok (completed_item signature 0)) h)

  pub failed-SameItem :
      (f : Failure) (r : ItemRow) (i : Item)
      → SameItem env r i
      → SameItem env (Outbox.failed_item f at r) (failed_item f at' i)
  unfolding row_to_item
  failed-SameItem f r i h = rw (status_parses f.item_status) (ap (map_ok (failed_item f 0)) h)

module _ (env : Env) (clock : Time) where
  -- A change of a row that keeps what is decoded.
  changed-SameEntry :
      (r' : OutboxRow) (g : SolanaOutboxEntry → SolanaOutboxEntry) (r : OutboxRow)
      (e : SolanaOutboxEntry)
      → row_to_outbox env r' ≡ map_ok g (row_to_outbox env r)
      → SameEntry env r e
      → SameEntry env r' (g e)
  changed-SameEntry r' g r e step h = step ∙ ap (map_ok g) h

  pub completed-SameEntry :
      (r : OutboxRow) (e : SolanaOutboxEntry)
      → SameEntry env r e
      → SameEntry env (Outbox.completed_row clock r) (completed_entry e)
  unfolding row_to_outbox
  completed-SameEntry r e h =
      changed-SameEntry (Outbox.completed_row clock r) completed_entry r e
        (ground (arith, outbox_parses completed)) h

  pub failed-SameEntry :
      (f : Failure) (r : OutboxRow) (e : SolanaOutboxEntry)
      → SameEntry env r e
      → SameEntry env (Outbox.failed_row f clock r) (failed_entry f e)
  unfolding row_to_outbox
  failed-SameEntry f r e h =
      changed-SameEntry (Outbox.failed_row f clock r) (failed_entry f) r e
        (ground (arith, outbox_parses f.outbox_status)) h

  pub saved-SameEntry :
      (blockhash : Option String) (r : OutboxRow) (e : SolanaOutboxEntry)
      → SameEntry env r e
      → SameEntry env
          (record r { attempt_blockhash = blockhash })
          (record e { attempt_blockhash = blockhash })
  unfolding row_to_outbox
  saved-SameEntry blockhash r e h =
      changed-SameEntry (record r { attempt_blockhash = blockhash })
        (λ x. record x { attempt_blockhash = blockhash }) r e (ground arith) h

module _ (env : Env) (menv : MockEnv) where
  pub changed-ItemsMatch :
      (id : String) (f : ItemRow → ItemRow) (g : Time → Item → Item)
      → ((r : ItemRow) → (f r).id ≡ r.id)
      → ((t : Time) (r : ItemRow) (i : Item) → SameItem env r i → SameItem env (f r) (g t i))
      → (rs : List ItemRow) (s : MockStore) → ItemsMatch env rs s.storage
      → ItemsMatch env (Sql.update_items_where id f rs) (change_item menv id g s).1.storage
  changed-ItemsMatch id f g kept same rs s h =
      let t = menv.utc_now s.ticks in
      let all = update-ItemsMatch env id f (g t) kept (same t) rs s.storage h in
      elim (Option-cases (get id s.storage)) [
        | inr (i, e) ↦ rw (e, change_item) all
        | inl e ↦
            rw (e, change_item)
              (subst (ItemsMatch env (Sql.update_items_where id f rs))
                (update_at_absent id (g t) s.storage e) all)
      ]

  pub changed-outbox :
      (id : String) (g : Time → Item → Item) (s : MockStore)
      → (change_item menv id g s).1.outbox ≡ s.outbox
  changed-outbox id g s = ground arith
