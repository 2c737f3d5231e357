-- ===== src/Mock/Writes.antt =====
-- test_utils/mocks.rs against infra/database/postgres.rs: updates of the status, completions,
-- failures and saved blockhashes.
use testable_rust_architectu.Base.{
  ℕ, ◌+◌, String, false, ◌≡◌, refl, sym, ap, subst, Option, none, List, [], ◌∷◌, arith,
}
use testable_rust_architectu.Base.Effects.{Action, Result, ok}
use testable_rust_architectu.Domain.Errors.{ItemError}
use testable_rust_architectu.Domain.Status.{BlockchainStatus}
use testable_rust_architectu.Domain.Items.{Time, Item, SolanaOutboxEntry}
use testable_rust_architectu.Domain.Ports.{Failure, ItemRepository, OutboxRepository}
use testable_rust_architectu.World.{World, Env, ItemRow, OutboxRow, Tables}
use testable_rust_architectu.Postgres.Sql
use testable_rust_architectu.Postgres.Items
use testable_rust_architectu.Postgres.Outbox
use testable_rust_architectu.Postgres.Client.{postgres_items, postgres_outbox}
use testable_rust_architectu.Mock.Store.{MockConfig, MockEnv, MockStore}
use testable_rust_architectu.Mock.Items.{updated_item, mock_items}
use testable_rust_architectu.Mock.Items as MockItems
use testable_rust_architectu.Mock.Outbox.{
  completed_entry, completed_item, failed_entry, failed_item, mock_outbox, change_item,
  change_entry,
}
use testable_rust_architectu.Mock.Outbox as MockOutbox
use testable_rust_architectu.Mock.Matching.{
  SameItem, SameEntry, EntriesMatch, IsMatching, update-EntriesMatch,
}
use testable_rust_architectu.Mock.Agreement.{
  updated-SameItem, completed-SameItem, failed-SameItem, completed-SameEntry, failed-SameEntry,
  saved-SameEntry, changed-ItemsMatch, changed-outbox,
}
use testable_rust_architectu.Postgres.Calm.{
  updated_row, complete_calm, fail_calm, save_calm, update_calm,
}

-- The writes that are compared.
pub data Write : Type 0 where
  updates : String → BlockchainStatus → Option String → Option String → Option Time → Write
  completes : String → String → String → Write
  fails : String → String → Failure → Write
  saves : String → Option String → Write

-- A write through the ports, whoever implements them.
abbrev pub write :
    {S : Type 0} → ItemRepository S → OutboxRepository S → Write → Action S ItemError (Unit {0})
write items outbox (updates id status signature error at) =
    items.update_blockchain_status id status signature error at
write items outbox (completes outbox_id item_id signature) =
    outbox.complete_solana_outbox outbox_id item_id signature
write items outbox (fails outbox_id item_id f) = outbox.fail_solana_outbox outbox_id item_id f
write items outbox (saves outbox_id blockhash) = outbox.save_attempt_blockhash outbox_id blockhash

abbrev pub writes : {S : Type 0} → ItemRepository S → OutboxRepository S → List Write → S → S
writes items outbox [] s = s
writes items outbox (k ∷ ks) s = writes items outbox ks (write items outbox k s).1

-- Both succeed, and leave what matches.
abbrev pub BothMatch :
    Env → Result ItemError (Unit {0}) × World → Result ItemError (Unit {0}) × MockStore → Type 0
BothMatch env (r, w) (q, s) = (r ≡ ok tt) × (q ≡ ok tt) × IsMatching env w.tables s

module _ (env : Env) (menv : MockEnv) (config : MockConfig) (calm : (n : ℕ) → env.fault n ≡ none)
    (succeeds : config.should_fail ≡ false) where
  -- The mock's change of an item, and then of an entry.
  abbrev change_both :
      String
      → (Time → Item → Item)
      → String
      → (SolanaOutboxEntry → SolanaOutboxEntry)
      → MockStore
      → MockStore
  change_both item_id g outbox_id h s =
      (change_entry outbox_id h (change_item menv item_id g s).1).1

  both-IsMatching :
      (item_id outbox_id : String) (f : ItemRow → ItemRow) (g : Time → Item → Item)
      (f' : OutboxRow → OutboxRow) (g' : SolanaOutboxEntry → SolanaOutboxEntry)
      → ((r : ItemRow) → (f r).id ≡ r.id)
      → ((t : Time) (r : ItemRow) (i : Item) → SameItem env r i → SameItem env (f r) (g t i))
      → ((r : OutboxRow) → (f' r).id ≡ r.id)
      → ((r : OutboxRow) (e : SolanaOutboxEntry) → SameEntry env r e → SameEntry env (f' r) (g' e))
      → (t : Tables) (s : MockStore) → IsMatching env t s
      → IsMatching env
          (record {
            items = Sql.update_items_where item_id f t.items;
            outbox = Sql.update_outbox_where outbox_id f' t.outbox;
          })
          (change_both item_id g outbox_id g' s)
  both-IsMatching item_id outbox_id f g f' g' kept same kept' same' t s (items, outbox) = (
    changed-ItemsMatch env menv item_id f g kept same t.items s items,
    update-EntriesMatch env outbox_id f' g' kept' same' t.outbox _
        (subst (EntriesMatch env t.outbox) (sym (changed-outbox env menv item_id g s)) outbox),
  )

  both :
      (p : Result ItemError (Unit {0}) × World) {q : Result ItemError (Unit {0}) × MockStore}
      {t : Tables} {s' : MockStore}
      → (p.0 ≡ ok tt) × (p.1.tables ≡ t)
      → q ≡ (ok tt, s')
      → IsMatching env t s'
      → BothMatch env p q
  both p {q = q} {t = t} (done, tables) answer kept = (
    done,
    ap (λ a. a.0) answer,
    subst (λ x. IsMatching env x q.1) (sym tables)
        (subst (IsMatching env t) (sym (ap (λ a. a.1) answer)) kept),
  )

  mock_completes :
      (o i g : String) (s : MockStore)
      → MockOutbox.complete_solana_outbox menv config o i g s
        ≡ (ok tt, change_both i (completed_item g) o completed_entry s)
  unfolding MockOutbox.complete_solana_outbox
  mock_completes o i g s = ground (arith, succeeds)

  mock_fails :
      (o i : String) (f : Failure) (s : MockStore)
      → MockOutbox.fail_solana_outbox menv config o i f s
        ≡ (ok tt, change_both i (failed_item f) o (failed_entry f) s)
  unfolding MockOutbox.fail_solana_outbox
  mock_fails o i f s = ground (arith, succeeds)

  mock_saves :
      (o : String) (b : Option String) (s : MockStore)
      → MockOutbox.save_attempt_blockhash menv config o b s
        ≡ change_entry o (λ e. record e { attempt_blockhash = b }) s
  unfolding MockOutbox.save_attempt_blockhash
  mock_saves o b s = ground (arith, succeeds)

  mock_updates :
      (i : String) (st : BlockchainStatus) (g e : Option String) (next : Option Time)
      (s : MockStore)
      → MockItems.update_blockchain_status menv config i st g e next s
        ≡ (ok tt, (change_item menv i (updated_item st g e next) s).1)
  unfolding MockItems.update_blockchain_status
  mock_updates i st g e next s = ground (arith, succeeds)

  write-BothMatch :
      (k : Write) (w : World) (s : MockStore)
      → IsMatching env w.tables s
      → BothMatch env
          (write (postgres_items env) (postgres_outbox env) k w)
          (write (mock_items menv config) (mock_outbox menv config) k s)
  write-BothMatch (completes o i g) w s m =
      both (Outbox.complete_solana_outbox env o i g w) (complete_calm env calm w o i g)
        (mock_completes o i g s)
        (both-IsMatching i o _ (completed_item g) _ completed_entry (λ r. refl)
          (λ t. completed-SameItem env (env.utc_now w.ticks) t g) (λ r. refl)
          (completed-SameEntry env (env.db_now (w.ticks + 1))) w.tables s m)
  write-BothMatch (fails o i f) w s m =
      both (Outbox.fail_solana_outbox env o i f w) (fail_calm env calm w o i f) (mock_fails o i f s)
        (both-IsMatching i o _ (failed_item f) _ (failed_entry f) (λ r. refl)
          (λ t. failed-SameItem env (env.utc_now w.ticks) t f) (λ r. refl)
          (failed-SameEntry env (env.db_now (w.ticks + 1)) f) w.tables s m)
  write-BothMatch (saves o b) w s (items, outbox) =
      both (Outbox.save_attempt_blockhash env o b w) (save_calm env calm w o b) (mock_saves o b s) (
        items,
        update-EntriesMatch env o _ (λ e. record e { attempt_blockhash = b }) (λ r. refl)
            (saved-SameEntry env 0 b) w.tables.outbox s.outbox outbox,
      )
  write-BothMatch (updates i st g e next) w s (items, outbox) =
      both (Items.update_blockchain_status env i st g e next w)
        (update_calm env calm w i st g e next) (mock_updates i st g e next s)
        (
          changed-ItemsMatch env menv i (updated_row st g e next (env.utc_now w.ticks))
              (updated_item st g e next) (λ r. refl)
              (λ t. updated-SameItem env (env.utc_now w.ticks) t st g e next) w.tables.items s
              items,
          subst (EntriesMatch env w.tables.outbox)
              (sym (changed-outbox env menv i (updated_item st g e next) s)) outbox,
        )

  pub writes-IsMatching :
      (ks : List Write) (w : World) (s : MockStore)
      → IsMatching env w.tables s
      → IsMatching env
          (writes (postgres_items env) (postgres_outbox env) ks w).tables
          (writes (mock_items menv config) (mock_outbox menv config) ks s)
  writes-IsMatching [] w s m = m
  writes-IsMatching (k ∷ ks) w s m =
      let (done, done', kept) = write-BothMatch k w s m in writes-IsMatching ks _ _ kept
