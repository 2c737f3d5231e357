-- ===== src/Postgres/Keeps.antt =====
-- Every operation of the two repositories keeps the tables consistent.
use testable_rust_architectu.Base.{
  ℕ, ◌+◌, String, ◌≡◌, refl, sym, ◌∙◌, ◌∷◌, [], inl, inr, Option, List, arith, subst,
}
use testable_rust_architectu.Base.Int.{ℤ}
use testable_rust_architectu.Base.Effects.{Action, Result}
use testable_rust_architectu.Domain.Status.{BlockchainStatus}
use testable_rust_architectu.Domain.Items.{Time, CreateItemRequest, SolanaOutboxPayload}
use testable_rust_architectu.Domain.Ports.{Failure}
use testable_rust_architectu.World.{Tables, ItemRow, OutboxRow, World, Env}
use testable_rust_architectu.Postgres.Sql.{update_items_where, update_outbox_where}
use testable_rust_architectu.Postgres.Items.{
  create_item, get_item, list_items, update_blockchain_status, enqueue_solana_outbox_for_item,
  get_pending_blockchain_items, increment_retry_count,
}
use testable_rust_architectu.Postgres.Outbox.{
  claim_pending_solana_outbox, complete_solana_outbox, fail_solana_outbox, save_attempt_blockhash,
}
use testable_rust_architectu.Postgres.Atomicity.{create_item_atomic}
use testable_rust_architectu.Postgres.Effects.{
  AllOrNothing, fail_effect, complete_effect, save_effect, enqueue_effect, claim_effect,
  update_status_effect, touch_effect, increment_effect, get_item_same, list_items_same, new_entry,
}
use testable_rust_architectu.Postgres.Invariant.{
  IsConsistent, insert_both, insert_entry, has_item-mem, has_outbox-mem, map-update_items_where,
  map-update_outbox_where, map-map_same, item_ids, outbox_ids, aggregates,
}

abbrev pub Keeps : {E A : Type 0} → Action World E A → Type 0
Keeps m = (w : World) → IsConsistent w.tables → IsConsistent (m w).1.tables

same_keys :
    (t t' : Tables)
    → item_ids t' ≡ item_ids t
    → outbox_ids t' ≡ outbox_ids t
    → aggregates t' ≡ aggregates t
    → IsConsistent t
    → IsConsistent t'
same_keys t t' i o a c = rw (i, o, a) c

update_items-IsConsistent :
    (id : String) (f : ItemRow → ItemRow) (t : Tables)
    → ((r : ItemRow) → (f r).id ≡ r.id)
    → IsConsistent t
    → IsConsistent (record t { items = update_items_where id f t.items })
update_items-IsConsistent id f t same =
    same_keys t (record t { items = update_items_where id f t.items })
      (map-update_items_where (λ r. r.id) id f t.items same) refl refl

update_outbox-IsConsistent :
    (id : String) (f : OutboxRow → OutboxRow) (t : Tables)
    → ((r : OutboxRow) → (f r).id ≡ r.id)
    → ((r : OutboxRow) → (f r).aggregate_id ≡ r.aggregate_id)
    → IsConsistent t
    → IsConsistent (record t { outbox = update_outbox_where id f t.outbox })
update_outbox-IsConsistent id f t same same' =
    same_keys t (record t { outbox = update_outbox_where id f t.outbox }) refl
      (map-update_outbox_where (λ r. r.id) id f t.outbox same)
      (map-update_outbox_where (λ r. r.aggregate_id) id f t.outbox same')

-- After an operation that does all of an update or nothing, what holds before and after the update
-- holds.
pub holds_after :
    {E A : Type 0} (P : Tables → Type 0) (before after : Tables) (p : Result E A × World)
    → AllOrNothing before after p
    → P before
    → P after
    → P p.1.tables
holds_after P before after p (inl e) c c' = subst P (sym e) c'
holds_after P before after p (inr (_, e)) c c' = subst P (sym e) c

module _ (env : Env) where
  fail-Keeps : (o i : String) (f : Failure) → Keeps (fail_solana_outbox env o i f)
  fail-Keeps o i f w c =
      holds_after IsConsistent w.tables _ (fail_solana_outbox env o i f w) (fail_effect env w o i f)
        c
        (update_items-IsConsistent i _ _ (λ r. refl)
          (update_outbox-IsConsistent o _ w.tables (λ r. refl) (λ r. refl) c))

  complete-Keeps : (o i s : String) → Keeps (complete_solana_outbox env o i s)
  complete-Keeps o i s w c =
      holds_after IsConsistent w.tables _ (complete_solana_outbox env o i s w)
        (complete_effect env w o i s) c
        (update_items-IsConsistent i _ _ (λ r. refl)
          (update_outbox-IsConsistent o _ w.tables (λ r. refl) (λ r. refl) c))

  save-Keeps : (o : String) (h : Option String) → Keeps (save_attempt_blockhash env o h)
  save-Keeps o h w c =
      holds_after IsConsistent w.tables _ (save_attempt_blockhash env o h w) (save_effect env w o h)
        c (update_outbox-IsConsistent o _ w.tables (λ r. refl) (λ r. refl) c)

  update_status-Keeps :
      (id : String) (status : BlockchainStatus) (signature error : Option String) (at : Option Time)
      → Keeps (update_blockchain_status env id status signature error at)
  update_status-Keeps id status signature error at w c =
      holds_after IsConsistent w.tables _
        (update_blockchain_status env id status signature error at w)
        (update_status_effect env w id status signature error at) c
        (update_items-IsConsistent id _ w.tables (λ r. refl) c)

  increment-Keeps : (id : String) → Keeps (increment_retry_count env id)
  increment-Keeps id w c =
      holds_after IsConsistent w.tables _ (increment_retry_count env id w)
        (increment_effect env w id) c (update_items-IsConsistent id _ w.tables (λ r. refl) c)

  touch-Keeps : (limit : ℕ) → Keeps (get_pending_blockchain_items env limit)
  touch-Keeps limit w c =
      holds_after IsConsistent w.tables _ (get_pending_blockchain_items env limit w)
        (touch_effect env w limit) c
        (same_keys w.tables _ (map-map_same (λ r. r.id) _ w.tables.items (λ r. ground arith)) refl
          refl c)

  claim-Keeps : (limit : ℕ) → Keeps (claim_pending_solana_outbox env limit)
  claim-Keeps limit w c =
      holds_after IsConsistent w.tables _ (claim_pending_solana_outbox env limit w)
        (claim_effect env w limit) c
        (same_keys w.tables _ refl (map-map_same (λ r. r.id) _ w.tables.outbox (λ r. ground arith))
          (map-map_same (λ r. r.aggregate_id) _ w.tables.outbox (λ r. ground arith)) c)

  enqueue-Keeps :
      (id : String) (payload : SolanaOutboxPayload)
      → Keeps (enqueue_solana_outbox_for_item env id payload)
  enqueue-Keeps id payload w c = elim (enqueue_effect env w id payload) [
    | inr (_, same) ↦ subst IsConsistent (sym same) c
    | inl (e, free, known) ↦ subst IsConsistent (sym e) (
        update_items-IsConsistent id _
          (record w.tables { outbox = new_entry env w id payload ∷ w.tables.outbox }) (λ r. refl)
          (insert_entry id (env.uuid (w.ticks + 1)) c (sym (has_item-mem id w.tables.items) ∙ known)
            (sym (has_outbox-mem (env.uuid (w.ticks + 1)) w.tables.outbox) ∙ free)))
  ]

  create-Keeps : (request : CreateItemRequest) → Keeps (create_item env request)
  create-Keeps request w c = elim (create_item_atomic env request w) [
    | inr (_, same) ↦ subst IsConsistent (sym same) c
    | inl (r, o, items, outbox, new, free, pair) ↦
        subst IsConsistent (λ i. record { items = sym items i; outbox = sym outbox i })
          (rw (pair.refers) (
            insert_both r.id o.id c (sym (has_item-mem r.id w.tables.items) ∙ new)
              (sym (has_outbox-mem o.id w.tables.outbox) ∙ free)))
  ]

  get_item-Keeps : (id : String) → Keeps (get_item env id)
  get_item-Keeps id w c = subst IsConsistent (sym (get_item_same env w id)) c

  list_items-Keeps : (limit : ℤ) (cursor : Option String) → Keeps (list_items env limit cursor)
  list_items-Keeps limit cursor w c =
      subst IsConsistent (sym (list_items_same env w limit cursor)) c

-- A call of one of the repositories.
pub data Call : Type 0 where
  creates : CreateItemRequest → Call
  reads : String → Call
  pages : ℤ → Option String → Call
  updates : String → BlockchainStatus → Option String → Option String → Option Time → Call
  enqueues : String → SolanaOutboxPayload → Call
  touches claims : ℕ → Call
  increments : String → Call
  completes : String → String → String → Call
  fails : String → String → Failure → Call
  saves : String → Option String → Call

abbrev pub call : Env → Call → World → World
call env (creates r) w = (create_item env r w).1
call env (reads id) w = (get_item env id w).1
call env (pages l c) w = (list_items env l c w).1
call env (updates id s g e at) w = (update_blockchain_status env id s g e at w).1
call env (enqueues id p) w = (enqueue_solana_outbox_for_item env id p w).1
call env (touches n) w = (get_pending_blockchain_items env n w).1
call env (claims n) w = (claim_pending_solana_outbox env n w).1
call env (increments id) w = (increment_retry_count env id w).1
call env (completes o i s) w = (complete_solana_outbox env o i s w).1
call env (fails o i f) w = (fail_solana_outbox env o i f w).1
call env (saves o h) w = (save_attempt_blockhash env o h w).1

abbrev pub calls : Env → List Call → World → World
calls env [] w = w
calls env (c ∷ cs) w = calls env cs (call env c w)

pub call-IsConsistent :
    (env : Env) (k : Call) (w : World) → IsConsistent w.tables → IsConsistent (call env k w).tables
call-IsConsistent env (creates r) w = create-Keeps env r w
call-IsConsistent env (reads id) w = get_item-Keeps env id w
call-IsConsistent env (pages l c) w = list_items-Keeps env l c w
call-IsConsistent env (updates id s g e at) w = update_status-Keeps env id s g e at w
call-IsConsistent env (enqueues id p) w = enqueue-Keeps env id p w
call-IsConsistent env (touches n) w = touch-Keeps env n w
call-IsConsistent env (claims n) w = claim-Keeps env n w
call-IsConsistent env (increments id) w = increment-Keeps env id w
call-IsConsistent env (completes o i s) w = complete-Keeps env o i s w
call-IsConsistent env (fails o i f) w = fail-Keeps env o i f w
call-IsConsistent env (saves o h) w = save-Keeps env o h w

-- From consistent tables, any sequence of calls of the repositories, whatever faults occur, ends
-- in consistent tables: ids are distinct, every entry is for an item that exists, and every item
-- has an entry.
pub calls-IsConsistent :
    (env : Env) (cs : List Call) (w : World)
    → IsConsistent w.tables
    → IsConsistent (calls env cs w).tables
calls-IsConsistent env [] w c = c
calls-IsConsistent env (k ∷ ks) w c =
    calls-IsConsistent env ks (call env k w) (call-IsConsistent env k w c)
