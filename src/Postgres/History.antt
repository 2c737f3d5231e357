-- ===== src/Postgres/History.antt =====
-- infra/database/postgres.rs: what is never changed nor removed. An item keeps its content and its
-- hash, and an entry the item it is for and its payload.
use testable_rust_architectu.Base.{
  ℕ, String, ◌≡◌, refl, sym, ap, subst, ◌∙◌, Option, List, [], ◌∷◌, ◌++◌, map, arith, inl, inr,
}
use testable_rust_architectu.Base.Effects.{Result}
use testable_rust_architectu.Domain.Items.{Time, CreateItemRequest, SolanaOutboxPayload}
use testable_rust_architectu.World.{World, Env, ItemRow, OutboxRow, Tables}
use testable_rust_architectu.Postgres.Atomicity.{create_item_atomic}
use testable_rust_architectu.Postgres.Effects.{
  AllOrNothing, fail_effect, complete_effect, get_item_same, list_items_same, save_effect,
  enqueue_effect, claim_effect, update_status_effect, touch_effect, increment_effect, new_entry,
}
use testable_rust_architectu.Domain.Ports.{Failure}
use testable_rust_architectu.Postgres.Outbox.{
  claim_pending_solana_outbox, complete_solana_outbox, fail_solana_outbox, save_attempt_blockhash,
}
use testable_rust_architectu.Postgres.Items.{
  create_item, update_blockchain_status, enqueue_solana_outbox_for_item,
  get_pending_blockchain_items, increment_retry_count,
}
use testable_rust_architectu.Domain.Status.{BlockchainStatus}
use testable_rust_architectu.Postgres.Invariant.{
  map-update_items_where, map-update_outbox_where, map-map_same,
}
use testable_rust_architectu.Postgres.Keeps.{
  holds_after, Call, call, calls, creates, reads, pages, updates, enqueues, touches, claims,
  increments, completes, fails, saves,
}

-- The columns that are written once: the id, the hash, the name, the description, the content, the
-- metadata and the time of creation.
abbrev pub content_of :
    ItemRow → String × String × String × Option String × String × Option String × Time
content_of r = (r.id, r.hash, r.name, r.description, r.content, r.metadata, r.created_at)

-- The id, the item, the payload and the time of creation.
abbrev pub request_of : OutboxRow → String × String × String × Time
request_of r = (r.id, r.aggregate_id, r.payload, r.created_at)

-- Newer elements stand in front.
abbrev pub Grown : {A : Type 0} → List A → List A → Type 0
Grown {A = A} old new = (added : List A) × (new ≡ added ++ old)

-- Rows may have been added, and those that were there have the columns that they had.
abbrev pub Extends : Tables → Tables → Type 0
Extends t t' =
    Grown (map content_of t.items) (map content_of t'.items)
    × Grown (map request_of t.outbox) (map request_of t'.outbox)

++-assoc : {A : Type 0} (xs ys zs : List A) → (xs ++ ys) ++ zs ≡ xs ++ (ys ++ zs)
++-assoc [] ys zs = refl
++-assoc (x ∷ xs) ys zs = ap (λ l. x ∷ l) (++-assoc xs ys zs)

Grown-trans : {A : Type 0} {xs ys zs : List A} → Grown xs ys → Grown ys zs → Grown xs zs
Grown-trans {xs = xs} (first, p) (then', q) =
    (then' ++ first, q ∙ (ap (λ l. then' ++ l) p ∙ sym (++-assoc then' first xs)))

pub Extends-refl : (t : Tables) → Extends t t
Extends-refl t = (([], refl), ([], refl))

pub Extends-trans : (t t' t'' : Tables) → Extends t t' → Extends t' t'' → Extends t t''
Extends-trans t t' t'' (i, o) (i', o') = (Grown-trans i i', Grown-trans o o')

abbrev Extending : {E A : Type 0} → (World → Result E A × World) → Type 0
Extending m = (w : World) → Extends w.tables (m w).1.tables

module _ (env : Env) where
  -- An update of rows that leaves these columns alone.
  by_update :
      {E A : Type 0} (m : World → Result E A × World) (w : World) (after : Tables)
      → AllOrNothing w.tables after (m w)
      → map content_of after.items ≡ map content_of w.tables.items
      → map request_of after.outbox ≡ map request_of w.tables.outbox
      → Extends w.tables (m w).1.tables
  by_update m w after effect items outbox =
      holds_after (Extends w.tables) w.tables after (m w) effect (Extends-refl w.tables)
        (([], items), ([], outbox))

  fail-Extending : (o i : String) (f : Failure) → Extending (fail_solana_outbox env o i f)
  fail-Extending o i f w =
      by_update (fail_solana_outbox env o i f) w _ (fail_effect env w o i f)
        (map-update_items_where content_of i _ w.tables.items (λ r. refl))
        (map-update_outbox_where request_of o _ w.tables.outbox (λ r. refl))

  complete-Extending : (o i s : String) → Extending (complete_solana_outbox env o i s)
  complete-Extending o i s w =
      by_update (complete_solana_outbox env o i s) w _ (complete_effect env w o i s)
        (map-update_items_where content_of i _ w.tables.items (λ r. refl))
        (map-update_outbox_where request_of o _ w.tables.outbox (λ r. refl))

  save-Extending : (o : String) (h : Option String) → Extending (save_attempt_blockhash env o h)
  save-Extending o h w =
      by_update (save_attempt_blockhash env o h) w _ (save_effect env w o h) refl
        (map-update_outbox_where request_of o _ w.tables.outbox (λ r. refl))

  update_status-Extending :
      (id : String) (status : BlockchainStatus) (signature error : Option String) (at : Option Time)
      → Extending (update_blockchain_status env id status signature error at)
  update_status-Extending id status signature error at w =
      by_update (update_blockchain_status env id status signature error at) w _
        (update_status_effect env w id status signature error at)
        (map-update_items_where content_of id _ w.tables.items (λ r. refl)) refl

  increment-Extending : (id : String) → Extending (increment_retry_count env id)
  increment-Extending id w =
      by_update (increment_retry_count env id) w _ (increment_effect env w id)
        (map-update_items_where content_of id _ w.tables.items (λ r. refl)) refl

  touch-Extending : (limit : ℕ) → Extending (get_pending_blockchain_items env limit)
  touch-Extending limit w =
      by_update (get_pending_blockchain_items env limit) w _ (touch_effect env w limit)
        (map-map_same content_of _ w.tables.items (λ r. ground arith)) refl

  claim-Extending : (limit : ℕ) → Extending (claim_pending_solana_outbox env limit)
  claim-Extending limit w =
      by_update (claim_pending_solana_outbox env limit) w _ (claim_effect env w limit) refl
        (map-map_same request_of _ w.tables.outbox (λ r. ground arith))

  enqueue-Extending :
      (id : String) (payload : SolanaOutboxPayload)
      → Extending (enqueue_solana_outbox_for_item env id payload)
  enqueue-Extending id payload w = elim (enqueue_effect env w id payload) [
    | inr (_, same) ↦ subst (Extends w.tables) (sym same) (Extends-refl w.tables)
    | inl (e, free, known) ↦ subst (Extends w.tables) (sym e) (
      ([], map-update_items_where content_of id _ w.tables.items (λ r. refl)),
      (request_of (new_entry env w id payload) ∷ [], refl),
    )
  ]

  create-Extending : (request : CreateItemRequest) → Extending (create_item env request)
  create-Extending request w = elim (create_item_atomic env request w) [
    | inr (_, same) ↦ subst (Extends w.tables) (sym same) (Extends-refl w.tables)
    | inl (r, o, items, outbox, new, free, pair) ↦ (
      (content_of r ∷ [], ap (map content_of) items),
      (request_of o ∷ [], ap (map request_of) outbox),
    )
  ]

pub call-Extends : (env : Env) (k : Call) (w : World) → Extends w.tables (call env k w).tables
call-Extends env (creates r) w = create-Extending env r w
call-Extends env (reads id) w =
    subst (Extends w.tables) (sym (get_item_same env w id)) (Extends-refl w.tables)
call-Extends env (pages l c) w =
    subst (Extends w.tables) (sym (list_items_same env w l c)) (Extends-refl w.tables)
call-Extends env (updates id s g e at) w = update_status-Extending env id s g e at w
call-Extends env (enqueues id p) w = enqueue-Extending env id p w
call-Extends env (touches n) w = touch-Extending env n w
call-Extends env (claims n) w = claim-Extending env n w
call-Extends env (increments id) w = increment-Extending env id w
call-Extends env (completes o i s) w = complete-Extending env o i s w
call-Extends env (fails o i f) w = fail-Extending env o i f w
call-Extends env (saves o h) w = save-Extending env o h w

-- Any sequence of calls of the repositories, whatever faults occur, removes no row and keeps of
-- each item its hash, its content and its metadata, and of each outbox entry its item and its
-- payload; rows are only added, in front.
pub calls-Extend :
    (env : Env) (cs : List Call) (w : World) → Extends w.tables (calls env cs w).tables
calls-Extend env [] w = Extends-refl w.tables
calls-Extend env (k ∷ ks) w =
    Extends-trans w.tables _ _ (call-Extends env k w) (calls-Extend env ks (call env k w))
