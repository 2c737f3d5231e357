-- ===== src/Postgres/Atomicity.antt =====
-- What `create_item` leaves behind on every path: the transactional outbox.
use testable_rust_architectu.Base.{
  String, ◌≡◌, refl, ap, ◌⊎◌, inl, inr, true, false, Option, none, ◌∷◌, arith,
}
use testable_rust_architectu.Base.Effects.{>>=-cases, is_err, Result, ok, ◌>>◌, pure, Result-cases}
use testable_rust_architectu.Domain.Status.{blockchain_status_as_str, outbox_status_as_str}
use testable_rust_architectu.Domain.Items.{CreateItemRequest, Time}
use testable_rust_architectu.Domain.Hash.{build_solana_outbox_payload_from_request}
use testable_rust_architectu.World.{Tables, ItemRow, OutboxRow, World, Env, bump}
use testable_rust_architectu.Postgres.Sql.{
  execute, insert_item, insert_outbox, has_item, has_outbox,
}
use testable_rust_architectu.Postgres.Items.{
  insert_pair, store, create_item, encode_metadata, new_item_row, new_outbox_row, new_item,
}
use testable_rust_architectu.Postgres.Rules.{transaction-cases, execute_twice-ok}

-- An item and the pending entry for it.
pub record IsPaired (env : Env) (request : CreateItemRequest) (r : ItemRow) (o : OutboxRow)
    : Type 0 where
  pub refers : o.aggregate_id ≡ r.id
  pub waits : o.status ≡ "pending"
  pub unsent : o.attempt_blockhash ≡ none
  pub attempts : o.retry_count ≡ 0
  pub queued : r.blockchain_status ≡ "pending_submission"
  pub name : r.name ≡ request.name
  pub description : r.description ≡ request.description
  pub content : r.content ≡ request.content
  pub memo :
      o.payload
      ≡ env.payload_to_json (build_solana_outbox_payload_from_request env.sha256 r.id request)

abbrev pub Created : Env → CreateItemRequest → Tables → Tables → Type 0
Created env request t t' =
    (r : ItemRow) × (o : OutboxRow) × (t'.items ≡ r ∷ t.items)
    × (t'.outbox ≡ o ∷ t.outbox)
    × (has_item r.id t.items ≡ false)
    × (has_outbox o.id t.outbox ≡ false)
    × IsPaired env request r o

abbrev pub IsErr : {E A : Type 0} → Result E A → Type 0
IsErr r = is_err r ≡ true

insert_item-ok :
    (r : ItemRow) (t : Tables) (u : Unit {0}) (t' : Tables)
    → insert_item r t ≡ ok (u, t')
    → (t' ≡ record t { items = r ∷ t.items }) × (has_item r.id t.items ≡ false)
unfolding insert_item
insert_item-ok r t u t' h = ground arith

pub insert_outbox-ok :
    (o : OutboxRow) (t : Tables) (u : Unit {0}) (t' : Tables)
    → insert_outbox o t ≡ ok (u, t')
    → (t' ≡ record t { outbox = o ∷ t.outbox })
      × (has_outbox o.id t.outbox ≡ false)
      × (has_item o.aggregate_id t.items ≡ true)
unfolding insert_outbox
insert_outbox-ok o t u t' h = ground arith

-- Both rows are in, and their keys were free.
abbrev pub Stored : ItemRow → (Time → OutboxRow) → Tables → Tables → Type 0
Stored row entry t t' =
    (at : Time) × (t' ≡ record { items = row ∷ t.items; outbox = entry at ∷ t.outbox })
    × (has_item row.id t.items ≡ false)
    × (has_outbox (entry at).id t.outbox ≡ false)
    × (has_item (entry at).aggregate_id (row ∷ t.items) ≡ true)

pub insert_pair_atomic :
    (env : Env) (row : ItemRow) (entry : Time → OutboxRow) (w : World)
    → let (r, w') = insert_pair env row entry w in
      Stored row entry w.tables w'.tables ⊎ (IsErr r × (w'.tables ≡ w.tables))
unfolding insert_pair
insert_pair_atomic env row entry w =
    transaction-cases env
      (λ p.
        let (r, w') = p in Stored row entry w.tables w'.tables ⊎ (IsErr r × (w'.tables ≡ w.tables)))
      (λ started. execute env (insert_item row) >> execute env (insert_outbox (entry started))) w
      (λ e w' same. inr (refl, same))
      (λ at u w' h.
        let (_, t, first, second) =
          execute_twice-ok env (insert_item row) (insert_outbox (entry at)) (bump w) w' u h in
        let (stored, free, known) = insert_outbox-ok (entry at) t u w'.tables second in
        let (before, new) = insert_item-ok row w.tables tt t first in
        let both : Stored row entry w.tables w'.tables =
          (at, ground arith, new, ground arith, ground arith) in
        (inl both, λ e. inl both))

pub store-Created :
    (env : Env) (id hash outbox_id : String) (request : CreateItemRequest)
    (metadata : Option String) (at exact : Time) (w : World)
    → let (r, w') = store env id hash outbox_id request metadata (at, exact) w in
      Created env request w.tables w'.tables ⊎ (IsErr r × (w'.tables ≡ w.tables))
unfolding store blockchain_status_as_str outbox_status_as_str
store-Created env id hash outbox_id request metadata at exact w =
    let row = new_item_row id hash request metadata at in
    let payload = build_solana_outbox_payload_from_request env.sha256 id request in
    let entry = new_outbox_row outbox_id id (env.payload_to_json payload) at in
    let paired : (started : Time) → IsPaired env request row (entry started) = λ started. record {
      refers = refl;
      waits = refl;
      unsent = refl;
      attempts = refl;
      queued = refl;
      name = refl;
      description = refl;
      content = refl;
      memo = refl;
    } in
    >>=-cases
      (λ p.
        let (r, w') = p in
        Created env request w.tables w'.tables ⊎ (IsErr r × (w'.tables ≡ w.tables)))
      (insert_pair env row entry) (λ _. pure (new_item id hash request exact)) w
      (λ e failed. elim (insert_pair_atomic env row entry w) [
        | inl (started, stored, new, free, _) ↦ inl (
          row,
          entry started,
          ap (λ t. t.items) stored,
          ap (λ t. t.outbox) stored,
          new,
          free,
          paired started,
        )
        | inr (_, same) ↦ inr (refl, same)
      ])
      (λ a passed. elim (insert_pair_atomic env row entry w) [
        | inl (started, stored, new, free, _) ↦ inl (
          row,
          entry started,
          ap (λ t. t.items) stored,
          ap (λ t. t.outbox) stored,
          new,
          free,
          paired started,
        )
        | inr (failed, same) ↦ absurd (ground (arith, passed))
      ])

-- Creating an item stores it under an id that was free, with the name, the description and the
-- content of the request, together with one pending outbox entry for it whose payload is the hash
-- of the request, or it changes no table and returns an error, whatever faults of the database
-- occur.
pub create_item_atomic :
    (env : Env) (request : CreateItemRequest) (w : World)
    → let (r, w') = create_item env request w in
      Created env request w.tables w'.tables ⊎ (IsErr r × (w'.tables ≡ w.tables))
unfolding create_item
create_item_atomic env request w = elim (Result-cases (encode_metadata env request.metadata)) [
  | inl (e, h) ↦ rw h (inr (refl, refl))
  | inr (m, h) ↦ rw h (store-Created env _ _ _ request m _ _ _)
]
