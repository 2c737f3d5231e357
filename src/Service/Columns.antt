-- ===== src/Service/Columns.antt =====
-- migrations/: the lengths of the columns, which the statements of the model do not check, and
-- infra/database/postgres.rs: what is stored for requests stays within them.
use Prim.Native.String.{count}
use text.Mathlib.TextLemmas.{length-append}
use testable_rust_architectu.Base.{
  ℕ, ◌≤◌, String, sym, subst, inl, inr, Option, List, [], ◌∷◌, All, arith, concat,
}
use testable_rust_architectu.Base.Effects.{Result, ok, err, lift, pure, ◌>>=◌, >>=-cases}
use testable_rust_architectu.Domain.Errors.{ItemError}
use testable_rust_architectu.Domain.Status.{blockchain_status_as_str}
use testable_rust_architectu.Domain.Items.{Time, Item, CreateItemRequest}
use testable_rust_architectu.Domain.Validation.{HasAtMost, FieldError}
use testable_rust_architectu.Domain.Ports.{BlockchainClient}
use testable_rust_architectu.World.{World, Env, ItemRow, OutboxRow, Tables, bump}
use testable_rust_architectu.Postgres.Items.{
  new_item_row, new_outbox_row, new_item, insert_pair, store, create_item, encode_metadata,
}
use testable_rust_architectu.Domain.Hash.{build_solana_outbox_payload_from_request}
use testable_rust_architectu.Postgres.Atomicity.{insert_pair_atomic}
use testable_rust_architectu.Service.{CreateItemError, create_and_submit_item}
use testable_rust_architectu.Service.Requests.{postgres_app, create_validated}

-- The `VARCHAR` columns of a row of `items`.
pub record Fits (r : ItemRow) : Type 0 where
  pub id_fits : count r.id ≤ 255
  pub hash_fits : count r.hash ≤ 255
  pub name_fits : count r.name ≤ 255
  pub status_fits : count r.blockchain_status ≤ 50
  pub signature_fits : HasAtMost 255 r.blockchain_signature

new_row-Fits :
    (id hash : String) (request : CreateItemRequest) (metadata : Option String) (at : Time)
    → count id ≤ 255
    → count hash ≤ 255
    → count request.name ≤ 255
    → Fits (new_item_row id hash request metadata at)
unfolding blockchain_status_as_str
new_row-Fits id hash request metadata at i h n = record {
  id_fits = i;
  hash_fits = h;
  name_fits = n;
  status_fits = omega arith;
  signature_fits = tt;
}

module _ (env : Env) where
  abbrev Fitting : {E A : Type 0} → Result E A × World → Type 0
  Fitting p = All Fits p.1.tables.items

  pair-Fits :
      (row : ItemRow) (entry : Time → OutboxRow) (w : World)
      → Fits row
      → All Fits w.tables.items
      → Fitting (insert_pair env row entry w)
  pair-Fits row entry w new old = elim (insert_pair_atomic env row entry w) [
    | inl (at, stored, _, _, _) ↦ subst (λ (t : Tables). All Fits t.items) (sym stored) (new, old)
    | inr (_, same) ↦ subst (λ (t : Tables). All Fits t.items) (sym same) old
  ]

  store-Fits :
      (id hash outbox_id : String) (request : CreateItemRequest) (metadata : Option String)
      (at exact : Time) (w : World)
      → Fits (new_item_row id hash request metadata at)
      → All Fits w.tables.items
      → Fitting (store env id hash outbox_id request metadata (at, exact) w)
  unfolding store
  store-Fits id hash outbox_id request metadata at exact w new old =
      let payload =
        env.payload_to_json (build_solana_outbox_payload_from_request env.sha256 id request) in
      let row = new_item_row id hash request metadata at in
      let entry = new_outbox_row outbox_id id payload at in
      let kept = pair-Fits row entry w new old in
      >>=-cases Fitting (insert_pair env row entry) (λ _. pure (new_item id hash request exact)) w
        (λ e failed. kept) (λ a passed. kept)

  -- With the metadata encoded, or refused by the encoder.
  encoded-Fits :
      (id hash outbox_id : String) (request : CreateItemRequest) (at exact : Time)
      (metadata : Result ItemError (Option String)) (w : World)
      → ((m : Option String) → Fits (new_item_row id hash request m at))
      → All Fits w.tables.items
      → Fitting ((lift metadata >>= λ m. store env id hash outbox_id request m (at, exact)) w)
  encoded-Fits id hash outbox_id request at exact (ok m) w new old =
      store-Fits id hash outbox_id request m at exact w (new m) old
  encoded-Fits id hash outbox_id request at exact (err e) w new old = old

  create_item-Fits :
      (request : CreateItemRequest) (w : World)
      → ((n : ℕ) → count (env.uuid n) ≤ 250)
      → count request.name ≤ 255
      → All Fits w.tables.items
      → Fitting (create_item env request w)
  unfolding create_item
  create_item-Fits request w short name old =
      let id = concat ("item_" ∷ env.uuid w.ticks ∷ []) in
      let hash = concat ("hash_" ∷ env.uuid (bump w).ticks ∷ []) in
      let id_fits : count id ≤ 255 =
        omega (arith, length-append "item_" (env.uuid w.ticks), short w.ticks) in
      let hash_fits : count hash ≤ 255 =
        omega (arith, length-append "hash_" (env.uuid (bump w).ticks), short (bump w).ticks) in
      encoded-Fits id hash _ request _ _ (encode_metadata env request.metadata) _
        (λ m. new_row-Fits id hash request m _ id_fits hash_fits name) old

-- Whatever request a client sends, accepted or not, and whatever faults the database has: if the
-- rows of items fit the columns of the table, they still do after the request, where the text of a
-- UUID has at most 250 characters.
pub create-Fits :
    (env : Env) (client : BlockchainClient World) (show : List FieldError → String)
    (request : CreateItemRequest) (w : World)
    → ((n : ℕ) → count (env.uuid n) ≤ 250)
    → All Fits w.tables.items
    → All Fits (create_and_submit_item (postgres_app env client show) request w).1.tables.items
create-Fits env client show request w short old =
    elim (create_validated (postgres_app env client show) request w) [
      | inl (acceptable, answer) ↦
          subst (λ (p : Result CreateItemError Item × World). All Fits p.1.tables.items)
            (sym answer) (create_item-Fits env request w short acceptable.name_bounds.1 old)
      | inr (_, (e, answer)) ↦
          subst (λ (p : Result CreateItemError Item × World). All Fits p.1.tables.items)
            (sym answer) old
    ]
