-- ===== src/Service/Requests.antt =====
-- app/service.rs: the requests of a client, over any repository and over PostgreSQL.
use testable_rust_architectu.Base.{
  ◌+◌, String, ◌≡◌, refl, sym, ap, subst, ◌∙◌, ◌⊎◌, inl, inr, Option, none, some, List, arith,
}
use testable_rust_architectu.Base.Effects.{
  Result, ok, err, map_err, Result-cases, ok_or, ◌>>=◌, >>=-cases,
}
use testable_rust_architectu.Domain.Errors.{ItemError, ValidationError, not_found}
use testable_rust_architectu.Domain.Status.{BlockchainStatus}
use testable_rust_architectu.Domain.Items.{Item, CreateItemRequest, Time}
use testable_rust_architectu.Domain.Validation.{validate, validate_iff, IsAcceptable, FieldError}
use testable_rust_architectu.Domain.Hash.{build_solana_outbox_payload_from_item}
use testable_rust_architectu.Domain.Ports.{BlockchainClient}
use testable_rust_architectu.World.{World, Env, bump}
use testable_rust_architectu.Postgres.Client.{postgres_items, postgres_outbox}
use testable_rust_architectu.Postgres.Items
use testable_rust_architectu.Postgres.Effects.{enqueue_effect, enqueued_tables, get_item_same}
use testable_rust_architectu.Service.Expected.{tables_of_retry, enqueued-expected}
use testable_rust_architectu.Service.{
  AppService, CreateItemError, validation, create_and_submit_item, retry_item,
  retry_blockchain_submission,
}

-- The service over the PostgreSQL adapter.
abbrev pub postgres_app :
    Env → BlockchainClient World → (List FieldError → String) → AppService World
postgres_app env client show = record {
  item_repo = postgres_items env;
  outbox_repo = postgres_outbox env;
  blockchain_client = client;
  utc_now = λ w. (env.utc_now w.ticks, bump w);
  sha256 = env.sha256;
  show_field_errors = show;
  version = env.version;
}

-- An acceptable request is handed to the repository, and the outcome is the repository's; any
-- other request is answered with a validation error before the repository is called.
pub create_validated :
    {S : Type 0} (app : AppService S) (r : CreateItemRequest) (s : S)
    → (IsAcceptable r
        × (create_and_submit_item app r s
            ≡ map_err CreateItemError.item (app.item_repo.create_item r) s))
      ⊎ (¬ IsAcceptable r
          × ((e : ValidationError) × (create_and_submit_item app r s ≡ (err (validation e), s))))
unfolding create_and_submit_item
create_validated app r s = elim (Result-cases (validate r)) [
  | inl (e, x) ↦ inr (λ h. let v = sym ((validate_iff r).1 h) ∙ x in cc, rw x (_, refl))
  | inr (u, x) ↦ inl ((validate_iff r).0 x, rw x refl)
]

-- From `w` and the outcome of reading the item, the tables are as they were, or the item had failed
-- and it is queued again with one new outbox entry, for the payload that it gives as it was read.
abbrev pub RetryEffect : Env → World → Result ItemError (Option Item) × World → World → Type 0
RetryEffect env w (found, w1) w' =
    (w'.tables ≡ w.tables)
    ⊎ ((i : Item) × (found ≡ ok (some i))
        × (i.blockchain_status ≡ BlockchainStatus.failed)
        × ((outbox_id : String) × (at clock : Time) × (w'.tables
              ≡ tables_of_retry outbox_id i.id
                  (env.payload_to_json (build_solana_outbox_payload_from_item env.sha256 i)) at
                  clock w.tables)))

retry_item_effect :
    (env : Env) (client : BlockchainClient World) (show : List FieldError → String) (i : Item)
    (w : World)
    → let (r, w') = retry_item (postgres_app env client show) i w in
      (w'.tables ≡ w.tables)
      ⊎ ((i.blockchain_status ≡ BlockchainStatus.failed)
          × (w'.tables
              ≡ enqueued_tables env w i.id (build_solana_outbox_payload_from_item env.sha256 i)))
unfolding retry_item
retry_item_effect env client show i w =
    let effect = enqueue_effect env w i.id (build_solana_outbox_payload_from_item env.sha256 i) in
    ground (arith, effect)

retry_found_effect :
    (env : Env) (client : BlockchainClient World) (show : List FieldError → String) (id : String)
    (found : Option Item) (w w1 : World)
    → w1.tables ≡ w.tables
    → RetryEffect env w
        (ok found, w1)
        ((ok_or found (not_found id) >>= retry_item (postgres_app env client show)) w1).1
retry_found_effect env client show id none w w1 same = inl same
retry_found_effect env client show id (some i) w w1 same =
    elim (retry_item_effect env client show i w1) [
      | inl t ↦ inl (t ∙ same)
      | inr (f, t) ↦
          let payload = build_solana_outbox_payload_from_item env.sha256 i in
          inr (
            i,
            refl,
            f,
            (
              _,
              _,
              _,
              t
                  ∙ (enqueued-expected env w1 i.id payload
                      ∙ ap
                          (tables_of_retry (env.uuid (w1.ticks + 1)) i.id
                            (env.payload_to_json payload) (env.utc_now w1.ticks)
                            (env.db_now (w1.ticks + 1 + 1)))
                          same),
            ),
          )
    ]

-- Whatever becomes of a manual retry over PostgreSQL, the tables are as they were, or the item
-- was read as failed, and it is pending submission again with no error, no next time and a count
-- of 0; one new entry is added: pending, with no blockhash, no next time, a count of 0, and the
-- payload that the item gives as it was read. Nothing else has changed.
pub retry_effect :
    (env : Env) (client : BlockchainClient World) (show : List FieldError → String) (id : String)
    (w : World)
    → RetryEffect env w
        (Items.get_item env id w)
        (retry_blockchain_submission (postgres_app env client show) id w).1
unfolding retry_blockchain_submission
retry_effect env client show id w =
    let (found, w1) = Items.get_item env id w in
    let same = get_item_same env w id in
    >>=-cases (λ p. RetryEffect env w (found, w1) p.1) (Items.get_item env id)
      (λ o. ok_or o (not_found id) >>= retry_item (postgres_app env client show)) w
      (λ e x. inl same)
      (λ o x.
        subst
          (λ r.
            RetryEffect env w (r, w1)
              ((ok_or o (not_found id) >>= retry_item (postgres_app env client show)) w1).1)
          (sym x) (retry_found_effect env client show id o w w1 same))
