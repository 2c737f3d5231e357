-- ===== src/Postgres/ReadBack.antt =====
-- infra/database/postgres.rs: an item that was created is read back as it was returned, with its
-- times cut to microseconds.
use testable_rust_architectu.Base.{
  ℕ, String, ◌≡◌, refl, sym, ap, subst, ◌∙◌, Option, none, some, List, [], ◌∷◌, ◌+◌, ◌-◌, ◌%◌,
  concat, inl, inr, arith, str_eq_refl, Option-cases,
}
use testable_rust_architectu.Base.Effects.{
  ok_injective, Result, ok, err, pure, Result-cases, >>=-cases,
}
use testable_rust_architectu.Domain.Errors.{ItemError}
use testable_rust_architectu.Domain.Status.{blockchain_status_as_str, blockchain_status_from_str}
use testable_rust_architectu.Domain.Items.{Item, ItemMetadataRequest, CreateItemRequest, Time}
use testable_rust_architectu.Domain.Hash.{build_solana_outbox_payload_from_request}
use testable_rust_architectu.World.{World, Env, ItemRow, OutboxRow, bump}
use testable_rust_architectu.Postgres.Rows.{decode_metadata, row_to_item}
use testable_rust_architectu.Postgres.Items.{
  get_item, create_item, store, insert_pair, encode_metadata, metadata_of, new_item, new_item_row,
  new_outbox_row,
}
use testable_rust_architectu.Postgres.Atomicity.{insert_pair_atomic}

-- Metadata that was encoded is decoded as it was.
abbrev pub Decodes : Env → Type 0
Decodes env =
    (m : ItemMetadataRequest) (v : String)
    → env.metadata_to_value m ≡ some v
    → env.metadata_from_value v ≡ metadata_of (some m)

-- A number of nanoseconds, in whole microseconds.
abbrev pub whole_micros : Time → Time
whole_micros t = t - t % 1000

-- Columns keep microseconds of a reading of the clock.
abbrev pub CutsTimes : Env → Type 0
CutsTimes env = (n : ℕ) → env.utc_now n ≡ whole_micros (env.utc_exact n)

abbrev pub cut_times : Item → Item
cut_times i = record i {
  created_at = whole_micros i.created_at;
  updated_at = whole_micros i.updated_at;
}

-- If an item was returned, and the next call of the database succeeds, the item is found.
abbrev pub IsReadBack : Env → Result ItemError Item × World → Type 0
IsReadBack env (ok i, w) =
    env.fault w.ticks ≡ none → get_item env i.id w ≡ (ok (some (cut_times i)), bump w)
IsReadBack env (err e, w) = Unit

encoded :
    (env : Env)
    → Decodes env
    → (o : Option ItemMetadataRequest) (m : Option String) → encode_metadata env o ≡ ok m
    → decode_metadata env m ≡ metadata_of o
encoded env law none m h = ap (decode_metadata env) (sym (ok_injective h))
encoded env law (some x) m h = elim (Option-cases (env.metadata_to_value x)) [
  | inl e ↦ absurd (ground (arith, e, h))
  | inr (v, e) ↦
      let shape : encode_metadata env (some x) ≡ ok (some v) = rw (e, encode_metadata) refl in
      ap (decode_metadata env) (sym (ok_injective (sym shape ∙ h))) ∙ law x v e
]

read_head :
    (env : Env) (id hash : String) (request : CreateItemRequest) (metadata : Option String)
    (at : Time) (rest : List ItemRow) (outbox : List OutboxRow) (n : ℕ)
    → decode_metadata env metadata ≡ metadata_of request.metadata
    → env.fault n ≡ none
    → get_item env id (record {
      tables = record { items = new_item_row id hash request metadata at ∷ rest; outbox = outbox };
      ticks = n;
    })
      ≡ (
        ok (some (new_item id hash request at)),
        bump (record {
          tables = record {
            items = new_item_row id hash request metadata at ∷ rest;
            outbox = outbox;
          };
          ticks = n;
        }),
      )
unfolding get_item row_to_item blockchain_status_as_str blockchain_status_from_str
read_head env id hash request metadata at rest outbox n decoded calm =
    ground (arith, calm, str_eq_refl id, decoded)

read_stored :
    (env : Env) (id hash : String) (request : CreateItemRequest) (metadata : Option String)
    (at exact : Time) (rest : List ItemRow) (outbox : List OutboxRow) (w : World)
    → at ≡ whole_micros exact
    → w.tables ≡ record { items = new_item_row id hash request metadata at ∷ rest; outbox = outbox }
    → decode_metadata env metadata ≡ metadata_of request.metadata
    → IsReadBack env (ok (new_item id hash request exact), w)
read_stored env id hash request metadata at exact rest outbox w cut stored decoded quiet =
    let w0 : World = record {
      tables = record { items = new_item_row id hash request metadata at ∷ rest; outbox = outbox };
      ticks = w.ticks;
    } in
    let same : record {
      tables = record { items = new_item_row id hash request metadata at ∷ rest; outbox = outbox };
      ticks = w.ticks;
    }
        ≡ w =
      λ i. record { tables = sym stored i; ticks = w.ticks } in
    subst
      (λ (x : World).
        get_item env id x ≡ (ok (some (cut_times (new_item id hash request exact))), bump x))
      same
      (subst (λ t. get_item env id w0 ≡ (ok (some (new_item id hash request t)), bump w0)) cut
        (read_head env id hash request metadata at rest outbox w.ticks decoded quiet))

store-IsReadBack :
    (env : Env) (id hash outbox_id : String) (request : CreateItemRequest)
    (metadata : Option String) (at exact : Time) (w : World)
    → at ≡ whole_micros exact
    → decode_metadata env metadata ≡ metadata_of request.metadata
    → IsReadBack env (store env id hash outbox_id request metadata (at, exact) w)
unfolding store
store-IsReadBack env id hash outbox_id request metadata at exact w cut decoded =
    let row = new_item_row id hash request metadata at in
    let payload = build_solana_outbox_payload_from_request env.sha256 id request in
    let entry = new_outbox_row outbox_id id (env.payload_to_json payload) at in
    >>=-cases (λ p. IsReadBack env p) (insert_pair env row entry)
      (λ _. pure (new_item id hash request exact)) w (λ e failed. tt)
      (λ a passed. elim (insert_pair_atomic env row entry w) [
        | inl (started, stored, _, _, _) ↦
            read_stored env id hash request metadata at exact w.tables.items
              (entry started ∷ w.tables.outbox) (insert_pair env row entry w).1 cut stored decoded
        | inr (failed, same) ↦ absurd (ground (arith, passed, failed))
      ])

-- If the decoder of metadata undoes the encoder, and columns keep the whole microseconds of a
-- reading of the clock: an item that `create_item` returns is read back by its id as it was
-- returned, but for its two times, which are cut to whole microseconds, when the next call of the
-- database succeeds.
pub create_item-IsReadBack :
    (env : Env) (request : CreateItemRequest) (w : World)
    → Decodes env
    → CutsTimes env
    → IsReadBack env (create_item env request w)
unfolding create_item
create_item-IsReadBack env request w law cuts =
    elim (Result-cases (encode_metadata env request.metadata)) [
      | inl (e, h) ↦ rw (h, IsReadBack) tt
      | inr (m, h) ↦
          let decoded = encoded env law request.metadata m h in
          rw (h, IsReadBack)
            (store-IsReadBack env (concat ("item_" ∷ env.uuid w.ticks ∷ []))
              (concat ("hash_" ∷ env.uuid (w.ticks + 1) ∷ [])) (env.uuid (w.ticks + 1 + 1 + 1))
              request m (env.utc_now (w.ticks + 1 + 1)) (env.utc_exact (w.ticks + 1 + 1))
              (bump (bump (bump (bump w)))) (cuts (w.ticks + 1 + 1)) decoded)
    ]
