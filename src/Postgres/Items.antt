-- ===== src/Postgres/Items.antt =====
-- infra/database/postgres.rs: `impl ItemRepository for PostgresClient`.
mod Queries
pub use Queries.*
use testable_rust_architectu.Base.{
  ℕ, ◌+◌, String, Bool, true, false, ◌&&◌, ◌||◌, not, Option, none, some, List, [], ◌∷◌, map,
  concat, if◌then◌else◌, str_eq, ltb, leb, ◌==◌, find?, keep, take, length, last?, any,
}
use testable_rust_architectu.Base.Int.{ℤ, pos, pos_part, clamp}
use testable_rust_architectu.Base.Effects.{
  Action, Result, ok, err, pure, lift, ok_or, map_err, ◌>>=◌, ◌>>◌,
}
use testable_rust_architectu.Domain.Errors.{
  ItemError, invalid_state, repository_failure, HealthCheckError, database_unavailable,
}
use testable_rust_architectu.Domain.Status.{
  BlockchainStatus, pending_submission, OutboxStatus, blockchain_status_as_str,
  outbox_status_as_str,
}
use testable_rust_architectu.Domain.Items.{
  Time, Item, ItemMetadata, ItemMetadataRequest, CreateItemRequest, PaginatedResponse,
  SolanaOutboxPayload,
}
use testable_rust_architectu.Domain.Hash.{build_solana_outbox_payload_from_request}
use testable_rust_architectu.World.{
  row_not_found, database, Tables, ItemRow, OutboxRow, World, Env, now, now_exact, new_uuid,
}
use testable_rust_architectu.Postgres.Sql.{
  Statement, execute, execute_now, transaction, insert_item, insert_outbox, update_items_where,
}
use testable_rust_architectu.Postgres.Rows.{row_to_item, collect}
use testable_rust_architectu.Postgres.Sorting.{sort}

module _ (env : Env) where
  unfoldable pub health_check : Action World HealthCheckError (Unit {0})
  health_check = map_err (λ (e : ItemError). database_unavailable) (execute env nothing)

  unfoldable pub get_item : String → Action World ItemError (Option Item)
  unfolding row_to_item
  get_item id = do
    row ← execute env (select_item id)
    elim row [ none ↦ pure none | some r ↦ do item ← lift (row_to_item env r); pure (some item) ]

  -- The transaction of `create_item`.
  unfoldable pub insert_pair : ItemRow → (Time → OutboxRow) → Action World ItemError (Unit {0})
  unfolding insert_item insert_outbox
  insert_pair row entry =
      transaction env
        λ started. do execute env (insert_item row); execute env (insert_outbox (entry started))

  -- `create_item` with its identifiers, its clock reading and its encoded metadata at hand. The row
  -- has the reading as columns keep it, the item that is returned has it in full.
  unfoldable pub store :
      String
      → String
      → String
      → CreateItemRequest
      → Option String
      → Time × Time
      → Action World ItemError Item
  unfolding insert_pair build_solana_outbox_payload_from_request
  store id hash outbox_id request metadata (at, exact) = do
    let payload = build_solana_outbox_payload_from_request env.sha256 id request
    insert_pair (new_item_row id hash request metadata at)
        (new_outbox_row outbox_id id (env.payload_to_json payload) at)
    pure (new_item id hash request exact)

  unfoldable pub create_item : CreateItemRequest → Action World ItemError Item
  unfolding store
  create_item request = do
    id_uuid ← new_uuid env
    hash_uuid ← new_uuid env
    at ← now_exact env
    outbox_id ← new_uuid env
    metadata ← lift (encode_metadata env request.metadata)
    store (concat ("item_" ∷ id_uuid ∷ [])) (concat ("hash_" ∷ hash_uuid ∷ [])) outbox_id request
        metadata at

  -- The position of the cursor, by a query of its own.
  abbrev cursor_position : Option String → Action World ItemError (Option (Time × String))
  cursor_position none = pure none
  cursor_position (some c) = do
    row ← execute env (select_item c)
    r ← ok_or row (invalid_state "Invalid cursor")
    pure (some (r.created_at, c))

  -- The page of at most `limit` items out of one row more than that.
  abbrev pub page : ℕ → List ItemRow → Result ItemError (PaginatedResponse Item)
  page limit rows =
      let has_more = ltb limit (length rows) in
      elim (collect (row_to_item env) (take limit rows)) [
        | err e ↦ err e
        | ok items ↦ ok (record {
          items = items;
          next_cursor =
              if has_more then elim (last? items) [ none ↦ none | some i ↦ some i.id ] else none;
          has_more = has_more;
        })
      ]

  unfoldable pub list_items : ℤ → Option String → Action World ItemError (PaginatedResponse Item)
  unfolding row_to_item sort
  list_items requested cursor = do
    let limit = pos_part (clamp requested (pos 1) (pos 100))
    position ← cursor_position cursor
    rows ← execute env (select_page env position (limit + 1))
    lift (page limit rows)

  unfoldable pub update_blockchain_status :
      String
      → BlockchainStatus
      → Option String
      → Option String
      → Option Time
      → Action World ItemError (Unit {0})
  update_blockchain_status id status signature error next_retry_at = do
    at ← now env
    execute env λ t. ok (
      tt,
      record t {
        items =
            update_items_where id
              (λ r. record r {
                blockchain_status = blockchain_status_as_str status;
                blockchain_signature = coalesce signature r.blockchain_signature;
                blockchain_last_error = error;
                blockchain_next_retry_at = next_retry_at;
                updated_at = at;
              })
              t.items;
      },
    )

  unfoldable pub enqueue_solana_outbox_for_item :
      String → SolanaOutboxPayload → Action World ItemError Item
  unfolding insert_outbox row_to_item
  enqueue_solana_outbox_for_item item_id payload = do
    at ← now env
    outbox_id ← new_uuid env
    row ← transaction env λ started. do
      execute env (
          insert_outbox (new_outbox_row outbox_id item_id (env.payload_to_json payload) at started))
      execute env (returning_item item_id (requeued at))
    lift (row_to_item env row)

  unfoldable pub get_pending_blockchain_items : ℕ → Action World ItemError (List Item)
  unfolding touch_pending_items row_to_item
  get_pending_blockchain_items limit = do
    at ← now env
    rows ← λ w. execute env (touch_pending_items env w.ticks at limit) w
    lift (collect (row_to_item env) rows)

  unfoldable pub increment_retry_count : String → Action World ItemError ℕ
  unfolding increment
  increment_retry_count id = execute_now env (increment id)
