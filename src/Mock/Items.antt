-- ===== src/Mock/Items.antt =====
-- test_utils/mocks.rs: `impl ItemRepository for MockProvider`.
use testable_rust_architectu.Base.{
  ℕ, ◌+◌, String, Bool, false, ◌&&◌, Option, none, some, List, [], ◌∷◌, concat, if◌then◌else◌,
  str_eq, ltb, keep, take, length, last?,
}
use testable_rust_architectu.Base.Int.{ℤ, pos, pos_part, clamp}
use testable_rust_architectu.Base.Effects.{
  Action, Result, ok, err, pure, raise, gets, lift, ok_or, modify, ◌>>=◌, ◌>>◌,
}
use testable_rust_architectu.Domain.Errors.{ItemError, not_found, invalid_state}
use testable_rust_architectu.Domain.Status.{BlockchainStatus, pending_submission, OutboxStatus}
use testable_rust_architectu.Domain.Items.{
  Time, Item, CreateItemRequest, PaginatedResponse, SolanaOutboxEntry, SolanaOutboxPayload,
}
use testable_rust_architectu.Domain.Hash.{build_solana_outbox_payload_from_request}
use testable_rust_architectu.Domain.Ports.{ItemRepository, update_item_default, delete_item_default}
use testable_rust_architectu.Postgres.Sorting.{sort}
use testable_rust_architectu.Postgres.Items.{new_item, coalesce, due}
use testable_rust_architectu.Mock.Store.{
  MockConfig, MockEnv, MockStore, get, update_at, insert_at, values, read_clock, fresh_uuid,
  check_should_fail, provider_health_check,
}

-- An entry that waits for its first attempt.
abbrev pub new_entry : String → String → SolanaOutboxPayload → Time → SolanaOutboxEntry
new_entry id item_id payload at = record {
  id = id;
  aggregate_id = item_id;
  payload = payload;
  status = OutboxStatus.pending;
  retry_count = 0;
  attempt_blockhash = none;
  created_at = at;
}

abbrev pub requeued_item : Time → Item → Item
requeued_item at i = record i {
  blockchain_status = pending_submission;
  blockchain_last_error = none;
  blockchain_next_retry_at = none;
  blockchain_retry_count = 0;
  updated_at = at;
}

abbrev pub updated_item :
    BlockchainStatus → Option String → Option String → Option Time → Time → Item → Item
updated_item status signature error next_retry_at at i = record i {
  blockchain_status = status;
  blockchain_signature = coalesce signature i.blockchain_signature;
  blockchain_last_error = error;
  blockchain_next_retry_at = next_retry_at;
  updated_at = at;
}

-- `iter().position` of the cursor, and what `skip` leaves after it.
abbrev pub after_position : String → List Item → Option (List Item)
after_position c [] = none
after_position c (i ∷ is) = if str_eq i.id c then some is else after_position c is

abbrev from_cursor : Option String → List Item → Result ItemError (List Item)
from_cursor none is = ok is
from_cursor (some c) is = elim (after_position c is) [
  | none ↦ err (invalid_state "Invalid cursor")
  | some rest ↦ ok rest
]

abbrev page_of : ℕ → List Item → PaginatedResponse Item
page_of limit rest =
    let has_more = ltb limit (length rest) in
    let shown = take limit rest in
    record {
      items = shown;
      next_cursor =
          if has_more then elim (last? shown) [ none ↦ none | some i ↦ some i.id ] else none;
      has_more = has_more;
    }

abbrev is_due_item : Time → Item → Bool
is_due_item at i = elim i.blockchain_status [
  | pending_submission ↦ ltb i.blockchain_retry_count 10 && due i.blockchain_next_retry_at at
  | _ ↦ false
]

module _ (env : MockEnv) (config : MockConfig) where
  unfoldable pub get_item : String → Action MockStore ItemError (Option Item)
  get_item id = do lift (check_should_fail config); gets (λ s. get id s.storage)

  unfoldable pub create_item : CreateItemRequest → Action MockStore ItemError Item
  unfolding build_solana_outbox_payload_from_request
  create_item request = do
    lift (check_should_fail config)
    item_uuid ← fresh_uuid env
    let id = concat ("item_" ∷ item_uuid ∷ [])
    at ← read_clock env
    let item = new_item id (concat ("hash_" ∷ id ∷ [])) request at
    outbox_id ← fresh_uuid env
    let entry =
        new_entry outbox_id id (build_solana_outbox_payload_from_request env.sha256 id request) at
    modify (λ s. record s {
      storage = insert_at id item s.storage;
      outbox = insert_at outbox_id entry s.outbox;
    })
    pure item

  unfoldable pub list_items :
      ℤ → Option String → Action MockStore ItemError (PaginatedResponse Item)
  unfolding sort
  list_items requested cursor = do
    lift (check_should_fail config)
    items ←
        gets (λ s. sort (λ a b. ltb b.created_at a.created_at) (env.item_order (values s.storage)))
    rest ← lift (from_cursor cursor items)
    pure (page_of (pos_part (clamp requested (pos 1) (pos 100))) rest)

  -- The clock is read only where the item is found.
  abbrev when_stored :
      {A : Type 0}
      → String
      → (Item → Action MockStore ItemError A)
      → Action MockStore ItemError A
      → Action MockStore ItemError A
  when_stored id found missing s = elim (get id s.storage) [ some i ↦ found i s | none ↦ missing s ]

  unfoldable pub update_blockchain_status :
      String
      → BlockchainStatus
      → Option String
      → Option String
      → Option Time
      → Action MockStore ItemError (Unit {0})
  update_blockchain_status id status signature error next_retry_at = do
    lift (check_should_fail config)
    when_stored id
        (λ i. do
          at ← read_clock env
          modify (λ s. record s {
            storage = update_at id (updated_item status signature error next_retry_at at) s.storage;
          }))
        (pure tt)

  unfoldable pub enqueue_solana_outbox_for_item :
      String → SolanaOutboxPayload → Action MockStore ItemError Item
  enqueue_solana_outbox_for_item item_id payload = do
    lift (check_should_fail config)
    at ← read_clock env
    found ← gets (λ s. get item_id s.storage)
    i ← ok_or found (not_found item_id)
    outbox_id ← fresh_uuid env
    modify (λ s. record s {
      storage = update_at item_id (requeued_item at) s.storage;
      outbox = insert_at outbox_id (new_entry outbox_id item_id payload at) s.outbox;
    })
    pure (requeued_item at i)

  unfoldable pub get_pending_blockchain_items : ℕ → Action MockStore ItemError (List Item)
  unfolding sort
  get_pending_blockchain_items limit = do
    lift (check_should_fail config)
    at ← read_clock env
    gets (λ s. take limit (
        sort (λ a b. ltb a.created_at b.created_at)
          (keep (is_due_item at) (env.item_order (values s.storage)))))

  unfoldable pub increment_retry_count : String → Action MockStore ItemError ℕ
  increment_retry_count id = do
    lift (check_should_fail config)
    when_stored id
        (λ i. do
          at ← read_clock env
          modify (λ s. record s {
            storage =
                update_at id
                  (λ j. record j {
                    blockchain_retry_count = j.blockchain_retry_count + 1;
                    updated_at = at;
                  })
                  s.storage;
          })
          pure (i.blockchain_retry_count + 1))
        (raise (not_found id))

  abbrev pub mock_items : ItemRepository MockStore
  mock_items = record {
    health_check = provider_health_check config;
    get_item = get_item;
    create_item = create_item;
    list_items = list_items;
    update_item = update_item_default;
    delete_item = delete_item_default;
    update_blockchain_status = update_blockchain_status;
    enqueue_solana_outbox_for_item = enqueue_solana_outbox_for_item;
    get_pending_blockchain_items = get_pending_blockchain_items;
    increment_retry_count = increment_retry_count;
  }
