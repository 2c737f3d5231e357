-- ===== src/Domain/Items.antt =====
-- domain/types.rs: items, the requests that create them, outbox entries, pages. A `DateTime<Utc>`
-- is a number of nanoseconds; `retry_count` and its like are the non-negative values of an `i32`.
use testable_rust_architectu.Base.{ℕ, ◌*◌, String, Bool, false, Option, none, List, []}
use testable_rust_architectu.Base.Int.{ℤ, pos}
use testable_rust_architectu.Domain.Status.{BlockchainStatus, OutboxStatus}

abbrev pub Time : Type 0
Time = ℕ

-- `Duration::seconds` and the like, in nanoseconds.
abbrev pub seconds : ℕ → Time
seconds n = n * 1000000000

pub record SolanaOutboxPayload : Type 0 where
  pub hash : String

pub record SolanaOutboxEntry : Type 0 where
  pub id : String
  pub aggregate_id : String
  pub payload : SolanaOutboxPayload
  pub status : OutboxStatus
  pub retry_count : ℕ
  pub attempt_blockhash : Option String
  pub created_at : Time

-- A `HashMap<String, String>` is a list of its entries.
pub record ItemMetadata : Type 0 where
  pub author : Option String
  pub version : Option String
  pub tags : List String
  pub custom_fields : List (String × String)

pub record Item : Type 0 where
  pub id : String
  pub hash : String
  pub name : String
  pub description : Option String
  pub content : String
  pub metadata : Option ItemMetadata
  pub blockchain_status : BlockchainStatus
  pub blockchain_signature : Option String
  pub blockchain_retry_count : ℕ
  pub blockchain_last_error : Option String
  pub blockchain_next_retry_at : Option Time
  pub created_at : Time
  pub updated_at : Time

-- `Item::new`, at the time `now`.
unfoldable pub item_new : Time → String → String → String → String → Item
item_new now id hash name content = record {
  id = id;
  hash = hash;
  name = name;
  description = none;
  content = content;
  metadata = none;
  blockchain_status = BlockchainStatus.pending;
  blockchain_signature = none;
  blockchain_retry_count = 0;
  blockchain_last_error = none;
  blockchain_next_retry_at = none;
  created_at = now;
  updated_at = now;
}

unfoldable pub item_default : Time → Item
unfolding item_new
item_default now = item_new now "default_id" "default_hash" "default_name" "default_content"

pub record ItemMetadataRequest : Type 0 where
  pub author : Option String
  pub version : Option String
  pub tags : List String
  pub custom_fields : List (String × String)

pub record CreateItemRequest : Type 0 where
  pub name : String
  pub description : Option String
  pub content : String
  pub metadata : Option ItemMetadataRequest

-- `CreateItemRequest::new`.
unfoldable pub create_item_request_new : String → String → CreateItemRequest
create_item_request_new name content = record {
  name = name;
  description = none;
  content = content;
  metadata = none;
}

-- `limit` is an `i64` that the client chooses.
pub record PaginationParams : Type 0 where
  pub limit : ℤ
  pub cursor : Option String

abbrev pub default_limit : ℤ
default_limit = pos 20

-- `PaginationParams::default`.
unfoldable pub pagination_params_default : PaginationParams
pagination_params_default = record { limit = default_limit; cursor = none }

pub record PaginatedResponse (A : Type 0) : Type 0 where
  pub items : List A
  pub next_cursor : Option String
  pub has_more : Bool

-- `PaginatedResponse::empty`.
unfoldable pub paginated_response_empty : {A : Type 0} → PaginatedResponse A
paginated_response_empty = record { items = []; next_cursor = none; has_more = false }
