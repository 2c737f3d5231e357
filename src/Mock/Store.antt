-- ===== src/Mock/Store.antt =====
-- test_utils/mocks.rs: the configuration and the state of the mocks. A `HashMap` is the list of its
-- entries, where a key stands once; the order in which its values are visited is a parameter.
use testable_rust_architectu.Base.{
  ℕ, ◌+◌, String, Bool, true, false, Option, none, some, List, [], ◌∷◌, map, keep, not, str_eq,
  if◌then◌else◌,
}
use testable_rust_architectu.Base.Effects.{Action, Result, ok, err, lift, map_err}
use testable_rust_architectu.Domain.Errors.{
  ItemError, repository_failure, HealthCheckError, database_unavailable,
}
use testable_rust_architectu.Domain.Items.{Time, Item, SolanaOutboxEntry}

pub record MockConfig : Type 0 where
  pub should_fail : Bool
  pub error_message : Option String
  pub fail_with_timeout : Bool
  pub timeout_blockhash : Option String

-- `MockConfig::success`, which is the default.
unfoldable pub success : MockConfig
success = record {
  should_fail = false;
  error_message = none;
  fail_with_timeout = false;
  timeout_blockhash = none;
}

unfoldable pub failure : String → MockConfig
failure message = record {
  should_fail = true;
  error_message = some message;
  fail_with_timeout = false;
  timeout_blockhash = none;
}

-- `MockBlockchainClient::timeout_with_blockhash`.
unfoldable pub timeout_with_blockhash : String → MockConfig
timeout_with_blockhash blockhash = record {
  should_fail = true;
  error_message = none;
  fail_with_timeout = true;
  timeout_blockhash = some blockhash;
}

-- What the mocks take from their surroundings: clock, fresh UUIDs, SHA-256, and the order in which
-- a `HashMap` gives its values. The counter of the state numbers the readings.
pub record MockEnv : Type 0 where
  pub utc_now : ℕ → Time
  pub uuid : ℕ → String
  pub sha256 : String → List ℕ
  pub item_order : List Item → List Item
  pub entry_order : List SolanaOutboxEntry → List SolanaOutboxEntry

-- The fields of `MockProvider` that change.
pub record MockStore : Type 0 where
  pub storage : List (String × Item)
  pub outbox : List (String × SolanaOutboxEntry)
  pub is_healthy : Bool
  pub ticks : ℕ

-- What `MockProvider::with_config` starts with.
unfoldable pub empty_store : MockStore
empty_store = record { storage = []; outbox = []; is_healthy = true; ticks = 0 }

-- `HashMap::get`, `get_mut` with a change, and `insert`.
module _ {V : Type 0} where
  abbrev pub get : String → List (String × V) → Option V
  get k [] = none
  get k ((j, v) ∷ m) = if str_eq j k then some v else get k m

  abbrev pub update_at : String → (V → V) → List (String × V) → List (String × V)
  update_at k f [] = []
  update_at k f ((j, v) ∷ m) = (if str_eq j k then (j, f v) else (j, v)) ∷ update_at k f m

  abbrev pub insert_at : String → V → List (String × V) → List (String × V)
  insert_at k v m = (k, v) ∷ keep (λ p. not (str_eq p.0 k)) m

  abbrev pub values : List (String × V) → List V
  values m = map (λ p. p.1) m

abbrev pub read_clock : {E : Type 0} → MockEnv → Action MockStore E Time
read_clock env s = (ok (env.utc_now s.ticks), record s { ticks = s.ticks + 1 })

abbrev pub fresh_uuid : {E : Type 0} → MockEnv → Action MockStore E String
fresh_uuid env s = (ok (env.uuid s.ticks), record s { ticks = s.ticks + 1 })

-- `MockProvider::check_should_fail`.
abbrev pub check_should_fail : MockConfig → Result ItemError (Unit {0})
check_should_fail config = if config.should_fail then err repository_failure else ok tt

-- `health_check` of both repositories.
unfoldable pub provider_health_check : MockConfig → Action MockStore HealthCheckError (Unit {0})
provider_health_check config s =
    if not s.is_healthy
    then (err database_unavailable, s)
    else map_err (λ (e : ItemError). database_unavailable) (lift (check_should_fail config)) s

unfoldable pub set_healthy : Bool → MockStore → MockStore
set_healthy healthy s = record s { is_healthy = healthy }

unfoldable pub get_all_items : MockEnv → MockStore → List Item
get_all_items env s = env.item_order (values s.storage)

unfoldable pub get_all_outbox_entries : MockEnv → MockStore → List SolanaOutboxEntry
get_all_outbox_entries env s = env.entry_order (values s.outbox)
