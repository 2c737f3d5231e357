-- ===== src/Tests/Mocks.antt =====
-- The theorem on the mocks at a concrete input.
use testable_rust_architectu.Base.{◌≡◌, refl, true, false, none, some, List, [], ◌∷◌}
use testable_rust_architectu.Domain.Status.{
  BlockchainStatus, OutboxStatus, blockchain_status_from_str, outbox_status_from_str,
}
use testable_rust_architectu.Domain.Items.{seconds}
use testable_rust_architectu.Postgres.Rows.{row_to_item, row_to_outbox}
use testable_rust_architectu.Postgres.Client.{postgres_items, postgres_outbox}
use testable_rust_architectu.Mock.Store.{MockConfig, MockEnv, MockStore}
use testable_rust_architectu.Mock.Items.{mock_items}
use testable_rust_architectu.Mock.Outbox.{mock_outbox}
use testable_rust_architectu.Mock.Matching.{IsMatching}
use testable_rust_architectu.Mock.Writes.{Write, completes, saves, writes}
use testable_rust_architectu.Mock.Refinement.{seen, writes-agree}
use testable_rust_architectu.Tests.Samples.{calm, stored_world}

abbrev mock_env : MockEnv
mock_env = record {
  utc_now = λ n. seconds n;
  uuid = λ n. "uuid";
  sha256 = λ t. 7 ∷ [];
  item_order = λ items. items;
  entry_order = λ entries. entries;
}

abbrev reliable : MockConfig
reliable = record {
  should_fail = false;
  error_message = none;
  fail_with_timeout = false;
  timeout_blockhash = none;
}

-- The store that holds what the tables of `stored_world` hold.
abbrev stored_mock : MockStore
stored_mock = record {
  storage =
      (
        "i",
        record {
          id = "i";
          hash = "hash_i";
          name = "name";
          description = none;
          content = "content";
          metadata = none;
          blockchain_status = BlockchainStatus.failed;
          blockchain_signature = none;
          blockchain_retry_count = 10;
          blockchain_last_error = some "no funds";
          blockchain_next_retry_at = none;
          created_at = 0;
          updated_at = 3;
        },
      )
      ∷ [];
  outbox =
      (
        "e",
        record {
          id = "e";
          aggregate_id = "i";
          payload = record { hash = "07" };
          status = OutboxStatus.pending;
          retry_count = 0;
          attempt_blockhash = none;
          created_at = 0;
        },
      )
      ∷ [];
  is_healthy = true;
  ticks = 0;
}

stored_mock-matches : IsMatching calm stored_world.tables stored_mock
unfolding row_to_item row_to_outbox blockchain_status_from_str outbox_status_from_str
stored_mock-matches = ((refl, refl, tt), (refl, refl, tt))

abbrev some_writes : List Write
some_writes = saves "e" (some "hash") ∷ completes "e" "i" "signature" ∷ []

writes-agree_example :
    let w' = writes (postgres_items calm) (postgres_outbox calm) some_writes stored_world in
    let s' =
      writes
        (mock_items mock_env reliable)
        (mock_outbox mock_env reliable)
        some_writes
        stored_mock in
    IsMatching calm w'.tables s'
    × (seen ((postgres_items calm).get_item "i" w').0
        ≡ seen ((mock_items mock_env reliable).get_item "i" s').0)
writes-agree_example =
    writes-agree calm mock_env reliable (λ n. refl) refl some_writes stored_world stored_mock "i"
      stored_mock-matches
