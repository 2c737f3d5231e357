-- ===== src/Tests/Lasting.antt =====
-- The theorems on failing entries and on pages, each at a concrete input.
use testable_rust_architectu.Base.{
  ℕ, ◌≤◌, String, ◌≡◌, refl, false, none, some, List, [], ◌∷◌, inl, All, length, arith,
}
use testable_rust_architectu.Base.Effects.{ok, err}
use testable_rust_architectu.World.{World, Env}
use testable_rust_architectu.Tests.Samples.{calm, stored_world, show_nothing}
use testable_rust_architectu.World.{OutboxRow, ItemRow}
use testable_rust_architectu.Postgres.Sorting.{sort, insert}
use testable_rust_architectu.Postgres.Items.{select_page, newer_first}
use testable_rust_architectu.Postgres.Outbox.{candidates, is_among}
use testable_rust_architectu.Postgres.Fairness.{claim_oldest_first}
use testable_rust_architectu.Postgres.Pagination.{page_after_cursor}
use testable_rust_architectu.Domain.Ports.{
  BlockchainClient, get_transaction_status_default, get_block_height_default,
  get_latest_blockhash_default, wait_for_confirmation_default,
}
use testable_rust_architectu.Domain.Errors.{insufficient_funds}
use testable_rust_architectu.Service.GivingUp.{attempts, IsGivenUp, attempts-IsGivenUp}
use testable_rust_architectu.Tests.Collation.{text_before, text_before-IsCollation}
use testable_rust_architectu.World.{Tables}
use testable_rust_architectu.Base.{◌++◌}

-- A client whose submissions fail.
abbrev broken : BlockchainClient World
broken = record {
  health_check = λ s. (ok tt, s);
  submit_transaction = λ memo existing s. (err insufficient_funds, s);
  get_transaction_status = get_transaction_status_default;
  get_block_height = get_block_height_default;
  get_latest_blockhash = get_latest_blockhash_default;
  wait_for_confirmation = wait_for_confirmation_default;
}

attempts-IsGivenUp_example : IsGivenUp "e" (attempts calm broken show_nothing "e" 10 stored_world)
attempts-IsGivenUp_example =
    attempts-IsGivenUp calm broken show_nothing (λ n. refl) (λ memo existing w. refl)
      (λ memo existing w. (insufficient_funds, refl)) "e" 10 0 stored_world (omega arith) refl
      (_, refl, refl, (_, refl))

-- The tables once another worker has completed the entry.
abbrev completed_row : OutboxRow
completed_row = record {
  id = "e";
  aggregate_id = "i";
  payload = "07";
  status = "completed";
  created_at = 0;
  retry_count = 0;
  next_retry_at = none;
  attempt_blockhash = none;
  updated_at = 9;
}

abbrev completed_world : World
completed_world = record {
  tables = record { items = stored_world.tables.items; outbox = completed_row ∷ [] };
  ticks = 9;
}

-- Three items, two of which were created at the same time.
abbrev pub row_at : String → ℕ → ItemRow
row_at id at = record {
  id = id;
  hash = "hash";
  name = "name";
  description = none;
  content = "content";
  metadata = none;
  blockchain_status = "pending_submission";
  blockchain_signature = none;
  blockchain_retry_count = 0;
  blockchain_last_error = none;
  blockchain_next_retry_at = none;
  created_at = at;
  updated_at = at;
}

abbrev pub paged_env : Env
paged_env = record calm { text_lt = text_before }

abbrev pub three_items : Tables
three_items = record { items = row_at "a" 5 ∷ row_at "b" 7 ∷ row_at "c" 5 ∷ []; outbox = [] }

listed :
    sort (newer_first paged_env) three_items.items
    ≡ (row_at "b" 7 ∷ []) ++ (row_at "c" 5 ∷ row_at "a" 5 ∷ [])
unfolding sort insert
listed = refl

page_after_cursor_example :
    select_page paged_env (some (5, "c")) 4 three_items ≡ ok (row_at "a" 5 ∷ [], three_items)
page_after_cursor_example =
    page_after_cursor paged_env text_before-IsCollation three_items 4 (row_at "b" 7 ∷ [])
      (row_at "c" 5) (row_at "a" 5 ∷ []) (refl, (refl, (refl, tt))) listed

-- Two entries that wait, the younger one first.
abbrev pub waiting : String → ℕ → OutboxRow
waiting id at = record {
  id = id;
  aggregate_id = "i";
  payload = "07";
  status = "pending";
  created_at = at;
  retry_count = 0;
  next_retry_at = none;
  attempt_blockhash = none;
  updated_at = at;
}

abbrev pub two_waiting : List OutboxRow
two_waiting = waiting "young" 6 ∷ waiting "old" 2 ∷ []

taken : candidates (λ id. false) 9 9 1 two_waiting ≡ waiting "old" 2 ∷ []
unfolding candidates sort insert
taken = refl

missed : is_among (candidates (λ id. false) 9 9 1 two_waiting) (waiting "young" 6) ≡ false
missed = rw taken refl

claim_oldest_first_example :
    (length (candidates (λ id. false) 9 9 1 two_waiting) ≡ 1)
    × All (λ c. c.created_at ≤ 6) (candidates (λ id. false) 9 9 1 two_waiting)
claim_oldest_first_example =
    claim_oldest_first (λ id. false) 9 9 1 two_waiting (waiting "young" 6) (inl refl) refl missed
