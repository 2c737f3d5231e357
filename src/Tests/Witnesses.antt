-- ===== src/Tests/Witnesses.antt =====
-- The theorems that have hypotheses or parameters, each at a concrete input.
use testable_rust_architectu.Base.{◌+◌, ◌*◌, ◌≤◌, ◌<◌, ◌≡◌, refl, ◌↔◌, ◌⊎◌, none, some, [], ◌∷◌}
use testable_rust_architectu.Base.Effects.{ok, err, map_err}
use testable_rust_architectu.Domain.Errors.{ValidationError, timeout}
use testable_rust_architectu.Domain.Validation.{validate, validate_iff, IsAcceptable}
use testable_rust_architectu.Postgres.Items
use testable_rust_architectu.Postgres.Atomicity.{Created, IsErr, create_item_atomic}
use testable_rust_architectu.Postgres.Invariant.{IsConsistent}
use testable_rust_architectu.Postgres.Keeps.{calls, creates, claims, completes, calls-IsConsistent}
use testable_rust_architectu.Rpc.Provider.{http_provider}
use testable_rust_architectu.Rpc.Calls.{rpc_call}
use testable_rust_architectu.Rpc.Client.{
  submit_transaction, blockchain_client, get_latest_blockhash,
}
use testable_rust_architectu.Rpc.Blank.{NamesBlockhash, StaysBlank, blank_blockhash_stays}
use testable_rust_architectu.Service.{
  CreateItemError, validation, calculate_backoff, max_backoff_secs, create_and_submit_item,
  retry_blockchain_submission, process_outbox_entry, attempt_update,
}
use testable_rust_architectu.Service.Backoff.{backoff_doubles}
use testable_rust_architectu.Service.Requests.{
  postgres_app, create_validated, RetryEffect, retry_effect,
}
use testable_rust_architectu.Service.Attempts.{
  Recorded, process_outbox_entry-Recorded, Sticks, resubmission-Sticks, first_submission-Sticks,
}
use testable_rust_architectu.Tests.Samples.{
  calm, empty_world, stored_world, stored_world-IsConsistent, request, show_nothing, live, silent,
  client_with, entry,
}

create_item_atomic_example :
    let (r, w') = Items.create_item calm request stored_world in
    Created calm request stored_world.tables w'.tables
    ⊎ (IsErr r × (w'.tables ≡ stored_world.tables))
create_item_atomic_example = create_item_atomic calm request stored_world

process_outbox_entry-Recorded_example :
    let client = blockchain_client live in
    let (o, w1) =
      client.submit_transaction entry.payload.hash entry.attempt_blockhash stored_world in
    Recorded calm client show_nothing entry o w1
      (process_outbox_entry (postgres_app calm client show_nothing) entry stored_world)
process_outbox_entry-Recorded_example =
    process_outbox_entry-Recorded calm (blockchain_client live) show_nothing entry stored_world

resubmission-Sticks_example :
    Sticks live "memo" "hash" stored_world
      (submit_transaction live "memo" (some "hash") stored_world).0
resubmission-Sticks_example = resubmission-Sticks live "memo" "hash" stored_world

fetched_answer : (get_latest_blockhash live stored_world).0 ≡ ok "answer"
unfolding get_latest_blockhash rpc_call
fetched_answer = refl

first_submission-Sticks_example :
    Sticks live "memo" "answer"
      (get_latest_blockhash live stored_world).1
      (submit_transaction live "memo" none stored_world).0
first_submission-Sticks_example =
    first_submission-Sticks live "memo" "answer" stored_world fetched_answer

calls-IsConsistent_example :
    IsConsistent
      (calls calm
        (creates request ∷ claims 5 ∷ completes "e" "i" "signature" ∷ [])
        stored_world).tables
calls-IsConsistent_example =
    calls-IsConsistent calm (creates request ∷ claims 5 ∷ completes "e" "i" "signature" ∷ [])
      stored_world stored_world-IsConsistent

retry_effect_example :
    RetryEffect calm stored_world
      (Items.get_item calm "i" stored_world)
      (retry_blockchain_submission
        (postgres_app calm (blockchain_client live) show_nothing)
        "i"
        stored_world).1
retry_effect_example = retry_effect calm (blockchain_client live) show_nothing "i" stored_world

create_validated_example :
    let app = postgres_app calm (blockchain_client live) show_nothing in
    (IsAcceptable request
      × (create_and_submit_item app request empty_world
          ≡ map_err CreateItemError.item (app.item_repo.create_item request) empty_world))
    ⊎ (¬ IsAcceptable request
        × ((e : ValidationError) × (create_and_submit_item app request empty_world
              ≡ (err (validation e), empty_world))))
create_validated_example =
    create_validated (postgres_app calm (blockchain_client live) show_nothing) request empty_world

validate_iff_example : (validate request ≡ ok tt) ↔ IsAcceptable request
validate_iff_example = validate_iff request

silent_timeout :
    (get_latest_blockhash (client_with (http_provider silent)) stored_world).0
    ≡ err (timeout "timed out" "")
unfolding get_latest_blockhash rpc_call http_provider
silent_timeout = refl

backoff_doubles_example :
    (((3 < 8) × (calculate_backoff (3 + 1) ≡ 2 * calculate_backoff 3))
      ⊎ ((8 ≤ 3) × (calculate_backoff 3 ≡ 256)))
    × (1 ≤ calculate_backoff 3)
    × (calculate_backoff 3 < max_backoff_secs)
backoff_doubles_example = backoff_doubles 3

timeout-NamesBlockhash : NamesBlockhash (timeout "timed out" "")
unfolding attempt_update
timeout-NamesBlockhash h = cc

blank_blockhash_stays_example :
    StaysBlank (client_with (http_provider silent)) "memo" (timeout "timed out" "") stored_world
blank_blockhash_stays_example =
    blank_blockhash_stays (client_with (http_provider silent)) silent "memo" "no hash"
      (timeout "timed out" "") stored_world refl refl silent_timeout timeout-NamesBlockhash
