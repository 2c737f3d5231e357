-- ===== src/Tests/Reaching.antt =====
-- The theorems on the worker that delivers and on the client that browses, at concrete inputs.
use testable_rust_architectu.Base.{
  ◌≡◌, refl, sym, ◌⊎◌, true, none, some, inr, List, [], ◌∷◌, All, arith, map,
}
use testable_rust_architectu.Base.Int.{pos}
use testable_rust_architectu.Base.Effects.{ok, err, ok_injective}
use testable_rust_architectu.World.{World, ItemRow, Env}
use testable_rust_architectu.Postgres.Sorting.{sort}
use testable_rust_architectu.Postgres.Invariant.{outbox_ids}
use testable_rust_architectu.Postgres.Items.{newer_first, list_items}
use testable_rust_architectu.Postgres.Paging.{item_of}
use testable_rust_architectu.Postgres.Reordering.{swapped, list_items-Reordered}
use testable_rust_architectu.Postgres.Browsing.{browse}
use testable_rust_architectu.Service.Requests.{postgres_app}
use testable_rust_architectu.Service.Standing.{IsDelivered}
use testable_rust_architectu.Worker.{WorkerConfig, slept, run}
use testable_rust_architectu.Worker.Delivery.{run_delivers}
use testable_rust_architectu.Api.Browsing.{ask, browse_handler}
use testable_rust_architectu.Domain.Items.{seconds}
use testable_rust_architectu.Service.{create_and_submit_item}
use testable_rust_architectu.Service.Columns.{Fits, create-Fits}
use testable_rust_architectu.Rpc.Calls.{rpc_call}
use testable_rust_architectu.Rpc.Client.{
  RpcBlockchainClient, get_latest_blockhash, submit_transaction,
}
use testable_rust_architectu.Domain.Errors.{BlockchainError}
use testable_rust_architectu.Rpc.Logs.{Sent, IsLogged, SendsOnly, Latest}
use testable_rust_architectu.Rpc.Repeating.{IsFetch, Carries, attempts-Identical}
use testable_rust_architectu.Tests.Samples.{
  client_with, calm, quiet, show_nothing, stored_world, request, empty_world,
}
use testable_rust_architectu.Tests.Lasting.{paged_env, row_at, three_items, two_waiting}
use testable_rust_architectu.Tests.Collation.{text_before-IsCollation}

abbrev waiting_world : World
waiting_world = record {
  tables = record { items = stored_world.tables.items; outbox = two_waiting };
  ticks = 9;
}

-- A worker that takes one entry at a time.
abbrev one_by_one : WorkerConfig
one_by_one = record { poll_interval = seconds 1; batch_size = 1; enabled = true }

run_delivers_example :
    let t =
      (run
        (postgres_app calm quiet show_nothing)
        one_by_one
        (slept ∷ slept ∷ [])
        waiting_world).1.tables in
    (outbox_ids t ≡ "young" ∷ "old" ∷ []) × All (IsDelivered t.items) t.outbox
run_delivers_example =
    run_delivers calm quiet show_nothing (λ n. refl) (λ memo existing w. refl)
      (λ memo existing w. (("signature", "hash"), refl)) one_by_one (slept ∷ slept ∷ [])
      waiting_world refl (refl, (refl, tt)) (omega arith)
      (((_, refl), inr (λ n. refl)), (((_, refl), inr (λ n. refl)), tt))

abbrev paged_world : World
paged_world = record { tables = three_items; ticks = 0 }

browse_handler_example :
    (browse (ask paged_env quiet show_nothing (pos 1)) 4 none paged_world).0
    ≡ ok (some (map (item_of paged_env) (sort (newer_first paged_env) three_items.items)))
browse_handler_example =
    browse_handler paged_env quiet show_nothing text_before-IsCollation (λ n. refl) (pos 1) 4
      paged_world (refl, (refl, (refl, tt))) (omega arith)

-- The same items, the newest of them first.
abbrev other_order : List ItemRow
other_order = row_at "b" 7 ∷ row_at "a" 5 ∷ row_at "c" 5 ∷ []

list_items-Reordered_example :
    (list_items paged_env (pos 1) (some "b") paged_world).0
    ≡ (list_items paged_env
        (pos 1)
        (some "b")
        (record paged_world { tables = record { items = other_order; outbox = [] } })).0
list_items-Reordered_example =
    list_items-Reordered paged_env text_before-IsCollation (pos 1) (some "b") paged_world
      other_order (refl, (refl, (refl, tt))) (swapped (row_at "a" 5) (row_at "b" 7))

abbrev short_ids : Env
short_ids = record calm { uuid = λ n. "u" }

create-Fits_example :
    All Fits
      (create_and_submit_item
        (postgres_app short_ids quiet show_nothing)
        request
        empty_world).1.tables.items
create-Fits_example =
    create-Fits short_ids quiet show_nothing request empty_world (λ n. omega arith) tt

-- A node that logs the requests and answers all of them.
abbrev logged_client : RpcBlockchainClient (List Sent)
logged_client =
    client_with
      (record { send_request = λ method params log. (ok "answer", (method, params) ∷ log) })

logged_client-IsLogged : IsLogged logged_client (λ log. log)
logged_client-IsLogged = record {
  asks = λ method params log. refl;
  sleeps = λ t log. refl;
  signs = λ m log. refl;
}

logged_client-fetches : (get_latest_blockhash logged_client []).0 ≡ ok "answer"
unfolding get_latest_blockhash rpc_call
logged_client-fetches = refl

-- The first attempt, and one that follows it.
abbrev after_first : List Sent
after_first = (submit_transaction logged_client "memo" none []).1

attempts-Identical_example :
    SendsOnly
      (λ log. log)
      (λ r. IsFetch logged_client r ⊎ Carries logged_client (λ m. "signature") "memo" "answer" r)
      []
      after_first
    × SendsOnly
        (λ log. log)
        (Carries logged_client (λ m. "signature") "memo" "answer")
        after_first
        (submit_transaction logged_client "memo" (some "answer") after_first).1
    × (((e : BlockchainError) × ((submit_transaction logged_client "memo" none []).0 ≡ err e))
        ⊎ Latest
            (λ log. log)
            (Carries logged_client (λ m. "signature") "memo" "answer")
            after_first)
    × (((e : BlockchainError) × ((submit_transaction logged_client "memo"
              (some "answer")
              after_first).0
            ≡ err e))
        ⊎ Latest
            (λ log. log)
            (Carries logged_client (λ m. "signature") "memo" "answer")
            (submit_transaction logged_client "memo" (some "answer") after_first).1)
attempts-Identical_example =
    attempts-Identical logged_client (λ m. "signature")
      (λ m signature s given. ok_injective (sym given)) (λ log. log) logged_client-IsLogged "memo"
      "answer" [] after_first logged_client-fetches
