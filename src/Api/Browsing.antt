-- ===== src/Api/Browsing.antt =====
-- api/handlers.rs: a client that asks GET /items for page after page.
use testable_rust_architectu.Base.{ℕ, ◌<◌, ◌≡◌, none, some, Option, List, String, map, length}
use testable_rust_architectu.Base.Int.{ℤ, pos, clamp}
use testable_rust_architectu.Base.Effects.{Action, ok}
use testable_rust_architectu.Domain.Errors.{ItemError}
use testable_rust_architectu.Domain.Items.{Item, PaginatedResponse}
use testable_rust_architectu.Domain.Validation.{FieldError}
use testable_rust_architectu.Domain.Ports.{BlockchainClient}
use testable_rust_architectu.World.{World, Env}
use testable_rust_architectu.Postgres.Sorting.{sort}
use testable_rust_architectu.Postgres.Invariant.{Distinct, item_ids}
use testable_rust_architectu.Postgres.Items.{newer_first}
use testable_rust_architectu.Postgres.Pagination.{IsCollation}
use testable_rust_architectu.Postgres.Paging.{item_of}
use testable_rust_architectu.Postgres.Browsing.{browse, browse_all}
use testable_rust_architectu.Service.Requests.{postgres_app}
use testable_rust_architectu.Api.Handlers.{list_items_handler}

-- The handler over PostgreSQL, asked for a page of some size.
abbrev pub ask :
    Env
    → BlockchainClient World
    → (List FieldError → String)
    → ℤ
    → Option String
    → Action World ItemError (PaginatedResponse Item)
ask env client show limit cursor =
    list_items_handler (postgres_app env client show) (record { limit = limit; cursor = cursor })

-- A client that asks for the first page, and then for the page after each cursor that it is given,
-- gets every item of the table once, from the newest to the oldest, whatever page size it asks for,
-- and learns that there are no more: where no call of the database fails, nothing is written
-- meanwhile, the ids are distinct and the collation tells texts apart. It takes at most one request
-- more than there are items.
pub browse_handler :
    (env : Env) (client : BlockchainClient World) (show : List FieldError → String)
    (collation : IsCollation env.text_lt) (calm : (n : ℕ) → env.fault n ≡ none) (limit : ℤ) (n : ℕ)
    (w : World)
    → Distinct (item_ids w.tables)
    → length w.tables.items < n
    → (browse (ask env client show limit) n none w).0
      ≡ ok (some (map (item_of env) (sort (newer_first env) w.tables.items)))
unfolding list_items_handler
browse_handler env client show collation calm limit n w =
    browse_all env collation calm (clamp limit (pos 1) (pos 100)) n w
