-- ===== src/Api/Handlers.antt =====
-- api/handlers.rs: the handlers, over the application service. A handler that succeeds answers 200
-- with the value as JSON.
use testable_rust_architectu.Base.{ℕ, String, List, ◌≡◌, refl, ◌↔◌, arith, inl, inr}
use testable_rust_architectu.Base.Int.{ℤ, pos, clamp}
use testable_rust_architectu.Base.Effects.{Action, ok, err, ok_or, ◌>>=◌}
use testable_rust_architectu.Domain.Errors.{ItemError, not_found}
use testable_rust_architectu.Domain.Items.{
  Item, CreateItemRequest, PaginationParams, PaginatedResponse,
}
use testable_rust_architectu.Domain.Validation.{IsAcceptable, FieldError}
use testable_rust_architectu.Domain.Health.{
  HealthStatus, healthy, degraded, unhealthy, HealthResponse,
}
use testable_rust_architectu.Domain.Ports.{BlockchainClient}
use testable_rust_architectu.World.{World, Env}
use testable_rust_architectu.Postgres.Items
use testable_rust_architectu.Service.{
  AppService, CreateItemError, create_and_submit_item, get_item, list_items,
  retry_blockchain_submission, health_check,
}
use testable_rust_architectu.Service.Requests.{postgres_app, create_validated}
use testable_rust_architectu.Api.Responses.{create_item_error_into_response}

module _ {S : Type 0} (app : AppService S) where
  unfoldable pub create_item_handler : CreateItemRequest → Action S CreateItemError Item
  create_item_handler payload = create_and_submit_item app payload

  unfoldable pub list_items_handler : PaginationParams → Action S ItemError (PaginatedResponse Item)
  unfolding list_items
  list_items_handler params = list_items app (clamp params.limit (pos 1) (pos 100)) params.cursor

  unfoldable pub get_item_handler : String → Action S ItemError Item
  unfolding get_item
  get_item_handler id = do found ← get_item app id; ok_or found (not_found id)

  unfoldable pub retry_blockchain_handler : String → Action S ItemError Item
  retry_blockchain_handler id = retry_blockchain_submission app id

  unfoldable pub health_check_handler : S → HealthResponse × S
  health_check_handler s = health_check app s

  abbrev readiness : HealthStatus → ℕ
  readiness healthy = 200
  readiness degraded = 200
  readiness unhealthy = 503

  -- The status code alone.
  unfoldable pub readiness_handler : S → ℕ × S
  unfolding health_check
  readiness_handler s = let (health, s') = health_check app s in (readiness health.status, s')

-- The status code, which is all of the answer.
unfoldable pub liveness_handler : ℕ
liveness_handler = 200

-- A request that is not acceptable is answered with status 400 and the type of a validation error,
-- and the repository is not called.
pub create_rejected :
    {S : Type 0} (app : AppService S) (payload : CreateItemRequest) (s : S)
    → ¬ IsAcceptable payload
    → (e : CreateItemError) × (create_item_handler app payload s ≡ (err e, s))
      × ((create_item_error_into_response e).status ≡ 400)
      × ((create_item_error_into_response e).error_type ≡ "validation_error")
unfolding create_item_handler create_item_error_into_response
create_rejected app payload s h = elim (create_validated app payload s) [
  | inl (acceptable, _) ↦ absurd (h acceptable)
  | inr (_, (e, answer)) ↦ (CreateItemError.validation e, answer, refl, refl)
]

clamp_twice :
    (n : ℤ) → clamp (clamp n (pos 1) (pos 100)) (pos 1) (pos 100) ≡ clamp n (pos 1) (pos 100)
clamp_twice n = ground arith

-- Over PostgreSQL a page is the same for a limit that the client chose and for that limit clamped
-- by the handler, since the repository clamps it in the same way.
pub list_items_handler-clamps :
    (env : Env) (client : BlockchainClient World) (show : List FieldError → String)
    (params : PaginationParams) (w : World)
    → list_items_handler (postgres_app env client show) params w
      ≡ Items.list_items env params.limit params.cursor w
unfolding list_items_handler Items.list_items
list_items_handler-clamps env client show params w = rw (clamp_twice params.limit) refl

-- The service is ready exactly when both the database and the chain answer their health checks.
pub readiness_iff :
    {S : Type 0} (app : AppService S) (s : S)
    → let (db, s1) = app.item_repo.health_check s in
      let (chain, s2) = app.blockchain_client.health_check s1 in
      ((readiness_handler app s).0 ≡ 200) ↔ ((db ≡ ok tt) × (chain ≡ ok tt))
unfolding readiness_handler
readiness_iff app s = ground arith
