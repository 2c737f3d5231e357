-- ===== src/System/Handlers.antt =====
-- src/api/handlers.rs over PostgreSQL: a handler works on the tables by calls of the repositories,
-- so what each call keeps, the handlers keep.
use testable_rust_architectu.Base.{
  String, ◌≡◌, sym, subst, ◌∙◌, Option, none, some, List, inl, inr, Bool-cases, arith,
}
use testable_rust_architectu.Base.Effects.{Result, Result-cases, ◌>>=◌, >>=-cases, ok_or}
use testable_rust_architectu.Domain.Errors.{ItemError, not_found}
use testable_rust_architectu.Domain.Items.{Item, CreateItemRequest, PaginationParams}
use testable_rust_architectu.Domain.Validation.{FieldError, validate}
use testable_rust_architectu.Domain.Hash.{build_solana_outbox_payload_from_item}
use testable_rust_architectu.Domain.Ports.{BlockchainClient}
use testable_rust_architectu.World.{World, Env, Tables}
use testable_rust_architectu.Postgres.Items
use testable_rust_architectu.Postgres.Keeps.{Call, call, creates, reads, pages, enqueues}
use testable_rust_architectu.Service.{
  AppService, create_and_submit_item, get_item, retry_item, retry_blockchain_submission,
  health_check, is_retryable, is_queued,
}
use testable_rust_architectu.Service.Requests.{postgres_app}
use testable_rust_architectu.Service.Passes.{IsApart}
use testable_rust_architectu.Api.Handlers.{
  create_item_handler, list_items_handler, get_item_handler, retry_blockchain_handler,
  health_check_handler, readiness_handler,
}

-- A client of the chain whose submissions and health checks leave the tables alone.
pub record IsQuiet (client : BlockchainClient World) : Type 0 where
  pub submits : IsApart client
  pub checks : (w : World) → (client.health_check w).1.tables ≡ w.tables

module _ (env : Env) (client : BlockchainClient World) (show : List FieldError → String)
    (quiet : IsQuiet client) (P : Tables → Type 0)
    (keeps : (k : Call) (w : World) → P w.tables → P (call env k w).tables) where
  abbrev app : AppService World
  app = postgres_app env client show

  pub create_handler-Keeps :
      (payload : CreateItemRequest) (w : World)
      → P w.tables
      → P (create_item_handler app payload w).1.tables
  unfolding create_item_handler create_and_submit_item
  create_handler-Keeps payload w p = elim (Result-cases (validate payload)) [
    | inl (e, h) ↦ rw h p
    | inr (u, h) ↦ rw h (keeps (creates payload) w p)
  ]

  pub list_handler-Keeps :
      (params : PaginationParams) (w : World)
      → P w.tables
      → P (list_items_handler app params w).1.tables
  unfolding list_items_handler
  list_handler-Keeps params w p = keeps (pages _ params.cursor) w p

  pub get_handler-Keeps :
      (id : String) (w : World) → P w.tables → P (get_item_handler app id w).1.tables
  unfolding get_item_handler get_item
  get_handler-Keeps id w p =
      >>=-cases (λ (x : Result ItemError Item × World). P x.1.tables) (Items.get_item env id)
        (λ found. ok_or found (not_found id)) w (λ e h. keeps (reads id) w p)
        (λ found h. found_or found (Items.get_item env id w).1 (keeps (reads id) w p))
    where
      found_or :
          (found : Option Item) (w' : World)
          → P w'.tables
          → P (ok_or {E = ItemError} found (not_found id) w').1.tables
      found_or none w' q = q
      found_or (some i) w' q = q

  retry_item-Keeps : (i : Item) (w : World) → P w.tables → P (retry_item app i w).1.tables
  unfolding retry_item
  retry_item-Keeps i w p = elim (Bool-cases (is_retryable i.blockchain_status)) [
    | inr h ↦ rw h p
    | inl h ↦ elim (Bool-cases (is_queued i.blockchain_status)) [
      | inl q ↦ rw (h, q) p
      | inr q ↦
          rw (h, q) (keeps (enqueues i.id (build_solana_outbox_payload_from_item env.sha256 i)) w p)
    ]
  ]

  pub retry_handler-Keeps :
      (id : String) (w : World) → P w.tables → P (retry_blockchain_handler app id w).1.tables
  unfolding retry_blockchain_handler retry_blockchain_submission
  retry_handler-Keeps id w p =
      >>=-cases (λ (x : Result ItemError Item × World). P x.1.tables) (Items.get_item env id)
        (λ found. ok_or found (not_found id) >>= λ i. retry_item app i) w
        (λ e h. keeps (reads id) w p)
        (λ found h. retried found (Items.get_item env id w).1 (keeps (reads id) w p))
    where
      retried :
          (found : Option Item) (w' : World)
          → P w'.tables
          → P ((ok_or {E = ItemError} found (not_found id) >>= λ i. retry_item app i) w').1.tables
      retried none w' q = q
      retried (some i) w' q = retry_item-Keeps i w' q

  pg_health_same : (w : World) → ((Items.health_check env) w).1.tables ≡ w.tables
  unfolding Items.health_check
  pg_health_same w = ground arith

  pub health_handler-Keeps : (w : World) → P w.tables → P (health_check_handler app w).1.tables
  unfolding health_check_handler health_check
  health_handler-Keeps w p =
      let w1 = (Items.health_check env w).1 in subst P (sym (quiet.checks w1 ∙ pg_health_same w)) p

  pub ready_handler-Keeps : (w : World) → P w.tables → P (readiness_handler app w).1.tables
  unfolding readiness_handler health_check
  ready_handler-Keeps w p =
      let w1 = (Items.health_check env w).1 in subst P (sym (quiet.checks w1 ∙ pg_health_same w)) p
