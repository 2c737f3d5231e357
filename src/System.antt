-- ===== src/System.antt =====
-- The whole service: requests over HTTP (src/api), passes of the background worker
-- (src/app/worker.rs) and calls that other instances make of the database, in any order, over
-- PostgreSQL.
pub mod Handlers
pub mod Invariant
pub mod Client
use testable_rust_architectu.Base.{String, List}
use testable_rust_architectu.Domain.Validation.{FieldError}
use testable_rust_architectu.Domain.Ports.{BlockchainClient}
use testable_rust_architectu.World.{World, Env}
use testable_rust_architectu.Postgres.Keeps.{Call, call}
use testable_rust_architectu.Service.Requests.{postgres_app}
use testable_rust_architectu.Worker.{WorkerConfig, process_batch}
use testable_rust_architectu.Api.Router.{AppState, Request, create_router}

-- What the process is set up with.
pub record Deployment : Type 0 where
  pub env : Env
  pub client : BlockchainClient World
  pub show_errors : List FieldError → String
  -- The state of the application, whose service is that over PostgreSQL.
  pub state : AppState World
  pub worker : WorkerConfig

abbrev pub app_state : Deployment → AppState World
app_state d = record d.state { service = postgres_app d.env d.client d.show_errors }

pub data Step (d : Deployment) : World → World → Type 0 where
  serves : (request : Request) (w : World) → Step d w (create_router (app_state d) request w).1
  works :
      (w : World) → Step d w (process_batch (postgres_app d.env d.client d.show_errors) d.worker w)
  elsewhere : (k : Call) (w : World) → Step d w (call d.env k w)

pub data Reach (d : Deployment) (w : World) : World → Type 0 where
  here : Reach d w w
  next : {u v : World} → Reach d w u → Step d u v → Reach d w v
