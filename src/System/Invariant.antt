-- ===== src/System/Invariant.antt =====
-- What holds of the tables in every state that the service reaches.
use testable_rust_architectu.Base.{
  ℕ, String, Bool, true, false, ◌≡◌, sym, subst, List, ◌⊎◌, inl, inr, if◌then◌else◌, str_eq, arith,
}
use testable_rust_architectu.Base.Effects.{Result, ok, err}
use testable_rust_architectu.World.{World, Tables}
use testable_rust_architectu.Postgres.Invariant.{IsConsistent}
use testable_rust_architectu.Postgres.Keeps.{Call, call, call-IsConsistent}
use testable_rust_architectu.Postgres.History.{Extends, Extends-refl, Extends-trans, call-Extends}
use testable_rust_architectu.Service.Passes.{pass-Keeps}
use testable_rust_architectu.Worker.{process_batch}
use testable_rust_architectu.Api.Handlers.{liveness_handler}
use testable_rust_architectu.Api.Auth.{HttpRequest, auth_middleware}
use testable_rust_architectu.Api.ClientIp.{Response}
use testable_rust_architectu.Api.Router.{
  Request, Route, collection, health, live, ready, metrics, other, item, retry, route, is_items,
  endpoint, items_routes, create_router, metrics_handler, unauthorized, extracted, reads,
  method_not_allowed, plain,
}
use testable_rust_architectu.System.{
  Deployment, app_state, Step, serves, works, elsewhere, Reach, here, next,
}
use testable_rust_architectu.System.Handlers.{
  IsQuiet, create_handler-Keeps, list_handler-Keeps, get_handler-Keeps, retry_handler-Keeps,
  health_handler-Keeps, ready_handler-Keeps,
}

-- Of two branches, both of which keep it.
branch-Keeps :
    {A : Type 0} (P : A → Type 0) (b : Bool) (x y : A) → P x → P y → P (if b then x else y)
branch-Keeps P true x y h k = h
branch-Keeps P false x y h k = k

auth-outcome :
    {S R : Type 0} (sha256 : String → List ℕ) (expected : String) (refusal : R)
    (request : HttpRequest) (inner : S → R × S) (s : S)
    → let answer = auth_middleware sha256 expected refusal request inner s in
      (answer ≡ inner s) ⊎ (answer ≡ (refusal, s))
unfolding auth_middleware
auth-outcome sha256 expected refusal request inner s = ground arith

module _ (d : Deployment) (quiet : IsQuiet d.client) (P : Tables → Type 0)
    (keeps : (k : Call) (w : World) → P w.tables → P (call d.env k w).tables) where
  abbrev Fine : Response × World → Type 0
  Fine p = P p.1.tables

  extracted-Keeps :
      {A : Type 0} (r : Result Response A) (handler : A → World → Response × World) (w : World)
      → P w.tables
      → ((a : A) → Fine (handler a w))
      → Fine (extracted (app_state d) r handler w)
  extracted-Keeps (ok a) handler w p h = h a
  extracted-Keeps (err refusal) handler w p h = p

  metrics_same : (w : World) → (metrics_handler (app_state d) w).1 ≡ w
  unfolding metrics_handler
  metrics_same w = ground arith

  endpoint-Keeps :
      (r : Route) (request : Request) (w : World)
      → P w.tables
      → Fine (endpoint (app_state d) r request w)
  unfolding endpoint
  endpoint-Keeps collection request w p =
      branch-Keeps Fine (str_eq request.http.method "POST") _ _
        (extracted-Keeps request.payload _ w p
          (λ x. create_handler-Keeps d.env d.client d.show_errors quiet P keeps x w p))
        (branch-Keeps Fine (reads request.http.method) _ (method_not_allowed, w)
          (extracted-Keeps request.params _ w p
            (λ x. list_handler-Keeps d.env d.client d.show_errors quiet P keeps x w p))
          p)
  endpoint-Keeps (item id) request w p =
      branch-Keeps Fine _ _ _ (get_handler-Keeps d.env d.client d.show_errors quiet P keeps id w p)
        p
  endpoint-Keeps (retry id) request w p =
      branch-Keeps Fine _ _ _
        (retry_handler-Keeps d.env d.client d.show_errors quiet P keeps id w p) p
  endpoint-Keeps health request w p =
      branch-Keeps Fine _ _ _ (health_handler-Keeps d.env d.client d.show_errors quiet P keeps w p)
        p
  endpoint-Keeps live request w p =
      branch-Keeps Fine (reads request.http.method) (plain liveness_handler "", w)
        (method_not_allowed, w) p p
  endpoint-Keeps ready request w p =
      branch-Keeps Fine _ _ _ (ready_handler-Keeps d.env d.client d.show_errors quiet P keeps w p) p
  endpoint-Keeps metrics request w p =
      branch-Keeps Fine (reads request.http.method) (metrics_handler (app_state d) w)
        (method_not_allowed, w) (subst (λ (u : World). P u.tables) (sym (metrics_same w)) p) p
  endpoint-Keeps other request w p = p

  items-Keeps :
      (request : Request) (w : World) → P w.tables → Fine (items_routes (app_state d) request w)
  unfolding items_routes
  items-Keeps request w p =
      let inner = endpoint (app_state d) (route request.path) request in
      elim (auth-outcome d.env.sha256 d.state.api_auth_key unauthorized request.http inner w) [
        | inl answer ↦ subst Fine (sym answer) (endpoint-Keeps (route request.path) request w p)
        | inr answer ↦ subst Fine (sym answer) p
      ]

  step-Keeps : (w v : World) → Step d w v → P w.tables → P v.tables
  unfolding create_router process_batch
  step-Keeps w v (serves request u) p =
      branch-Keeps Fine (is_items (route request.path)) (items_routes (app_state d) request w)
        (endpoint (app_state d) (route request.path) request w) (items-Keeps request w p)
        (endpoint-Keeps (route request.path) request w p)
  step-Keeps w v (works u) p =
      pass-Keeps d.env d.client d.show_errors P keeps quiet.submits d.worker.batch_size w p
  step-Keeps w v (elsewhere k u) p = keeps k w p

  -- What every call of the repositories keeps holds in every state that is reached.
  reach-Keeps : (w v : World) → Reach d w v → P w.tables → P v.tables
  reach-Keeps w v here p = p
  reach-Keeps w v (next {u = u} path step) p = step-Keeps u v step (reach-Keeps w u path p)

-- From consistent tables, whatever requests are served, whatever passes the worker makes and
-- whatever calls come from elsewhere, in any order and with any faults, and if the client of the
-- chain leaves the tables alone: the tables stay consistent, no row is ever removed, and items
-- keep their hash and content and entries their payload.
pub reachable-IsSound :
    (d : Deployment) (quiet : IsQuiet d.client) (w v : World)
    → IsConsistent w.tables
    → Reach d w v
    → IsConsistent v.tables × Extends w.tables v.tables
reachable-IsSound d quiet w v c path = (
  reach-Keeps d quiet IsConsistent (call-IsConsistent d.env) w v path c,
  reach-Keeps d quiet (Extends w.tables)
      (λ k u h. Extends-trans w.tables u.tables _ h (call-Extends d.env k u)) w v path
      (Extends-refl w.tables),
)
