-- ===== src/Api/Router.antt =====
-- api/router.rs: the two routers, over any application service. What axum does is written out as
-- far as the code relies on it: the match of the path, the method of a route, the order of layers.
use testable_rust_architectu.Base.{
  ℕ, String, Bool, true, false, ◌||◌, ◌&&◌, not, Option, none, some, List, [], ◌∷◌, if◌then◌else◌,
  str_eq, ◌==◌,
}
use testable_rust_architectu.Base.Effects.{Action, Result, ok, err}
use testable_rust_architectu.Domain.Items.{
  Item, CreateItemRequest, PaginationParams, PaginatedResponse,
}
use testable_rust_architectu.Domain.Health.{HealthResponse}
use testable_rust_architectu.Service.{AppService}
use testable_rust_architectu.Api.Responses.{
  ErrorResponse, item_error_into_response, create_item_error_into_response,
}
use testable_rust_architectu.Api.Handlers.{
  create_item_handler, list_items_handler, get_item_handler, retry_blockchain_handler,
  health_check_handler, readiness_handler, liveness_handler,
}
use testable_rust_architectu.Api.Auth.{HttpRequest, auth_middleware}
use testable_rust_architectu.Api.ClientIp.{
  Parsing, IpRequest, RateLimitConfig, Response, rate_limit_items_middleware,
  rate_limit_health_middleware,
}

-- A request: the segments of its path, what authentication and the count of requests look at, and
-- what the extractors of axum make of the body and of the query, a value or a refusal.
pub record Request : Type 0 where
  pub path : List String
  pub http : HttpRequest
  pub peer : IpRequest
  pub payload : Result Response CreateItemRequest
  pub params : Result Response PaginationParams

pub data Route : Type 0 where
  collection health live ready metrics other : Route
  item retry : String → Route

-- A parameter of a path takes a segment that is not empty.
unfoldable pub route : List String → Route
route [] = other
route (a ∷ []) =
    if str_eq a "items"
    then collection
    else if str_eq a "health"
    then health
    else if str_eq a "metrics"
    then metrics
    else other
route (a ∷ b ∷ []) =
    if str_eq a "items" && not (str_eq b "")
    then item b
    else if str_eq a "health" && str_eq b "live"
    then live
    else if str_eq a "health" && str_eq b "ready"
    then ready
    else other
route (a ∷ b ∷ c ∷ []) =
    if str_eq a "items" && (str_eq c "retry" && not (str_eq b "")) then retry b else other
route (a ∷ b ∷ c ∷ d ∷ path) = other

abbrev pub is_items : Route → Bool
is_items collection = true
is_items (item id) = true
is_items (retry id) = true
is_items _ = false

abbrev pub is_health : Route → Bool
is_health health = true
is_health live = true
is_health ready = true
is_health _ = false

-- A route of `get` answers HEAD as well.
abbrev pub reads : String → Bool
reads method = str_eq method "GET" || str_eq method "HEAD"

abbrev pub plain : ℕ → String → Response
plain status body = record { status = status; headers = []; body = body }

abbrev pub method_not_allowed : Response
method_not_allowed = plain 405 ""

abbrev pub unauthorized : Response
unauthorized = plain 401 "Unauthorized"

-- The state of the application, and the encoders of serde.
pub record AppState (S : Type 0) : Type 0 where
  pub service : AppService S
  pub api_auth_key : String
  -- What the handle of the metrics renders, if there is one.
  pub metrics : Option (S → String)
  pub show_item : Item → String
  pub show_page : PaginatedResponse Item → String
  pub show_health : HealthResponse → String
  pub show_error : ErrorResponse → String
  -- What lies outside the routes: the documentation, and 404.
  pub fallback : List String → Response

module _ {S : Type 0} (app : AppState S) where
  abbrev error_reply : ErrorResponse → Response
  error_reply e = plain e.status (app.show_error e)

  -- What `Result<Json<A>, E>` turns into.
  abbrev reply :
      {E A : Type 0} → (A → String) → (E → ErrorResponse) → Action S E A → S → Response × S
  reply show fail action s =
      let (r, s') = action s in
      (elim r [ ok a ↦ plain 200 (show a) | err e ↦ error_reply (fail e) ], s')

  abbrev pub extracted :
      {A : Type 0} → Result Response A → (A → S → Response × S) → S → Response × S
  extracted (ok a) handler s = handler a s
  extracted (err refusal) handler s = (refusal, s)

  unfoldable pub metrics_handler : S → Response × S
  metrics_handler s = elim app.metrics [
    | none ↦ (plain 404 "", s)
    | some render ↦ (
      record {
        status = 200;
        headers = ("content-type", "text/plain; version=0.0.4; charset=utf-8") ∷ [];
        body = render s;
      },
      s,
    )
  ]

  -- The handler of a route, by the method.
  unfoldable pub endpoint : Route → Request → S → Response × S
  unfolding metrics_handler
  endpoint collection request s =
      if str_eq request.http.method "POST"
      then extracted request.payload
          (λ p.
            reply app.show_item create_item_error_into_response (create_item_handler app.service p))
          s
      else if reads request.http.method
      then extracted request.params
          (λ p. reply app.show_page item_error_into_response (list_items_handler app.service p)) s
      else (method_not_allowed, s)
  endpoint (item id) request s =
      if reads request.http.method
      then reply app.show_item item_error_into_response (get_item_handler app.service id) s
      else (method_not_allowed, s)
  endpoint (retry id) request s =
      if str_eq request.http.method "POST"
      then reply app.show_item item_error_into_response (retry_blockchain_handler app.service id) s
      else (method_not_allowed, s)
  endpoint health request s =
      if reads request.http.method
      then (let (h, s') = health_check_handler app.service s in (plain 200 (app.show_health h), s'))
      else (method_not_allowed, s)
  endpoint live request s =
      if reads request.http.method then (plain liveness_handler "", s) else (method_not_allowed, s)
  endpoint ready request s =
      if reads request.http.method
      then (let (status, s') = readiness_handler app.service s in (plain status "", s'))
      else (method_not_allowed, s)
  endpoint metrics request s =
      if reads request.http.method then metrics_handler s else (method_not_allowed, s)
  endpoint other request s = (app.fallback request.path, s)

  -- The items behind the authentication.
  unfoldable pub items_routes : Request → S → Response × S
  unfolding route
  items_routes request =
      auth_middleware app.service.sha256 app.api_auth_key unauthorized request.http
        (endpoint (route request.path) request)

  unfoldable pub create_router : Request → S → Response × S
  unfolding items_routes
  create_router request s =
      if is_items (route request.path)
      then items_routes request s
      else endpoint (route request.path) request s

  -- The limiters are those of `RateLimitState`.
  module _ (std : Parsing) (check_items check_health : String → S → Result ℕ (Unit {0}) × S)
      (limited : ℕ → String) (config : RateLimitConfig) where
    unfoldable pub create_router_with_rate_limit : Request → S → Response × S
    unfolding items_routes rate_limit_items_middleware rate_limit_health_middleware
    create_router_with_rate_limit request s =
        if is_items (route request.path)
        then rate_limit_items_middleware std check_items limited config request.peer
            (items_routes request) s
        else if is_health (route request.path)
        then rate_limit_health_middleware std check_health limited config request.peer
            (endpoint (route request.path) request) s
        else endpoint (route request.path) request s

-- `RateLimitState::new`: the burst and the rate of both limiters; a zero panics.
pub record Quota : Type 0 where
  pub per_second : ℕ
  pub burst : ℕ

abbrev quota : ℕ → ℕ → Option Quota
quota per_second burst =
    if per_second == 0 || burst == 0
    then none
    else some (record { per_second = per_second; burst = burst })

unfoldable pub rate_limit_state_new : RateLimitConfig → Option (Quota × Quota)
rate_limit_state_new config = elim (quota config.general_rps config.general_burst) [
  | none ↦ none
  | some items ↦ elim (quota config.health_rps config.health_burst) [
    | none ↦ none
    | some probes ↦ some (items, probes)
  ]
]
