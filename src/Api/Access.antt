-- ===== src/Api/Access.antt =====
-- api/router.rs: who reaches the application through the routers.
use testable_rust_architectu.Base.{
  ℕ, String, true, false, Option, none, ◌≡◌, refl, ◌∙◌, ◌⊎◌, inl, inr, arith, All, Bool-cases,
}
use testable_rust_architectu.Base.Effects.{Result, ok, err, Result-cases}
use testable_rust_architectu.Api.Auth.{IsByte, IsAllowed, auth_middleware-cases}
use testable_rust_architectu.Api.ClientIp.{
  Parsing, RateLimitConfig, Response, client_ip_from_request, unspecified,
  rate_limit_items_middleware, rate_limit_config_from_env,
}
use testable_rust_architectu.Api.Router.{
  AppState, Request, Route, collection, health, live, ready, metrics, other, item, retry, route,
  is_items, endpoint, items_routes, unauthorized, create_router, create_router_with_rate_limit,
}

-- A POST outside the items does nothing.
idle_endpoint :
    {S : Type 0} (app : AppState S) (r : Route) (request : Request) (s : S)
    → request.http.method ≡ "POST"
    → is_items r ≡ false
    → (endpoint app r request s).1 ≡ s
unfolding endpoint
idle_endpoint app collection request s post h = ground arith
idle_endpoint app (item id) request s post h = ground arith
idle_endpoint app (retry id) request s post h = ground arith
idle_endpoint app health request s post h = rw post refl
idle_endpoint app live request s post h = rw post refl
idle_endpoint app ready request s post h = rw post refl
idle_endpoint app metrics request s post h = rw post refl
idle_endpoint app other request s post h = refl

guarded :
    {S : Type 0} (app : AppState S) (request : Request) (s : S)
    → ((t : String) → All IsByte (app.service.sha256 t))
    → ¬ IsAllowed app.service.sha256 app.api_auth_key request.http
    → items_routes app request s ≡ (unauthorized, s)
unfolding items_routes
guarded app request s bytes refused =
    elim (auth_middleware-cases app.service.sha256 app.api_auth_key unauthorized request.http
      (endpoint app (route request.path) request) s bytes) [
        | inl (allowed, _) ↦ absurd (refused allowed)
        | inr (_, answer) ↦ answer
      ]

picked :
    {S : Type 0} (app : AppState S) (request : Request) (s : S)
    → is_items (route request.path) ≡ true
    → create_router app request s ≡ items_routes app request s
unfolding create_router
picked app request s h = rw h refl

-- A POST that is not allowed is refused as unauthorized on the routes of items, and anywhere it
-- leaves the state as it was.
pub unauthorized_post-idle :
    {S : Type 0} (app : AppState S) (request : Request) (s : S)
    → ((t : String) → All IsByte (app.service.sha256 t))
    → request.http.method ≡ "POST"
    → ¬ IsAllowed app.service.sha256 app.api_auth_key request.http
    → ((is_items (route request.path) ≡ true) × (create_router app request s ≡ (unauthorized, s)))
      ⊎ ((is_items (route request.path) ≡ false) × ((create_router app request s).1 ≡ s))
unfolding create_router
unauthorized_post-idle app request s bytes post refused =
    elim (Bool-cases (is_items (route request.path))) [
      | inl h ↦ inl (h, picked app request s h ∙ guarded app request s bytes refused)
      | inr h ↦ inr (h, rw h (idle_endpoint app (route request.path) request s post h))
    ]

-- Answered with status 429 in the state `s1`.
abbrev pub IsLimited : {S : Type 0} → Response × S → S → Type 0
IsLimited (response, s') s1 = (response.status ≡ 429) × (s' ≡ s1)

-- Answered as `answer`, but for the headers.
abbrev pub IsPassed : {S : Type 0} → Response × S → Response × S → Type 0
IsPassed (response, s') (inner, s2) =
    (response.status ≡ inner.status) × (response.body ≡ inner.body) × (s' ≡ s2)

module _ {S : Type 0} (app : AppState S) (std : Parsing)
    (check_items check_health : String → S → Result ℕ (Unit {0}) × S) (limited : ℕ → String) where
  -- A request for items goes on to authentication and to its handler, in the state after the check
  -- of its address, exactly if the limiter allows the address; else it is answered with status 429,
  -- and nothing is run for it.
  pub items_limit-cases :
      (config : RateLimitConfig) (request : Request) (s : S)
      → is_items (route request.path) ≡ true
      → let (checked, s1) =
          check_items (client_ip_from_request std request.peer config.trust_proxy_headers) s in
        let answer =
          create_router_with_rate_limit app std check_items check_health limited config request s in
        ((checked ≡ ok tt) × IsPassed answer (items_routes app request s1))
        ⊎ ((wait : ℕ) × (checked ≡ err wait) × IsLimited answer s1)
  unfolding create_router_with_rate_limit rate_limit_items_middleware
  items_limit-cases config request s h =
      let (checked, s1) =
        check_items (client_ip_from_request std request.peer config.trust_proxy_headers) s in
      elim (Result-cases checked) [
        | inl (wait, e) ↦ inr (wait, e, ground arith)
        | inr (_, e) ↦ inl (e, ground arith)
      ]

  -- With the configuration that the process reads from its environment, and requests without the
  -- address of their peer, as the process serves them: once one client has used up the limit of
  -- the address 0.0.0.0, every request for items is answered with status 429, whoever sends it.
  pub limit-Shared :
      (rps burst : Option ℕ) (request : Request) (s : S) (wait : ℕ)
      → request.peer.connect_info ≡ none
      → request.peer.socket_addr ≡ none
      → is_items (route request.path) ≡ true
      → (check_items unspecified s).0 ≡ err wait
      → IsLimited
          (create_router_with_rate_limit app std check_items check_health limited
            (rate_limit_config_from_env rps burst)
            request
            s)
          (check_items unspecified s).1
  unfolding create_router_with_rate_limit rate_limit_items_middleware client_ip_from_request
      rate_limit_config_from_env
  limit-Shared rps burst request s wait no_peer no_addr h used = ground arith
