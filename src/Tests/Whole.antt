-- ===== src/Tests/Whole.antt =====
-- The theorems on the mocks, on what the client sends, on the routers and on the whole service, each
-- at a concrete input.
use testable_rust_architectu.Base.{
  ℕ, ◌+◌, ◌*◌, ◌≤◌, String, ◌≡◌, refl, ◌⊎◌, inl, inr, Bool, true, false, Option, none, some, List,
  [], ◌∷◌, arith, All, zero, suc, if◌then◌else◌, str_eq,
}
use testable_rust_architectu.Base.Effects.{Result, ok, err}
use testable_rust_architectu.World.{World}
use testable_rust_architectu.Domain.Errors.{BlockchainError, timeout}
use testable_rust_architectu.Postgres.Invariant.{IsConsistent}
use testable_rust_architectu.Postgres.Keeps.{
  Call, call, calls, claims, creates, completes as completes_call,
}
use testable_rust_architectu.Postgres.History.{Extends, calls-Extend}
use testable_rust_architectu.Rpc.Client.{
  RpcBlockchainClient, submit_transaction, poll, blockchain_client,
}
use testable_rust_architectu.Rpc.Waiting.{IsClock}
use testable_rust_architectu.Rpc.Requests.{IsCounted, requests-Bounded}
use testable_rust_architectu.Service.Requests.{postgres_app}
use testable_rust_architectu.Worker.{process_batch}
use testable_rust_architectu.Api.Auth.{IsByte, IsAllowed}
use testable_rust_architectu.Api.Layers.{
  Observed, uri_path, observe_all, IsObserved, observe_all-IsObserved,
}
use testable_rust_architectu.Api.ClientIp.{
  Parsing, IpRequest, RateLimitConfig, client_ip_from_request, rate_limit_config_from_env,
}
use testable_rust_architectu.Api.Router.{
  AppState, Request, route, is_items, unauthorized, items_routes, create_router,
  create_router_with_rate_limit,
}
use testable_rust_architectu.Api.Access.{
  IsLimited, IsPassed, unauthorized_post-idle, items_limit-cases, limit-Shared,
}
use testable_rust_architectu.System.{
  Deployment, app_state, Reach, here, next, serves, works, elsewhere,
}
use testable_rust_architectu.System.Invariant.{reachable-IsSound}
use testable_rust_architectu.System.Client.{rpc_client-IsQuiet}
use testable_rust_architectu.Tests.Samples.{
  calm, stored_world, stored_world-IsConsistent, live, quiet, client_with, request, show_nothing,
}

-- A client that counts its requests, of which the first fails, and that has a clock.
abbrev counted_client : RpcBlockchainClient (ℕ × ℕ)
counted_client =
    record (client_with (record {
      send_request = λ method params (n, at).
          (elim n [ zero ↦ err (timeout "no answer" "") | suc m ↦ ok "answer" ], (n + 1, at));
    })) { sleep = λ t (n, at). (n, at + t); instant = λ (n, at). at }

counted_client-IsCounted : IsCounted counted_client (λ s. s.0)
counted_client-IsCounted = record {
  asks = λ method params s. omega arith;
  sleeps = λ t s. omega arith;
  signs = λ m s. omega arith;
}

counted_client-IsClock : IsClock counted_client
counted_client-IsClock = record {
  exchange = λ method params s. omega arith;
  sleeps = λ t s. omega arith;
}

requests-Bounded_example :
    ((submit_transaction counted_client "memo" none (0, 0)).1.0 ≤ 0 + 4)
    × ((o : Result BlockchainError Bool × (ℕ × ℕ)) × (poll counted_client 9 "signature" 2 0 (0, 0)
          ≡ some o)
        × (o.1.0 ≤ 0 + (2 * 2 + 1) * (1 + 1)))
requests-Bounded_example =
    requests-Bounded counted_client (λ s. s.0) counted_client-IsCounted counted_client-IsClock
      "memo" none "signature" 2 (0, 0) 9 (omega arith)

abbrev some_calls : List Call
some_calls = claims 5 ∷ creates request ∷ completes_call "e" "i" "signature" ∷ []

calls-Extend_example : Extends stored_world.tables (calls calm some_calls stored_world).tables
calls-Extend_example = calls-Extend calm some_calls stored_world

-- A state of the application, and requests for it.
abbrev state : AppState World
state = record {
  service = postgres_app calm quiet show_nothing;
  api_auth_key = "secret";
  metrics = none;
  show_item = λ i. i.id;
  show_page = λ p. "page";
  show_health = λ h. "health";
  show_error = λ e. e.message;
  fallback = λ path. record { status = 404; headers = []; body = "" };
}

abbrev nobody : IpRequest
nobody = record {
  connect_info = none;
  socket_addr = none;
  forwarded_for = some "9.9.9.9";
  real_ip = none;
}

abbrev posting : Option String → Request
posting key = record {
  path = "items" ∷ [];
  http = record { method = "POST"; api_key = key };
  peer = nobody;
  payload = ok request;
  params = err (record { status = 400; headers = []; body = "" });
}

digest_bytes : (t : String) → All IsByte (calm.sha256 t)
digest_bytes t = (omega arith, tt)

-- Under this digest every key is the expected one, so only a request without a key is refused.
keyless : ¬ IsAllowed calm.sha256 "secret" (posting none).http
keyless (inl other) = other refl
keyless (inr (provided, e, same)) = cc

unauthorized_post-idle_example :
    ((is_items (route ("items" ∷ [])) ≡ true)
      × (create_router state (posting none) stored_world ≡ (unauthorized, stored_world)))
    ⊎ ((is_items (route ("items" ∷ [])) ≡ false)
        × ((create_router state (posting none) stored_world).1 ≡ stored_world))
unauthorized_post-idle_example =
    unauthorized_post-idle state (posting none) stored_world digest_bytes refl keyless

abbrev parsing : Parsing
parsing = record { first_part = λ t. t; trim = λ t. t; parse_ip = λ t. some t }

-- A limiter that allows one address only.
abbrev only : String → String → World → Result ℕ (Unit {0}) × World
only allowed ip w = (if str_eq ip allowed then ok tt else err 7, w)

abbrev waiting : ℕ → String
waiting n = "wait"

abbrev trusting : RateLimitConfig
trusting = record {
  general_rps = 10;
  general_burst = 20;
  health_rps = 100;
  health_burst = 100;
  trust_proxy_headers = true;
}

items_route : is_items (route ("items" ∷ [])) ≡ true
unfolding route
items_route = refl

items_limit-cases_example :
    let (checked, s1) = only "1.1.1.1" (client_ip_from_request parsing nobody true) stored_world in
    let answer =
      create_router_with_rate_limit state parsing
        (only "1.1.1.1")
        (only "1.1.1.1")
        waiting
        trusting
        (posting none)
        stored_world in
    ((checked ≡ ok tt) × IsPassed answer (items_routes state (posting none) s1))
    ⊎ ((wait : ℕ) × (checked ≡ err wait) × IsLimited answer s1)
items_limit-cases_example =
    items_limit-cases state parsing (only "1.1.1.1") (only "1.1.1.1") waiting trusting
      (posting none) stored_world items_route

limit-Shared_example :
    IsLimited
      (create_router_with_rate_limit state parsing
        (only "1.1.1.1")
        (only "1.1.1.1")
        waiting
        (rate_limit_config_from_env none none)
        (posting none)
        stored_world)
      stored_world
limit-Shared_example =
    limit-Shared state parsing (only "1.1.1.1") (only "1.1.1.1") waiting none none (posting none)
      stored_world 7 refl refl items_route refl

abbrev deployment : Deployment
deployment = record {
  env = calm;
  client = blockchain_client live;
  show_errors = show_nothing;
  state = state;
  worker = record { poll_interval = 10; batch_size = 10; enabled = true };
}

-- A request without a key, a pass of the worker, and a claim from elsewhere.
abbrev final : World
final = call calm (claims 3) (
    process_batch (postgres_app calm (blockchain_client live) show_nothing) deployment.worker
      (create_router (app_state deployment) (posting none) stored_world).1)

reached : Reach deployment stored_world final
reached = next (next (next here (serves (posting none) _)) (works _)) (elsewhere (claims 3) _)

reachable-IsSound_example : IsConsistent final.tables × Extends stored_world.tables final.tables
reachable-IsSound_example =
    reachable-IsSound deployment
      (rpc_client-IsQuiet live (λ method params w. refl) (λ t w. refl) (λ m w. refl)) stored_world
      final stored_world-IsConsistent reached

-- Two requests without a key, of which the second takes too long.
abbrev first_cut : Request → World → Option World
first_cut r w = if str_eq (uri_path r.path) "/items/slow" then some w else none

abbrev two_posts : List Request
two_posts = posting none ∷ record (posting none) { path = "items" ∷ "slow" ∷ [] } ∷ []

abbrev unobserved : Observed World
unobserved = record { state = stored_world; samples = [] }

observe_all-IsObserved_example :
    IsObserved
      (create_router state)
      (λ w. w.ticks)
      first_cut
      (λ path. false)
      two_posts
      unobserved
      (observe_all
        (create_router state)
        (λ w. w.ticks)
        first_cut
        (λ path. false)
        two_posts
        unobserved)
observe_all-IsObserved_example =
    observe_all-IsObserved (create_router state) (λ w. w.ticks) first_cut (λ path. false) two_posts
      unobserved (refl, (refl, tt))
