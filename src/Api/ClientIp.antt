-- ===== src/Api/ClientIp.antt =====
-- api/router.rs: the address that requests are counted under, and the two rate limits.
use testable_rust_architectu.Base.{
  ℕ, String, Bool, false, Option, none, some, List, [], ◌∷◌, ◌≡◌, ◌⊎◌, if◌then◌else◌, arith, keep,
  not, str_eq,
}
use testable_rust_architectu.Base.Show.{show_ℕ}
use testable_rust_architectu.Base.Effects.{Result, ok, err}

-- The parsing of texts that the standard library does: the first part before a comma, `trim`, and
-- `parse::<IpAddr>`.
pub record Parsing : Type 0 where
  pub first_part : String → String
  pub trim : String → String
  pub parse_ip : String → Option String

-- Of a request: the peer of the connection by `ConnectInfo`, a `SocketAddr` extension, and the two
-- headers where they are texts. An address is its text.
pub record IpRequest : Type 0 where
  pub connect_info : Option String
  pub socket_addr : Option String
  pub forwarded_for : Option String
  pub real_ip : Option String

abbrev or_else : {A : Type 0} → Option A → Option A → Option A
or_else none b = b
or_else (some a) b = some a

abbrev and_then : {A B : Type 0} → Option A → (A → Option B) → Option B
and_then none f = none
and_then (some a) f = f a

abbrev unwrap_or : {A : Type 0} → Option A → A → A
unwrap_or none d = d
unwrap_or (some a) d = a

abbrev pub unspecified : String
unspecified = "0.0.0.0"

abbrev pub from_headers : Parsing → IpRequest → Option String
from_headers std request =
    or_else (and_then request.forwarded_for (λ s. std.parse_ip (std.trim (std.first_part s))))
      (and_then request.real_ip (λ s. std.parse_ip (std.trim s)))

unfoldable pub client_ip_from_request : Parsing → IpRequest → Bool → String
client_ip_from_request std request trust_proxy_headers =
    let proxied = if trust_proxy_headers then from_headers std request else none in
    unwrap_or (or_else request.connect_info (or_else request.socket_addr proxied)) unspecified

pub record RateLimitConfig : Type 0 where
  pub general_rps : ℕ
  pub general_burst : ℕ
  pub health_rps : ℕ
  pub health_burst : ℕ
  pub trust_proxy_headers : Bool

-- `RateLimitConfig::default`.
unfoldable pub rate_limit_config_default : RateLimitConfig
rate_limit_config_default = record {
  general_rps = 10;
  general_burst = 20;
  health_rps = 100;
  health_burst = 100;
  trust_proxy_headers = false;
}

-- `RateLimitConfig::from_env`, from the numbers that the two variables parse to.
unfoldable pub rate_limit_config_from_env : Option ℕ → Option ℕ → RateLimitConfig
rate_limit_config_from_env rps burst = record {
  general_rps = unwrap_or rps 10;
  general_burst = unwrap_or burst 20;
  health_rps = 100;
  health_burst = 100;
  trust_proxy_headers = false;
}

-- The status, the headers that are inserted, and the body.
pub record Response : Type 0 where
  pub status : ℕ
  pub headers : List (String × String)
  pub body : String

-- `HeaderMap::insert`, which replaces what stands under the name.
abbrev pub with_header : String → String → Response → Response
with_header name value r = record r {
  headers = (name, value) ∷ keep (λ h. not (str_eq h.0 name)) r.headers;
}

-- The limiters of `governor`: a check of an address allows the request or gives the seconds until
-- the next. `limited` encodes the body of a refusal.
module _ {S : Type 0} (std : Parsing) (check_key : String → S → Result ℕ (Unit {0}) × S)
    (limited : ℕ → String) (config : RateLimitConfig) where
  unfoldable pub rate_limit_items_middleware : IpRequest → (S → Response × S) → S → Response × S
  unfolding client_ip_from_request
  rate_limit_items_middleware request next s =
      let (checked, s1) =
        check_key (client_ip_from_request std request config.trust_proxy_headers) s in
      elim checked [
        | ok _ ↦
            let (response, s2) = next s1 in
            (with_header "X-RateLimit-Limit" (show_ℕ config.general_rps) response, s2)
        | err retry_after ↦ (
          with_header "Retry-After" (show_ℕ retry_after) (
              with_header "X-RateLimit-Remaining" "0" (
                with_header "X-RateLimit-Limit" (show_ℕ config.general_rps)
                  (record { status = 429; headers = []; body = limited retry_after }))),
          s1,
        )
      ]

  unfoldable pub rate_limit_health_middleware : IpRequest → (S → Response × S) → S → Response × S
  unfolding client_ip_from_request
  rate_limit_health_middleware request next s =
      let (checked, s1) =
        check_key (client_ip_from_request std request config.trust_proxy_headers) s in
      elim checked [
        | ok _ ↦ next s1
        | err retry_after ↦ (
          with_header "Retry-After" (show_ℕ retry_after)
              (record { status = 429; headers = []; body = limited retry_after }),
          s1,
        )
      ]

-- Requests of one peer are counted under one address whatever their headers say, unless the
-- configuration trusts the headers and the peer is not known.
pub client_ip-unspoofable :
    (std : Parsing) (a b : IpRequest) (trust_proxy_headers : Bool)
    → a.connect_info ≡ b.connect_info
    → a.socket_addr ≡ b.socket_addr
    → (trust_proxy_headers ≡ false)
      ⊎ ((ip : String) × ((a.connect_info ≡ some ip) ⊎ (a.socket_addr ≡ some ip)))
    → client_ip_from_request std a trust_proxy_headers
      ≡ client_ip_from_request std b trust_proxy_headers
unfolding client_ip_from_request
client_ip-unspoofable std a b trust_proxy_headers p q h = ground arith
