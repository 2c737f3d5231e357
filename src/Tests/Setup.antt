-- ===== src/Tests/Setup.antt =====
-- The theorems on the start of the process, each at a concrete input.
use testable_rust_architectu.Base.{
  ℕ, ◌+◌, String, true, false, ◌≡◌, refl, inl, Option, none, some, List, [], ◌∷◌, if◌then◌else◌,
  str_eq,
}
use testable_rust_architectu.Base.Show.{show_ℕ}
use testable_rust_architectu.Base.Effects.{ok, err}
use testable_rust_architectu.Domain.Ports.{TransactionSigner}
use testable_rust_architectu.Signer.{Crypto, local_signer_new, signing_key_from_secret, key_array}
use testable_rust_architectu.Rpc.Provider.{HttpOutcome, failed, http_provider}
use testable_rust_architectu.Rpc.Calls.{rpc_client_config_default}
use testable_rust_architectu.Rpc.Build.{Libraries, rpc_client_new, provider_new}
use testable_rust_architectu.Tests.Samples.{sample_sdk}
use testable_rust_architectu.Worker.{worker_config_default}
use testable_rust_architectu.Api.ClientIp.{rate_limit_config_from_env}
use testable_rust_architectu.Setup.{
  Surroundings, Started, start, from_env, load_signer, load_local, issuer_key,
}
use testable_rust_architectu.Setup.Start.{
  IsRunning, IsLimiting, start_ok, load_signer-fallback, fresh_signer,
}

-- A process without a key of its own, with its API key and its database set. Base58 is taken to be
-- one character for each byte.
abbrev set_up : String → Option String
set_up name =
    if str_eq name "DATABASE_URL"
    then some "postgres://localhost/items"
    else if str_eq name "API_AUTH_KEY"
    then some "secret"
    else none

abbrev fresh : List ℕ
fresh =
    1 ∷ 2 ∷ 3 ∷ 4 ∷ 5 ∷ 6 ∷ 7 ∷ 8 ∷ 1 ∷ 2 ∷ 3 ∷ 4 ∷ 5 ∷ 6 ∷ 7 ∷ 8 ∷ 1 ∷ 2 ∷ 3 ∷ 4 ∷ 5 ∷ 6 ∷ 7 ∷ 8
    ∷ 1 ∷ 2 ∷ 3 ∷ 4 ∷ 5 ∷ 6 ∷ 7 ∷ 8 ∷ []

abbrev crypto : Crypto String
crypto = record {
  bs58_decode = λ t. ok fresh;
  bs58_encode = λ bytes. "fresh";
  from_bytes = λ bytes. "key";
  sign = λ key message. 1 ∷ [];
  verifying_key = λ key. 2 ∷ [];
}

-- No node answers.
abbrev unanswered : HttpOutcome
unanswered = failed true "no node"

abbrev libraries : Libraries ℕ
libraries = record {
  build_http_client = λ timeout. ok (λ rpc_url request n. (unanswered, n));
  sdk = sample_sdk;
  sleep = λ d n. n + d;
  instant = λ n. n;
}

abbrev host : Surroundings ℕ String (Unit {0})
host = record {
  var = set_up;
  parse_u16 = λ t. none;
  parse_u32 = λ t. none;
  to_uppercase = λ t. t;
  crypto = crypto;
  generate = λ n. (fresh, n);
  get_public_key = λ id n. (err "no KMS", n);
  kms_sign = λ id m n. (err "no KMS", n);
  sqlx = record { connect = λ config url n. (ok tt, n); migrate = λ pool n. (ok tt, n) };
  libraries = libraries;
}

abbrev started : Started ℕ
started = record {
  config = record {
    database_url = "postgres://localhost/items";
    blockchain_rpc_url = "https://api.devnet.solana.com";
    signer = fresh_signer host fresh;
    api_auth_key = "secret";
    host = "0.0.0.0";
    port = 3000;
    enable_rate_limiting = false;
    rate_limit_config = rate_limit_config_from_env none none;
    enable_background_worker = true;
    worker_config = record worker_config_default { enabled = true };
  };
  client = record {
    provider = http_provider (λ request n. (unanswered, n));
    signer = fresh_signer host fresh;
    config = rpc_client_config_default;
    sdk = sample_sdk;
    sleep = λ d n. n + d;
    instant = λ n. n;
  };
  worker = some (record worker_config_default { enabled = true });
  limits = none;
  address = "0.0.0.0:3000";
}

starts : (start host 0).0 ≡ ok started
unfolding start from_env load_signer load_local issuer_key local_signer_new signing_key_from_secret
    key_array show_ℕ rpc_client_new provider_new
starts = refl

start_ok_example :
    (set_up "DATABASE_URL" ≡ some "postgres://localhost/items")
    × (set_up "API_AUTH_KEY" ≡ some "secret")
    × IsRunning host started.worker
    × IsLimiting host started.limits
    × (started.client.signer ≡ started.config.signer)
    × (started.client.config ≡ rpc_client_config_default)
start_ok_example = start_ok host 0 started starts

load_signer-fallback_example :
    (signer : TransactionSigner ℕ) × (load_signer host 0 ≡ (ok signer, 0))
    × (signer.public_key ≡ "fresh")
load_signer-fallback_example = load_signer-fallback host 0 refl refl refl (inl refl)
