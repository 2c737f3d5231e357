-- ===== src/Setup.antt =====
-- src/main.rs: the configuration from the environment, and what the process starts.
pub mod Start
use testable_rust_architectu.Base.{
  ℕ, String, Bool, true, false, ◌&&◌, ◌||◌, not, Option, none, some, List, [], ◌∷◌, concat,
  if◌then◌else◌, str_eq,
}
use testable_rust_architectu.Base.Show.{show_ℕ}
use testable_rust_architectu.Base.Effects.{
  Action, Result, ok, err, lift, ok_or, pure, raise, gets, map_err, map_err_result, ◌>>=◌, ◌>>◌,
}
use testable_rust_architectu.Domain.Errors.{BlockchainError}
use testable_rust_architectu.Domain.Items.{Time, seconds}
use testable_rust_architectu.Domain.Ports.{TransactionSigner}
use testable_rust_architectu.Signer.{Crypto, local_signer_new, kms_signer_new}
use testable_rust_architectu.Postgres.Pool.{
  PostgresInitError, Sqlx, postgres_config_default, postgres_client_new, run_migrations,
}
use testable_rust_architectu.Worker.{WorkerConfig, worker_config_default}
use testable_rust_architectu.Rpc.Client.{RpcBlockchainClient}
use testable_rust_architectu.Rpc.Build.{Libraries, rpc_client_with_defaults}
use testable_rust_architectu.Api.ClientIp.{RateLimitConfig, rate_limit_config_from_env}
use testable_rust_architectu.Api.Router.{Quota, rate_limit_state_new}

-- Why the process does not start. A message is that of `context`.
pub data StartError : Type 0 where
  missing : String → StartError
  signer_failed : String → BlockchainError → StartError
  invalid_signer_type : String → StartError
  database_failed : PostgresInitError → StartError
  client_failed : BlockchainError → StartError
  -- `NonZeroU32::new(0).unwrap()`.
  panicked : StartError

-- What the process finds: the variables that are set and are texts, the parsers of the standard
-- library, the cryptography with a source of fresh keys, AWS KMS, sqlx and what the client of the
-- chain stands on.
pub record Surroundings (S Key Pool : Type 0) : Type 0 where
  pub var : String → Option String
  pub parse_u16 : String → Option ℕ
  pub parse_u32 : String → Option ℕ
  pub to_uppercase : String → String
  pub crypto : Crypto Key
  pub generate : S → List ℕ × S
  pub get_public_key : String → Action S String (Option (List ℕ))
  pub kms_sign : String → String → Action S String (Option (List ℕ))
  pub sqlx : Sqlx S Pool
  pub libraries : Libraries S

pub record Config (S : Type 0) : Type 0 where
  pub database_url : String
  pub blockchain_rpc_url : String
  pub signer : TransactionSigner S
  pub api_auth_key : String
  pub host : String
  pub port : ℕ
  pub enable_rate_limiting : Bool
  pub rate_limit_config : RateLimitConfig
  pub enable_background_worker : Bool
  pub worker_config : WorkerConfig

abbrev pub or_default : {A : Type 0} → A → Option A → A
or_default d none = d
or_default d (some a) = a

abbrev parsed : {A : Type 0} → (String → Option A) → Option String → Option A
parsed parse none = none
parsed parse (some t) = parse t

-- `v == "true" || v == "1"`, or the default.
abbrev pub flag : Bool → Option String → Bool
flag d none = d
flag d (some v) = str_eq v "true" || str_eq v "1"

abbrev pub placeholder : String
placeholder = "YOUR_BASE58_ENCODED_PRIVATE_KEY_HERE"

-- What the process has started: the client of the chain, the worker, the rates of the limiters, and the address.
pub record Started (S : Type 0) : Type 0 where
  pub config : Config S
  pub client : RpcBlockchainClient S
  pub worker : Option WorkerConfig
  pub limits : Option (Quota × Quota)
  pub address : String

module _ {S Key Pool : Type 0} (os : Surroundings S Key Pool) where
  -- A key that is set, not empty and not the placeholder; else a fresh one.
  unfoldable pub issuer_key : Option String → S → String × S
  issuer_key none s = let (bytes, s') = os.generate s in (os.crypto.bs58_encode bytes, s')
  issuer_key (some t) s =
      if not (str_eq t "") && not (str_eq t placeholder)
      then (t, s)
      else (let (bytes, s') = os.generate s in (os.crypto.bs58_encode bytes, s'))

  unfoldable pub load_local : Action S StartError (TransactionSigner S)
  unfolding issuer_key
  load_local s =
      let (key, s') = issuer_key (os.var "ISSUER_PRIVATE_KEY") s in
      (
        map_err_result (signer_failed "Failed to parse ISSUER_PRIVATE_KEY")
            (local_signer_new os.crypto key),
        s',
      )

  unfoldable pub load_kms : Action S StartError (TransactionSigner S)
  load_kms = do
    key_id ← ok_or (os.var "KMS_KEY_ID") (missing "KMS_KEY_ID required when SIGNER_TYPE=KMS")
    map_err (signer_failed "Failed to initialize AWS KMS signer")
        (kms_signer_new os.crypto os.get_public_key os.kms_sign key_id)

  unfoldable pub load_signer : Action S StartError (TransactionSigner S)
  load_signer =
      let kind = os.to_uppercase (or_default "LOCAL" (os.var "SIGNER_TYPE")) in
      if str_eq kind "LOCAL"
      then load_local
      else if str_eq kind "KMS"
      then load_kms
      else raise (invalid_signer_type kind)

  unfoldable pub from_env : Action S StartError (Config S)
  unfolding worker_config_default rate_limit_config_from_env
  from_env = do
    database_url ← ok_or (os.var "DATABASE_URL") (missing "DATABASE_URL not set")
    signer ← load_signer
    api_auth_key ←
        ok_or (os.var "API_AUTH_KEY")
          (missing "API_AUTH_KEY not set - security requires this environment variable")
    let enable_background_worker = flag true (os.var "ENABLE_BACKGROUND_WORKER")
    pure (record {
      database_url = database_url;
      blockchain_rpc_url = or_default "https://api.devnet.solana.com" (os.var "SOLANA_RPC_URL");
      signer = signer;
      api_auth_key = api_auth_key;
      host = or_default "0.0.0.0" (os.var "HOST");
      port = or_default 3000 (parsed os.parse_u16 (os.var "PORT"));
      enable_rate_limiting = flag false (os.var "ENABLE_RATE_LIMITING");
      rate_limit_config =
          rate_limit_config_from_env (parsed os.parse_u32 (os.var "RATE_LIMIT_RPS"))
            (parsed os.parse_u32 (os.var "RATE_LIMIT_BURST"));
      enable_background_worker = enable_background_worker;
      worker_config = record worker_config_default { enabled = enable_background_worker };
    })

  abbrev pub limiters : Config S → Result StartError (Option (Quota × Quota))
  limiters config =
      if config.enable_rate_limiting
      then elim (rate_limit_state_new config.rate_limit_config) [
        | none ↦ err panicked
        | some quotas ↦ ok (some quotas)
      ]
      else ok none

  -- `main`, up to serving.
  unfoldable pub start : Action S StartError (Started S)
  unfolding from_env rpc_client_with_defaults rate_limit_state_new postgres_client_new
      run_migrations
  start = do
    config ← from_env
    pool ←
        map_err database_failed
          (postgres_client_new os.sqlx config.database_url postgres_config_default)
    map_err database_failed (run_migrations os.sqlx pool)
    client ← lift (
        map_err_result client_failed
          (rpc_client_with_defaults os.libraries config.blockchain_rpc_url config.signer))
    limits ← lift (limiters config)
    pure (record {
      config = config;
      client = client;
      worker = if config.enable_background_worker then some config.worker_config else none;
      limits = limits;
      address = concat (config.host ∷ ":" ∷ show_ℕ config.port ∷ []);
    })
