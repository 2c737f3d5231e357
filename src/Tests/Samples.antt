-- ===== src/Tests/Samples.antt =====
-- An environment, a client of the chain, a request and an entry to run the program on.
use testable_rust_architectu.Base.{
  ◌+◌, String, refl, true, false, none, some, List, [], ◌∷◌, ltb, str_eq, if◌then◌else◌,
}
use testable_rust_architectu.Base.Show.{show_ℕ}
use testable_rust_architectu.Base.Effects.{ok, err}
use testable_rust_architectu.Domain.Status.{processing}
use testable_rust_architectu.Domain.Items.{CreateItemRequest, SolanaOutboxEntry, seconds}
use testable_rust_architectu.Domain.Validation.{FieldError}
use testable_rust_architectu.Domain.Ports.{
  BlockchainClient, get_transaction_status_default, get_block_height_default,
  get_latest_blockhash_default, wait_for_confirmation_default,
}
use testable_rust_architectu.World.{World, Env}
use testable_rust_architectu.Postgres.Invariant.{IsConsistent}
use testable_rust_architectu.Rpc.Provider.{SolanaRpcProvider, JsonRpcRequest, HttpOutcome, failed}
use testable_rust_architectu.Rpc.Client.{Sdk, RpcBlockchainClient}
use Prim.Native.String.{len}

-- Every call succeeds, and the clock shows the number of the interaction.
abbrev pub calm : Env
calm = record {
  utc_now = seconds;
  utc_exact = λ n. seconds n + 7;
  db_now = seconds;
  uuid = show_ℕ;
  fault = λ n. none;
  commit_applied = λ n. true;
  locked = λ n id. false;
  text_lt = λ a b. ltb (len a) (len b);
  metadata_to_value = λ m. none;
  metadata_from_value = λ v. none;
  payload_to_json = λ p. p.hash;
  payload_from_json = λ t. some (record { hash = t });
  sha256 = λ t. 7 ∷ [];
  version = "0.1.0";
}

abbrev pub empty_world : World
empty_world = record { tables = record { items = []; outbox = [] }; ticks = 0 }

abbrev pub request : CreateItemRequest
request = record { name = "name"; description = some "text"; content = "content"; metadata = none }

abbrev pub show_nothing : List FieldError → String
show_nothing es = "invalid"

abbrev pub sample_sdk : Sdk
sample_sdk = record {
  pubkey_from_str = λ t. ok t;
  hash_from_str = λ t. if str_eq t "" then err "no hash" else ok t;
  new_message = λ program memo payer blockhash. memo;
  bs58_decode = λ t. ok t;
  signature_try_from = λ t. ok t;
  replace_signatures = λ m p s. ok m;
  serialize = λ t. ok t;
  bs58_encode = λ t. t;
  to_lowercase = λ t. t;
  no_params = "[]";
  balance_params = λ t. t;
  send_params = λ t. t;
  status_params = λ t. t;
  decode_u64 = λ t. ok 0;
  decode_text = λ t. ok t;
  decode_balance = λ t. ok none;
  decode_blockhash = λ t. ok t;
  decode_statuses = λ t. ok [];
}

abbrev pub client_with : {S : Type 0} → SolanaRpcProvider S → RpcBlockchainClient S
client_with provider = record {
  provider = provider;
  signer = record { sign_message = λ m s. (ok "signature", s); public_key = "key" };
  config = record { timeout = 1; max_retries = 1; retry_delay = 1; confirmation_timeout = 1 };
  sdk = sample_sdk;
  sleep = λ t s. s;
  instant = λ s. 0;
}

-- A node that answers every request, and one that times out.
abbrev pub live : RpcBlockchainClient World
live = client_with (record { send_request = λ method params s. (ok "answer", s) })

abbrev pub silent : JsonRpcRequest → World → HttpOutcome × World
silent r s = (failed true "timed out", s)

abbrev pub entry : SolanaOutboxEntry
entry = record {
  id = "e";
  aggregate_id = "i";
  payload = record { hash = "07" };
  status = processing;
  retry_count = 0;
  attempt_blockhash = none;
  created_at = 0;
}

-- An item that has failed, and its outbox entry, which still waits.
abbrev pub stored_world : World
stored_world = record {
  tables = record {
    items =
        record {
          id = "i";
          hash = "hash_i";
          name = "name";
          description = none;
          content = "content";
          metadata = none;
          blockchain_status = "failed";
          blockchain_signature = none;
          blockchain_retry_count = 10;
          blockchain_last_error = some "no funds";
          blockchain_next_retry_at = none;
          created_at = 0;
          updated_at = 0;
        }
        ∷ [];
    outbox =
        record {
          id = "e";
          aggregate_id = "i";
          payload = "07";
          status = "pending";
          created_at = 0;
          retry_count = 0;
          next_retry_at = none;
          attempt_blockhash = none;
          updated_at = 0;
        }
        ∷ [];
  };
  ticks = 5;
}

-- A client that submits everything and leaves the state alone.
abbrev pub quiet : BlockchainClient World
quiet = record {
  health_check = λ s. (ok tt, s);
  submit_transaction = λ memo existing s. (ok ("signature", "hash"), s);
  get_transaction_status = get_transaction_status_default;
  get_block_height = get_block_height_default;
  get_latest_blockhash = get_latest_blockhash_default;
  wait_for_confirmation = wait_for_confirmation_default;
}

pub stored_world-IsConsistent : IsConsistent stored_world.tables
stored_world-IsConsistent = record {
  items_distinct = (refl, tt);
  outbox_distinct = (refl, tt);
  refers = (refl, tt);
  covered = (refl, tt);
}
