-- ===== src/Tests/Edges.antt =====
-- The theorems on the claims, the node, the worker, the HTTP interface and the signers, each at a
-- concrete input.
use testable_rust_architectu.Base.{
  Option, ℕ, ◌+◌, ◌-◌, String, ◌≡◌, ◌≢◌, refl, ◌↔◌, ◌⊎◌, inl, inr, Bool, true, false, none, some,
  List, [], ◌∷◌, arith, length, take, drop, eq_iff, sym, ap, ◌∙◌,
}
use testable_rust_architectu.Base.Int.{pos, negsuc}
use testable_rust_architectu.Base.Effects.{ok, err}
use testable_rust_architectu.Domain.Errors.{insufficient_funds}
use testable_rust_architectu.Domain.Items.{
  seconds, ItemMetadataRequest, CreateItemRequest, PaginationParams,
}
use testable_rust_architectu.Domain.Validation.{IsAcceptable}
use testable_rust_architectu.Domain.Ports.{TransactionSigner}
use testable_rust_architectu.World.{Env, Tables, OutboxRow}
use testable_rust_architectu.Postgres.Items
use testable_rust_architectu.Postgres.Outbox.{claim}
use testable_rust_architectu.Postgres.ReadBack.{
  whole_micros, Decodes, IsReadBack, create_item-IsReadBack,
}
use testable_rust_architectu.Postgres.Leases.{Disjoint, Untouched, claims-Disjoint}
use testable_rust_architectu.Rpc.Provider.{JsonRpcError, rpc_error}
use testable_rust_architectu.Rpc.Client.{
  send_error, poll, wait_for_confirmation, RpcBlockchainClient,
}
use testable_rust_architectu.Rpc.Preflight.{preflight_keeps_blockhash}
use testable_rust_architectu.Rpc.Waiting.{IsClock, wait_for_confirmation-returns}
use testable_rust_architectu.Service.{CreateItemError, attempt_update}
use testable_rust_architectu.Service.Requests.{postgres_app}
use testable_rust_architectu.Worker.{
  WorkerConfig, WorkerEvent, slept, signalled, closed, run, process_batch,
}
use testable_rust_architectu.Worker.Runs.{fate, times, sleeps, run_enabled}
use testable_rust_architectu.Api.Responses.{create_item_error_into_response}
use testable_rust_architectu.Api.Handlers.{
  create_item_handler, create_rejected, readiness_handler, readiness_iff,
}
use testable_rust_architectu.Api.Auth.{
  HttpRequest, IsAllowed, auth_middleware, auth_middleware-cases,
}
use testable_rust_architectu.Api.ClientIp.{
  Parsing, IpRequest, client_ip_from_request, client_ip-unspoofable,
}
use testable_rust_architectu.Signer.{
  Crypto, key_array, extract_ed25519_pubkey, ed25519_spki_header, local_signer_new, local_sign,
  signing_key_from_secret,
}
use testable_rust_architectu.Signer.Keys.{extract_ed25519_pubkey-ok, local_signer-signs}
use testable_rust_architectu.Tests.Samples.{
  calm, empty_world, stored_world, show_nothing, quiet, client_with,
}

abbrev unlocked : String → Bool
unlocked id = false

abbrev taken_tables : Tables
taken_tables = record {
  items = stored_world.tables.items;
  outbox =
      record {
        id = "e";
        aggregate_id = "i";
        payload = "07";
        status = "processing";
        created_at = 0;
        retry_count = 0;
        next_retry_at = none;
        attempt_blockhash = none;
        updated_at = 7;
      }
      ∷ [];
}

-- An entry that is queued later.
abbrev late_entry : OutboxRow
late_entry = record {
  id = "late";
  aggregate_id = "i";
  payload = "07";
  status = "pending";
  created_at = 8;
  retry_count = 0;
  next_retry_at = none;
  attempt_blockhash = none;
  updated_at = 8;
}

first_claim : claim unlocked 7 7 5 stored_world.tables ≡ ok (taken_tables.outbox, taken_tables)
unfolding claim
first_claim = refl

-- Between the claims another entry comes in.
abbrev grown_tables : Tables
grown_tables = record taken_tables { outbox = late_entry ∷ taken_tables.outbox }

second_claim :
    claim unlocked 9 9 5 grown_tables
    ≡ ok (
      record late_entry { status = "processing"; updated_at = 9 } ∷ [],
      record taken_tables {
        outbox = record late_entry { status = "processing"; updated_at = 9 } ∷ taken_tables.outbox;
      },
    )
unfolding claim
second_claim = refl

other_id : ¬ (◌≡◌ {A = String} "e" "late")
other_id h = let clash : false ≡ true = (eq_iff "e" "late").1 h in cc

grown-Untouched : Untouched taken_tables.outbox taken_tables grown_tables
grown-Untouched r r2 (inl one) (inl other) same = absurd (
    other_id (ap (λ (x : OutboxRow). x.id) one ∙ (same ∙ sym (ap (λ (x : OutboxRow). x.id) other))))
grown-Untouched r r2 (inl one) (inr there) same = there
grown-Untouched r r2 (inr never) h same = absurd never

claims-Disjoint_example :
    Disjoint taken_tables.outbox (record late_entry { status = "processing"; updated_at = 9 } ∷ [])
claims-Disjoint_example =
    claims-Disjoint unlocked unlocked 7 9 7 9 5 5 stored_world.tables taken_tables grown_tables _
      taken_tables.outbox _ first_claim grown-Untouched second_claim (omega arith)

-- A node whose clock is the state.
abbrev timed : RpcBlockchainClient ℕ
timed = record (client_with (record { send_request = λ method params s. (ok "[]", s + 1) })) {
  sleep = λ t s. s + t;
  instant = λ s. s;
}

timed-IsClock : IsClock timed
timed-IsClock = record { exchange = λ method params s. omega arith; sleeps = λ t s. omega arith }

wait_for_confirmation-returns_example :
    poll timed 9 "signature" 2 0 0 ≡ some (wait_for_confirmation timed "signature" 2 0)
wait_for_confirmation-returns_example =
    wait_for_confirmation-returns timed timed-IsClock "signature" 2 0 9 (omega arith)

abbrev refused : JsonRpcError
refused = record {
  code = negsuc 32001;
  message = "Transaction simulation failed: Blockhash not found";
}

preflight_keeps_blockhash_example :
    (rpc_error refused ≡ insufficient_funds)
    × (attempt_update (send_error (λ t. t) "hash" (rpc_error refused)) ≡ some (some "hash"))
preflight_keeps_blockhash_example = preflight_keeps_blockhash (λ t. t) "hash" refused refl

abbrev config : WorkerConfig
config = record { poll_interval = 10; batch_size = 5; enabled = true }

abbrev events : List WorkerEvent
events = slept ∷ signalled false ∷ closed ∷ slept ∷ signalled true ∷ slept ∷ []

run_enabled_example : run (postgres_app calm quiet show_nothing) config events stored_world ≡ (
  fate events,
  times (sleeps events) (process_batch (postgres_app calm quiet show_nothing) config) stored_world,
)
run_enabled_example =
    run_enabled (postgres_app calm quiet show_nothing) config events stored_world refl

abbrev nameless : CreateItemRequest
nameless = record { name = ""; description = none; content = "content"; metadata = none }

nameless-unacceptable : ¬ IsAcceptable nameless
nameless-unacceptable h = let (low, high) = h.name_bounds in omega arith

create_rejected_example :
    (e : CreateItemError) × (create_item_handler
        (postgres_app calm quiet show_nothing)
        nameless
        empty_world
      ≡ (err e, empty_world))
    × ((create_item_error_into_response e).status ≡ 400)
    × ((create_item_error_into_response e).error_type ≡ "validation_error")
create_rejected_example =
    create_rejected (postgres_app calm quiet show_nothing) nameless empty_world
      nameless-unacceptable

abbrev many : PaginationParams
many = record { limit = pos 500; cursor = none }

readiness_iff_example :
    let app = postgres_app calm quiet show_nothing in
    let (db, s1) = app.item_repo.health_check empty_world in
    let (chain, s2) = app.blockchain_client.health_check s1 in
    ((readiness_handler app empty_world).0 ≡ 200) ↔ ((db ≡ ok tt) × (chain ≡ ok tt))
readiness_iff_example = readiness_iff (postgres_app calm quiet show_nothing) empty_world

abbrev keyed : HttpRequest
keyed = record { method = "POST"; api_key = some "key" }

abbrev denied : ℕ
denied = 401

auth_middleware-cases_example :
    (IsAllowed calm.sha256 "secret" keyed
      × (auth_middleware calm.sha256 "secret" denied keyed (λ (s : ℕ). (200, s + 1)) 0
          ≡ (200, 0 + 1)))
    ⊎ (¬ IsAllowed calm.sha256 "secret" keyed
        × (auth_middleware calm.sha256 "secret" denied keyed (λ (s : ℕ). (200, s + 1)) 0
            ≡ (denied, 0)))
auth_middleware-cases_example =
    auth_middleware-cases calm.sha256 "secret" denied keyed (λ (s : ℕ). (200, s + 1)) 0
      (λ t. (omega arith, tt))

abbrev plain : Parsing
plain = record { first_part = λ t. t; trim = λ t. t; parse_ip = λ t. some t }

abbrev honest : IpRequest
honest = record {
  connect_info = some "10.0.0.1";
  socket_addr = none;
  forwarded_for = none;
  real_ip = none;
}

abbrev spoofed : IpRequest
spoofed = record honest { forwarded_for = some "10.9.9.9" }

client_ip-unspoofable_example :
    client_ip_from_request plain honest true ≡ client_ip_from_request plain spoofed true
client_ip-unspoofable_example =
    client_ip-unspoofable plain honest spoofed true refl refl (inr ("10.0.0.1", inl refl))

abbrev seed : List ℕ
seed =
    1 ∷ 2 ∷ 3 ∷ 4 ∷ 5 ∷ 6 ∷ 7 ∷ 8 ∷ 9 ∷ 10 ∷ 11 ∷ 12 ∷ 13 ∷ 14 ∷ 15 ∷ 16 ∷ 17 ∷ 18 ∷ 19 ∷ 20 ∷ 21
    ∷ 22 ∷ 23 ∷ 24 ∷ 25 ∷ 26 ∷ 27 ∷ 28 ∷ 29 ∷ 30 ∷ 31 ∷ 32 ∷ []

seed_extracted : extract_ed25519_pubkey seed ≡ ok seed
unfolding extract_ed25519_pubkey
seed_extracted = refl

extract_ed25519_pubkey-ok_example :
    (length seed ≡ 32)
    × (seed ≡ drop (length seed - 32) seed)
    × ((length seed ≢ 44) ⊎ (take 12 seed ≡ ed25519_spki_header))
extract_ed25519_pubkey-ok_example = extract_ed25519_pubkey-ok seed seed seed_extracted

abbrev toy : Crypto ℕ
toy = record {
  bs58_decode = λ t. ok seed;
  bs58_encode = λ bytes. "text";
  from_bytes = λ bytes. 3;
  sign = λ key message. 1 ∷ [];
  verifying_key = λ key. 2 ∷ [];
}

abbrev toy_signer : TransactionSigner ℕ
toy_signer = record { sign_message = local_sign toy "secret"; public_key = "text" }

toy_built : local_signer_new toy "secret" ≡ ok toy_signer
unfolding local_signer_new signing_key_from_secret key_array
toy_built = refl

local_signer-signs_example :
    (key : ℕ) × (toy_signer.public_key ≡ toy.bs58_encode (toy.verifying_key key))
    × ((message : String) (s : ℕ)
        → toy_signer.sign_message message s ≡ (ok (toy.bs58_encode (toy.sign key message)), s))
local_signer-signs_example = local_signer-signs toy "secret" toy_signer toy_built

-- A codec for metadata that has an author and nothing else.
abbrev encode_author : ItemMetadataRequest → Option String
encode_author m = elim m.version [
  | some v ↦ none
  | none ↦ elim m.tags [
    | t ∷ ts ↦ none
    | [] ↦ elim m.custom_fields [ f ∷ fs ↦ none | [] ↦ m.author ]
  ]
]

abbrev coded : Env
coded = record calm {
  utc_now = λ n. whole_micros (seconds n + 7);
  metadata_to_value = encode_author;
  metadata_from_value =
      λ v. some (record { author = some v; version = none; tags = []; custom_fields = [] });
}

coded-Decodes : Decodes coded
coded-Decodes m v h = ground arith

abbrev authored : CreateItemRequest
authored = record {
  name = "name";
  description = none;
  content = "content";
  metadata =
      some (record { author = some "author"; version = none; tags = []; custom_fields = [] });
}

create_item-IsReadBack_example : IsReadBack coded (Items.create_item coded authored stored_world)
create_item-IsReadBack_example =
    create_item-IsReadBack coded authored stored_world coded-Decodes (λ n. refl)
