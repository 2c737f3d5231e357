-- ===== src/Lib.antt =====
-- Verification of the Testable Rust Architecture Template: a web service that stores items in
-- PostgreSQL and writes the hash of each item to the Solana chain through a transactional outbox.
--
-- The parts. HTTP handlers (src/api) call the application service (src/app/service.rs), which works
-- on three ports (src/domain/traits.rs): items, the outbox and the chain. The PostgreSQL adapter
-- (src/infra/database/postgres.rs) implements the first two over the tables of migrations/, the
-- Solana client (src/infra/blockchain/solana.rs) the third. A background worker (src/app/worker.rs)
-- calls the service again and again: it claims due outbox entries, submits each to the chain and
-- records the answer in both tables.
--
-- The files.
--   Base      lists, results, integers, and `Action S E A`, code over a state that may fail;
--   Domain    src/domain: Errors, Status, Items, Validation, Health, Hash (types.rs, error.rs) and
--             Ports (traits.rs, a trait as a record of operations);
--   World     the tables, and the environment as one oracle: clocks, fresh UUIDs, faults of the
--             database, row locks, encoders. A counter numbers the interactions;
--   Postgres  src/infra/database/postgres.rs: Pool (connecting, migrations), Sql (statements,
--             transactions), Rows, Items, Outbox (the operations), Client (the adapter as the two
--             ports), and proofs in Rules,
--             Atomicity, Effects, Calm, Lookup, Invariant, Keeps, History, Leases, Fairness,
--             ReadBack, Pagination, Paging, Browsing and Reordering, over lists in Sorting and
--             Differing;
--   Rpc       src/infra/blockchain/solana.rs: Provider (JSON-RPC over HTTP), Calls (rpc_call),
--             Client (the operations), Build (the constructors), and proofs in Sticky, Blank,
--             Preflight, Waiting, Costs, Spending, Requests, Logs, Memos and
--             Repeating;
--   Service   src/app/service.rs, with proofs in Backoff, Expected (the tables that an
--             attempt and a retry should leave), Requests, Attempts, Passes, GivingUp, Late,
--             Standing, Settling, Reading, Selecting, Claiming, Delivery and Columns;
--   Signer    src/infra/blockchain/signer.rs and the parser of keys in solana.rs, with proofs in Keys;
--   Worker    src/app/worker.rs, with proofs in Runs and Delivery;
--   Api       src/api: Responses and Handlers (handlers.rs), Bytes and Auth (middleware.rs), ClientIp
--             (router.rs, with the rate limits), Router (router.rs, app/state.rs), Layers (the
--             metrics of middleware.rs and the timeout of router.rs), and proofs in Access and
--             Browsing;
--   Mock      src/test_utils/mocks.rs: Store (what the mocks hold), Items, Outbox and Chain (the
--             operations), and proofs in Matching, Agreement, Writes and Refinement;
--   System    the parts together: steps of requests, of the worker and of other instances, with
--             proofs in Handlers, Invariant and Client;
--   Setup     src/main.rs, with proofs in Start;
--   Tests     sample environments, and the theorems at concrete inputs.
--
-- How the code is modelled. An operation is a function from the state to its result and the state
-- after it, so what was written before an error stays written. A statement of SQL reads and changes
-- the tables; a transaction works on them and puts them back if it fails or its commit is refused,
-- and a commit whose reply is lost may have taken effect. Every call of the database asks the oracle
-- whether it fails. Times are in nanoseconds. A reading of the clock is what a column keeps of it,
-- whole microseconds; only a new item that is returned has the reading in full, and the time of a
-- health response is cut as well. An i32 counter is a natural number, whose limit is written out
-- where SQL increments it. The polling loop of `wait_for_confirmation` runs on fuel, a
-- poll for each half second and one more.
--
-- Parameters. SHA-256, solana-sdk, ed25519-dalek, AWS KMS, bs58, reqwest, serde, governor and the
-- collation of the database are not code of the repository; they are arguments.
--
-- What is left out. Logs, the metrics but for those of requests, what the connection pool does, the
-- order in which RETURNING gives rows
-- (here that of the table), checks of the length of VARCHAR columns, the texts that the server
-- refuses as UUID or enum values; other processes change the tables only between operations, and
-- hold row locks. Of the router the tracing, and of the process its signals and its
-- end are left out. Setting up tracing and the exporter of metrics is a call of libraries.
pub mod Base
pub mod Domain
pub mod World
pub mod Postgres
pub mod Rpc
pub mod Service
pub mod Signer
pub mod Worker
pub mod Api
pub mod Mock
pub mod System
pub mod Setup
pub mod Tests
