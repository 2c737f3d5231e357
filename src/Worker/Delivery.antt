-- ===== src/Worker/Delivery.antt =====
-- app/worker.rs: a worker that runs for long enough has delivered the whole outbox.
use testable_rust_architectu.Base.{
  All-implies, ℕ, zero, suc, ◌-◌, ◌*◌, ◌≤◌, String, none, true, false, ◌≡◌, refl, sym, subst, ◌∙◌,
  ◌+◌, ◌⊎◌, inl, inr, List, [], ◌∷◌, arith, All, length, keep, Bool-cases, Bool,
}
use testable_rust_architectu.Domain.Validation.{FieldError}
use testable_rust_architectu.Domain.Ports.{BlockchainClient}
use testable_rust_architectu.World.{World, Env, ItemRow, OutboxRow}
use testable_rust_architectu.Postgres.Invariant.{Distinct, outbox_ids}
use testable_rust_architectu.Postgres.Pagination.{All-both}
use testable_rust_architectu.Service.Requests.{postgres_app}
use testable_rust_architectu.Service.Passes.{IsApart}
use testable_rust_architectu.Service.Standing.{
  IsUp, IsLegible, IsDelivered, IsDue, Stands, waits, backlog,
}
use testable_rust_architectu.Service.Settling.{Settles}
use testable_rust_architectu.Service.Selecting.{claimable-open}
use testable_rust_architectu.Service.Delivery.{pass-Settles}
use testable_rust_architectu.Worker.{WorkerConfig, WorkerEvent, Activity, process_batch, run}
use testable_rust_architectu.Worker.Runs.{sleeps, times, run_enabled}

-- An entry that can be read, and that is delivered or may be claimed.
abbrev pub IsServable : Env → List ItemRow → OutboxRow → Type 0
IsServable env items r = IsLegible env r × (IsDelivered items r ⊎ IsDue env r)

-- The entries that are not completed.
abbrev pub unserved : List OutboxRow → ℕ
unserved rs = backlog [] rs

none_kept :
    (q : OutboxRow → Bool) (rs : List OutboxRow)
    → length (keep q rs) ≤ 0
    → All (λ r. q r ≡ false) rs
none_kept q [] h = tt
none_kept q (r ∷ rs) h = elim (Bool-cases (q r)) [
  | inl e ↦ absurd (ground (arith, e, h))
  | inr e ↦ (e, none_kept q rs (subst (λ l. length l ≤ 0) (rw e refl) h))
]

Stands-Delivered :
    (env : Env) (items : List ItemRow) (r : OutboxRow)
    → Stands env [] items r
    → waits [] r ≡ false
    → IsDelivered items r
Stands-Delivered env items r (legible, inl done) h = done
Stands-Delivered env items r (legible, inr (inr nothing)) h = absurd nothing
Stands-Delivered env items r (legible, inr (inl (due, _))) h =
    let k = claimable-open (env.locked (0 + 1)) (env.utc_now 0) (env.db_now (0 + 1)) r (due 0) in
    absurd (let x = sym k ∙ h in cc)

module _ (env : Env) (client : BlockchainClient World) (show : List FieldError → String)
    (calm : (n : ℕ) → env.fault n ≡ none) (apart : IsApart client) (up : IsUp client)
    (config : WorkerConfig) where
  times-Settles :
      (keys : List String) (k n : ℕ) (w : World)
      → Distinct keys
      → n ≤ k * config.batch_size
      → Settles env keys [] n w.tables
      → Settles env keys [] 0
          (times k (process_batch (postgres_app env client show) config) w).tables
  unfolding process_batch
  times-Settles keys zero n w distinct h (same, stand, few) = (same, stand, grind arith)
  times-Settles keys (suc k) n w distinct h s =
      times-Settles keys k (n - config.batch_size) _ distinct (grind arith)
        (pass-Settles env client show calm apart up config.batch_size w keys n distinct s)

  -- Where the database answers every call and the chain takes every submission: an enabled worker
  -- over an outbox with distinct ids, whose entries can all be read, and are delivered already or may
  -- be claimed at any time, has delivered all of them once the batches that it was woken for have
  -- room for the entries that are not completed: each is completed, and its item is marked as
  -- submitted. The outbox has the same ids.
  pub run_delivers :
      (events : List WorkerEvent) (w : World)
      → config.enabled ≡ true
      → Distinct (outbox_ids w.tables)
      → unserved w.tables.outbox ≤ sleeps events * config.batch_size
      → All (IsServable env w.tables.items) w.tables.outbox
      → let t = (run (postgres_app env client show) config events w).1.tables in
        (outbox_ids t ≡ outbox_ids w.tables) × All (IsDelivered t.items) t.outbox
  run_delivers events w enabled distinct often servable =
      let app = postgres_app env client show in
      let Start = Stands env [] w.tables.items in
      let stand =
        All-implies (IsServable env w.tables.items) Start w.tables.outbox
          (λ r s. (s.0, elim s.1 [ inl done ↦ inl done | inr due ↦ inr (inl (due, refl)) ]))
          servable in
      let (same, stand', few) =
        times-Settles (outbox_ids w.tables) (sleeps events) (unserved w.tables.outbox) w distinct
          often (refl, stand, omega arith) in
      let t = (times (sleeps events) (process_batch app config) w).tables in
      let delivered =
        All-both (Stands env [] t.items) (λ r. waits [] r ≡ false) (IsDelivered t.items) t.outbox
          (λ r. Stands-Delivered env t.items r) stand' (none_kept (waits []) t.outbox few) in
      subst
        (λ (p : Activity × World).
          (outbox_ids p.1.tables ≡ outbox_ids w.tables)
          × All (IsDelivered p.1.tables.items) p.1.tables.outbox)
        (sym (run_enabled app config events w enabled)) (same, delivered)
