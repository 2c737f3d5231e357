-- ===== src/Worker/Runs.antt =====
-- app/worker.rs: what a run of the worker amounts to.
use testable_rust_architectu.Base.{
  ℕ, zero, suc, ◌≡◌, refl, sym, ap, ◌∙◌, subst, if◌then◌else◌, Bool, true, false, List, [], ◌∷◌,
  Bool-cases, inl, inr,
}
use testable_rust_architectu.Domain.Ports.{BlockchainClient}
use testable_rust_architectu.Domain.Validation.{FieldError}
use testable_rust_architectu.Base.{String}
use testable_rust_architectu.World.{World, Env}
use testable_rust_architectu.Postgres.Invariant.{IsConsistent}
use testable_rust_architectu.Service.{AppService}
use testable_rust_architectu.Service.Requests.{postgres_app}
use testable_rust_architectu.Service.Passes.{IsApart, pass-IsConsistent}
use testable_rust_architectu.Worker.{
  WorkerConfig, WorkerEvent, slept, signalled, closed, Activity, running, stopped, process_batch,
  run, run_loop,
}

-- The sleeps that end before the worker is told to stop.
abbrev pub sleeps : List WorkerEvent → ℕ
sleeps [] = 0
sleeps (slept ∷ events) = suc (sleeps events)
sleeps (signalled true ∷ events) = 0
sleeps (signalled false ∷ events) = sleeps events
sleeps (closed ∷ events) = sleeps events

abbrev pub fate : List WorkerEvent → Activity
fate [] = running
fate (signalled true ∷ events) = stopped
fate (_ ∷ events) = fate events

abbrev pub times : {S : Type 0} → ℕ → (S → S) → S → S
times zero f s = s
times (suc n) f s = times n f (f s)

run_loop-times :
    {S : Type 0} (app : AppService S) (config : WorkerConfig) (events : List WorkerEvent) (s : S)
    → run_loop app config events s
      ≡ (fate events, times (sleeps events) (process_batch app config) s)
unfolding run_loop
run_loop-times app config [] s = refl
run_loop-times app config (slept ∷ events) s =
    run_loop-times app config events (process_batch app config s)
run_loop-times app config (signalled true ∷ events) s = refl
run_loop-times app config (signalled false ∷ events) s = run_loop-times app config events s
run_loop-times app config (closed ∷ events) s = run_loop-times app config events s

-- An enabled worker processes one batch for each sleep that ends before it is told to stop, in
-- turn, and nothing else; it has stopped exactly if it was told to: a closed channel does not
-- stop it.
pub run_enabled :
    {S : Type 0} (app : AppService S) (config : WorkerConfig) (events : List WorkerEvent) (s : S)
    → config.enabled ≡ true
    → run app config events s ≡ (fate events, times (sleeps events) (process_batch app config) s)
unfolding run
run_enabled app config events s h =
    ap (λ b. if b then run_loop app config events s else (stopped, s)) h
    ∙ run_loop-times app config events s

run_loop-IsConsistent :
    (env : Env) (client : BlockchainClient World) (show : List FieldError → String)
    (config : WorkerConfig) (apart : IsApart client) (events : List WorkerEvent) (w : World)
    → IsConsistent w.tables
    → IsConsistent (run_loop (postgres_app env client show) config events w).1.tables
unfolding run_loop process_batch
run_loop-IsConsistent env client show config apart [] w c = c
run_loop-IsConsistent env client show config apart (slept ∷ events) w c =
    run_loop-IsConsistent env client show config apart events
      (process_batch (postgres_app env client show) config w)
      (pass-IsConsistent env client show apart config.batch_size w c)
run_loop-IsConsistent env client show config apart (signalled true ∷ events) w c = c
run_loop-IsConsistent env client show config apart (signalled false ∷ events) w c =
    run_loop-IsConsistent env client show config apart events w c
run_loop-IsConsistent env client show config apart (closed ∷ events) w c =
    run_loop-IsConsistent env client show config apart events w c

-- With a client that leaves the tables alone, a run of the worker over PostgreSQL keeps the tables
-- consistent, whatever events happen and whichever calls fail.
pub run-IsConsistent :
    (env : Env) (client : BlockchainClient World) (show : List FieldError → String)
    (config : WorkerConfig) (apart : IsApart client) (events : List WorkerEvent) (w : World)
    → IsConsistent w.tables
    → IsConsistent (run (postgres_app env client show) config events w).1.tables
unfolding run
run-IsConsistent env client show config apart events w c =
    let Fine : Bool → Type 0 = λ b.
      IsConsistent
        (if b
          then run_loop (postgres_app env client show) config events w
          else (stopped, w)).1.tables in
    elim (Bool-cases config.enabled) [
      | inl h ↦ subst Fine (sym h) (run_loop-IsConsistent env client show config apart events w c)
      | inr h ↦ subst Fine (sym h) c
    ]
