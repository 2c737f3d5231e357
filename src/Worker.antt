-- ===== src/Worker.antt =====
-- app/worker.rs: the background worker, over any application service. What `tokio::select!` lets
-- happen is a list of events: the sleep ends, a value comes through the shutdown channel, or the
-- channel turns out to be closed.
pub mod Runs
pub mod Delivery
use testable_rust_architectu.Base.{ℕ, Bool, true, false, List, [], ◌∷◌, if◌then◌else◌}
use testable_rust_architectu.Domain.Items.{Time, seconds}
use testable_rust_architectu.Service.{AppService, process_pending_submissions}

pub record WorkerConfig : Type 0 where
  pub poll_interval : Time
  pub batch_size : ℕ
  pub enabled : Bool

-- `WorkerConfig::default`.
unfoldable pub worker_config_default : WorkerConfig
worker_config_default = record { poll_interval = seconds 10; batch_size = 10; enabled = true }

pub data WorkerEvent : Type 0 where
  slept : WorkerEvent
  signalled : Bool → WorkerEvent
  closed : WorkerEvent

pub data Activity : Type 0 where
  running stopped : Activity

module _ {S : Type 0} (app : AppService S) (config : WorkerConfig) where
  -- The outcome is only logged.
  unfoldable pub process_batch : S → S
  process_batch s = (process_pending_submissions app config.batch_size s).1

  -- The loop, up to the events that have happened.
  unfoldable pub run_loop : List WorkerEvent → S → Activity × S
  run_loop [] s = (running, s)
  run_loop (slept ∷ events) s = run_loop events (process_batch s)
  run_loop (signalled true ∷ events) s = (stopped, s)
  run_loop (signalled false ∷ events) s = run_loop events s
  run_loop (closed ∷ events) s = run_loop events s

  unfoldable pub run : List WorkerEvent → S → Activity × S
  unfolding run_loop
  run events s = if config.enabled then run_loop events s else (stopped, s)

  unfoldable pub run_once : S → S
  run_once s = if config.enabled then process_batch s else s
