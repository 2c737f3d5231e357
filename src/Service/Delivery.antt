-- ===== src/Service/Delivery.antt =====
-- app/service.rs: a pass of the worker, where the chain takes what is submitted.
use testable_rust_architectu.Base.{
  All-implies, ℕ, ◌-◌, String, ◌≡◌, sym, ap, subst, ◌∙◌, none, List, [], length,
}
use testable_rust_architectu.Base.Effects.{Result, ok, >>=-ok}
use testable_rust_architectu.Domain.Errors.{ItemError}
use testable_rust_architectu.Domain.Validation.{FieldError}
use testable_rust_architectu.Domain.Ports.{BlockchainClient}
use testable_rust_architectu.World.{World, Env}
use testable_rust_architectu.Postgres.Outbox.{claim_pending_solana_outbox}
use testable_rust_architectu.Service.{process_entries, process_pending_submissions}
use testable_rust_architectu.Service.Requests.{postgres_app}
use testable_rust_architectu.Service.Passes.{IsApart}
use testable_rust_architectu.Service.Reading.{collect-IsRead}
use testable_rust_architectu.Service.Claiming.{
  claimed_rows, claim_calm, claimed-Legible, claim-Settles,
}
use testable_rust_architectu.Service.Standing.{IsUp, IsLegible, Stands}
use testable_rust_architectu.Postgres.Invariant.{Distinct}
use testable_rust_architectu.Service.Settling.{Settles, entries-Settles}

module _ (env : Env) (client : BlockchainClient World) (show : List FieldError → String)
    (calm : (n : ℕ) → env.fault n ≡ none) (apart : IsApart client) (up : IsUp client) (limit : ℕ)
    (w : World) where
  -- A pass completes as many of the rows that wait as it may claim.
  pub pass-Settles :
      (keys : List String) (n : ℕ)
      → Distinct keys
      → Settles env keys [] n w.tables
      → Settles env keys []
          (n - limit)
          (process_pending_submissions (postgres_app env client show) limit w).1.tables
  unfolding process_pending_submissions
  pass-Settles keys n distinct (same, stand, few) =
      let app = postgres_app env client show in
      let (answer, tables) = claim_calm env calm limit w in
      let legible = claimed-Legible env calm limit w (
        All-implies (Stands env [] w.tables.items) (IsLegible env) w.tables.outbox (λ r h. h.0)
          stand) in
      let (es, (read, took, ids)) = collect-IsRead env (claimed_rows env calm limit w) legible in
      let w' = (claim_pending_solana_outbox env limit w).1 in
      let step =
        >>=-ok (claim_pending_solana_outbox env limit)
          (λ es s. (ok (length es), process_entries app es s)) w
          (ap (λ r. (r, w')) (answer ∙ read)) in
      let before =
        claim-Settles env calm limit w keys n es distinct (read, took, ids) (same, stand, few) in
      let settled =
        entries-Settles env client show calm apart up es keys (n - limit) w'
          (subst (Settles env keys es (n - limit)) (sym tables) before) in
      subst (λ (p : Result ItemError ℕ × World). Settles env keys [] (n - limit) p.1.tables)
        (sym step) settled
