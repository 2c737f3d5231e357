-- ===== src/Service/Claiming.antt =====
-- infra/database/postgres.rs: a claim of the outbox, where every row can be read and those that wait
-- are due.
use testable_rust_architectu.Base.{
  All-implies, ℕ, ◌+◌, ◌-◌, ◌≤◌, String, Bool, true, false, ◌≡◌, sym, ap, subst, ◌∙◌, inl, inr,
  none, List, [], map, arith, keep, any, All, str_eq, eq_iff, Bool-cases, if◌then◌else◌,
}
use testable_rust_architectu.Domain.Items.{SolanaOutboxEntry}
use testable_rust_architectu.World.{World, Env, OutboxRow, Tables}
use testable_rust_architectu.Postgres.Rows.{row_to_outbox, collect}
use testable_rust_architectu.Postgres.Sorting.{All-map, All-keep, All-always}
use testable_rust_architectu.Postgres.Pagination.{All-both}
use testable_rust_architectu.Postgres.Invariant.{Distinct, outbox_ids, map-map_same}
use testable_rust_architectu.Postgres.Outbox.{
  is_claimable, candidates, is_among, claimed, claim, claim_pending_solana_outbox,
}
use testable_rust_architectu.Service.Standing.{
  IsLegible, IsDue, IsTaken, Stands, waits, backlog, keep-fewer,
}
use testable_rust_architectu.Service.Settling.{Settles}
use testable_rust_architectu.Service.Reading.{IsRead, named-untaken, Taken-named}
use testable_rust_architectu.Service.Selecting.{
  All-selected, claimable-open, unless_among, without_rows, cs, candidates-In, candidates-All,
  candidates-Differ, keep-le, length-candidates,
}

module _ (env : Env) (calm : (n : ℕ) → env.fault n ≡ none) (limit : ℕ) (w : World) where
  abbrev pub chosen : OutboxRow → Bool
  chosen = is_among (
      candidates (env.locked (w.ticks + 1)) (env.utc_now w.ticks) (env.db_now (w.ticks + 1)) limit
        w.tables.outbox)

  abbrev pub after : OutboxRow → OutboxRow
  after r = if chosen r then claimed (env.db_now (w.ticks + 1)) r else r

  abbrev pub claimed_rows : List OutboxRow
  claimed_rows = map (claimed (env.db_now (w.ticks + 1))) (keep chosen w.tables.outbox)

  pub claim_calm :
      (claim_pending_solana_outbox env limit w).0 ≡ collect (row_to_outbox env) claimed_rows
      × ((claim_pending_solana_outbox env limit w).1.tables
          ≡ record w.tables { outbox = map after w.tables.outbox })
  unfolding claim_pending_solana_outbox claim
  claim_calm = ground (arith, calm (w.ticks + 1))

  pub claimed-Legible : All (IsLegible env) w.tables.outbox → All (IsLegible env) claimed_rows
  claimed-Legible h =
      All-map (IsLegible env) (claimed (env.db_now (w.ticks + 1))) (keep chosen w.tables.outbox) (
        All-keep (IsLegible env) chosen w.tables.outbox
          (All-implies (IsLegible env) _ w.tables.outbox (λ r k _. k) h))

  abbrev taken : String → Bool
  taken id =
      any (λ c. str_eq c.id id)
        (candidates (env.locked (w.ticks + 1)) (env.utc_now w.ticks) (env.db_now (w.ticks + 1))
          limit w.tables.outbox)

  entries_taken :
      (es : List SolanaOutboxEntry) → IsRead env claimed_rows es → All (λ e. taken e.id ≡ true) es
  entries_taken es (read, took, ids) = ids taken (
      All-map (λ r. taken r.id ≡ true) (claimed (env.db_now (w.ticks + 1)))
        (keep chosen w.tables.outbox)
        (All-keep (λ r. taken r.id ≡ true) chosen w.tables.outbox
          (All-always (λ r. chosen r ≡ true → taken r.id ≡ true) w.tables.outbox (λ r h. h))))

  -- After the claim, with the entries that were read from the rows that it took.
  claim-Stands :
      (es : List SolanaOutboxEntry) (r : OutboxRow)
      → All (λ e. taken e.id ≡ true) es
      → Stands env [] w.tables.items r
      → (chosen r ≡ true → IsTaken es (claimed (env.db_now (w.ticks + 1)) r))
      → Stands env es w.tables.items (after r)
  claim-Stands es r ids (legible, stands) took =
      let At = λ (b : Bool).
        Stands env es w.tables.items (if b then claimed (env.db_now (w.ticks + 1)) r else r) in
      elim (Bool-cases (chosen r)) [
        | inl e ↦ subst At (sym e) (legible, inr (inr (took e)))
        | inr e ↦ subst At (sym e) (
          legible,
          elim stands [
            | inl done ↦ inl done
            | inr (inl (due, _)) ↦ inr (inl (due, named-untaken taken es r.id ids e))
            | inr (inr nothing) ↦ absurd nothing
          ],
        )
      ]

  -- What waits after the claim waited before it, and is not among what it took.
  claim-waits :
      (es : List SolanaOutboxEntry) (r : OutboxRow)
      → (chosen r ≡ true → IsTaken es (claimed (env.db_now (w.ticks + 1)) r))
      → waits es (after r) ≡ true
      → (waits [] r ≡ true) × (chosen r ≡ false)
  claim-waits es r took h =
      let at_test =
        λ (b : Bool). waits es (if b then claimed (env.db_now (w.ticks + 1)) r else r) in
      elim (Bool-cases (chosen r)) [
        | inl e ↦
            let k = sym (ap at_test e) ∙ h in absurd (ground (arith, k, Taken-named es _ (took e)))
        | inr e ↦ let k = sym (ap at_test e) ∙ h in (ground (arith, k), e)
      ]

  abbrev pub after_claim : Tables
  after_claim = record w.tables { outbox = map after w.tables.outbox }

  open-Due : (r : OutboxRow) → Stands env [] w.tables.items r → waits [] r ≡ true → IsDue env r
  open-Due r (legible, inl (done, _)) h =
      let k : str_eq r.status "completed" ≡ true = (eq_iff r.status "completed").1 done in
      absurd (ground (arith, h, k))
  open-Due r (legible, inr (inl (due, _))) h = due
  open-Due r (legible, inr (inr nothing)) h = absurd nothing

  -- A claim takes as many of the rows that wait as it can.
  claim-backlog :
      (es : List SolanaOutboxEntry)
      → Distinct (outbox_ids w.tables)
      → All (Stands env [] w.tables.items) w.tables.outbox
      → All
          (λ r. chosen r ≡ true → IsTaken es (claimed (env.db_now (w.ticks + 1)) r))
          w.tables.outbox
      → backlog es (map after w.tables.outbox) ≤ backlog [] w.tables.outbox - limit
  claim-backlog es distinct stand at_rows =
      let rows = w.tables.outbox in
      let locked = env.locked (w.ticks + 1) in
      let at = env.utc_now w.ticks in
      let clock = env.db_now (w.ticks + 1) in
      let left = unless_among (waits []) (cs locked at clock limit rows) in
      let fewer = keep-fewer (waits es) left after rows (
        All-implies (λ r. chosen r ≡ true → IsTaken es (claimed clock r))
          (λ r. waits es (after r) ≡ true → left r ≡ true) rows
          (λ r t h. let (waiting, free) = claim-waits es r t h in ground (arith, waiting, free))
          at_rows) in
      let taken_away =
        without_rows rows (cs locked at clock limit rows) (waits [])
          (candidates-In locked at clock limit rows)
          (candidates-All locked at clock limit rows (λ c. waits [] c ≡ true)
            (All-always _ rows (claimable-open locked at clock)))
          (candidates-Differ locked at clock limit rows distinct) in
      let all_due = keep-le (waits []) (is_claimable locked at clock) rows (
        All-implies (Stands env [] w.tables.items) _ rows (λ r s o. open-Due r s o w.ticks)
          stand) in
      omega (arith, fewer, taken_away, length-candidates locked at clock limit rows, all_due)

  after-id : (r : OutboxRow) → (after r).id ≡ r.id
  after-id r = ground arith

  pub claim-Settles :
      (keys : List String) (n : ℕ) (es : List SolanaOutboxEntry)
      → Distinct keys
      → IsRead env claimed_rows es
      → Settles env keys [] n w.tables
      → Settles env keys es (n - limit) after_claim
  claim-Settles keys n es distinct (read, took, ids) (same, stand, few) =
      let rows = w.tables.outbox in
      let mark = claimed (env.db_now (w.ticks + 1)) in
      let at_rows = All-selected (IsTaken es) chosen mark rows took in
      let ids' = entries_taken es (read, took, ids) in
      let stand' =
        All-both (Stands env [] w.tables.items) (λ r. chosen r ≡ true → IsTaken es (mark r))
          (λ r. Stands env es w.tables.items (after r)) rows (λ r s t. claim-Stands es r ids' s t)
          stand at_rows in
      (
        map-map_same (λ r. r.id) after rows after-id ∙ same,
        All-map (Stands env es w.tables.items) after rows stand',
        omega (arith, claim-backlog es (subst Distinct (sym same) distinct) stand at_rows, few),
      )
