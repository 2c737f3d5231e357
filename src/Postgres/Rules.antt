-- ===== src/Postgres/Rules.antt =====
-- Rules for the calls of the database: what holds after a chain of actions, a statement or a
-- transaction follows from its parts.
use testable_rust_architectu.Base.{
  ◌≡◌, refl, Option, none, some, arith, Bool-cases, Option-cases, inl, inr,
}
use testable_rust_architectu.Base.Effects.{Action, Result, ok, err, ◌>>◌, >>=-cases}
use testable_rust_architectu.Domain.Errors.{ItemError}
use testable_rust_architectu.Domain.Items.{Time}
use testable_rust_architectu.World.{SqlxError, Tables, World, Env, bump}
use testable_rust_architectu.Postgres.Sql.{
  map_sqlx_to_item_error, Statement, settle, execute_now, execute, commit, finish, transaction,
}

module _ (env : Env) {A : Type 0} where
  -- A call fails and changes no table, or the statement has run.
  pub execute_now-cases {ℓ} :
      (P : Result ItemError A × World → Type ℓ) (stmt : Time → Statement A) (w : World)
      → ((e : ItemError) (w' : World) → w'.tables ≡ w.tables → P (err e, w'))
      → ((a : A) (t : Tables)
          → stmt (env.db_now w.ticks) w.tables ≡ ok (a, t)
          → P (ok a, record (bump w) { tables = t }))
      → P (execute_now env stmt w)
  execute_now-cases P stmt w failed ran = go (env.fault w.ticks)
    where
      settled :
          (r : Result SqlxError (A × Tables))
          → stmt (env.db_now w.ticks) w.tables ≡ r
          → P (settle r (bump w))
      settled (ok (a, t)) e = ran a t e
      settled (err x) e = failed _ _ refl

      go :
          (f : Option SqlxError)
          → P (elim f [
            | some e ↦ (err (map_sqlx_to_item_error e), bump w)
            | none ↦ settle (stmt (env.db_now w.ticks) w.tables) (bump w)
          ])
      go (some e) = failed _ _ refl
      go none = settled (stmt (env.db_now w.ticks) w.tables) refl

  -- A transaction fails and changes no table, or its body has succeeded: then it is committed,
  -- or reports an error of the commit although that has taken effect.
  pub transaction-cases {ℓ} :
      (P : Result ItemError A × World → Type ℓ) (body : Time → Action World ItemError A) (w : World)
      → ((e : ItemError) (w' : World) → w'.tables ≡ w.tables → P (err e, w'))
      → ((at : Time) (a : A) (w' : World)
          → body at (bump w) ≡ (ok a, w')
          → P (ok a, bump w') × ((e : ItemError) → P (err e, bump w')))
      → P (transaction env body w)
  transaction-cases P body w failed done = go (env.fault w.ticks)
    where
      at : Time
      at = env.db_now w.ticks

      committed :
          (a : A) (w' : World) → body at (bump w) ≡ (ok a, w') → P (commit env w.tables a w')
      committed a w' e = elim (Option-cases (env.fault w'.ticks)) [
        | inl quiet ↦ rw (quiet, commit) ((done at a w' e).0)
        | inr (x, lost) ↦ elim (Bool-cases (env.commit_applied w'.ticks)) [
          | inl applied ↦ rw (lost, applied, commit) ((done at a w' e).1 _)
          | inr rolled_back ↦ rw (lost, rolled_back, commit) (failed _ _ refl)
        ]
      ]

      finished :
          (r : Result ItemError A) (w' : World)
          → body at (bump w) ≡ (r, w')
          → P (finish env w.tables r w')
      finished (ok a) w' e = committed a w' e
      finished (err x) w' e = failed _ _ refl

      go :
          (f : Option SqlxError)
          → P (elim f [
            | some e ↦ (err (map_sqlx_to_item_error e), bump w)
            | none ↦ let (r, w') = body at (bump w) in finish env w.tables r w'
          ])
      go (some e) = failed _ _ refl
      go none = finished (body at (bump w)).0 (body at (bump w)).1 refl

  -- A statement that has succeeded has run, and the world differs by its tables.
  pub execute-ok :
      (stmt : Statement A) (w w' : World) (a : A)
      → execute env stmt w ≡ (ok a, w')
      → (t : Tables) × (stmt w.tables ≡ ok (a, t)) × (w' ≡ record (bump w) { tables = t })
  execute-ok stmt w w' a =
      execute_now-cases
        (λ r.
          r ≡ (ok a, w')
          → (t : Tables) × (stmt w.tables ≡ ok (a, t)) × (w' ≡ record (bump w) { tables = t }))
        (λ _. stmt) w (λ e w1 same h. cc) (λ b t ran h. (t, ground arith, ground arith))

-- Two statements in a row have succeeded: the second ran on the tables of the first.
pub execute_twice-ok :
    (env : Env) {A B : Type 0} (first : Statement A) (second : Statement B) (w w' : World) (b : B)
    → (execute env first >> execute env second) w ≡ (ok b, w')
    → (a : A) × (t : Tables) × (first w.tables ≡ ok (a, t)) × (second t ≡ ok (b, w'.tables))
execute_twice-ok env {A = A} first second w w' b h =
    >>=-cases
      (λ r.
        r ≡ (ok b, w')
        → (a : A) × (t : Tables) × (first w.tables ≡ ok (a, t)) × (second t ≡ ok (b, w'.tables)))
      (execute env first) (λ _. execute env second) w (λ e failed h. cc)
      (λ a passed h.
        let (t, ran, same) =
          execute-ok env first w (execute env first w).1 a
            (λ i. (passed i, (execute env first w).1)) in
        let (t', ran', same') = execute-ok env second (execute env first w).1 w' b h in
        (a, t, ran, ground arith))
      h
