-- ===== src/Postgres/Sql.antt =====
-- infra/database/postgres.rs: statements, transactions and the mapping of errors. A statement is
-- a function on the tables, which may be refused by a constraint; a call of the database may fail
-- for any other reason that the environment chooses, and then has no effect.
use testable_rust_architectu.Base.{
  String, Bool, none, some, List, [], ◌∷◌, if◌then◌else◌, str_eq, any,
}
use testable_rust_architectu.Base.Effects.{Action, Result, ok, err}
use testable_rust_architectu.Domain.Errors.{ItemError, not_found, invalid_state, repository_failure}
use testable_rust_architectu.Domain.Items.{Time}
use testable_rust_architectu.World.{
  SqlxError, row_not_found, database, other_error, Tables, ItemRow, OutboxRow, World, Env, bump,
}

unfoldable pub map_sqlx_to_item_error : SqlxError → ItemError
map_sqlx_to_item_error row_not_found = not_found "Row not found"
map_sqlx_to_item_error (database none) = repository_failure
map_sqlx_to_item_error (database (some code)) =
    if str_eq code "23505" then invalid_state "Duplicate" else repository_failure
map_sqlx_to_item_error other_error = repository_failure

-- What a statement returns, and the tables after it.
abbrev pub Statement : Type 0 → Type 0
Statement A = Tables → Result SqlxError (A × Tables)

abbrev pub settle : {A : Type 0} → Result SqlxError (A × Tables) → Action World ItemError A
settle (ok (a, t)) w = (ok a, record w { tables = t })
settle (err e) w = (err (map_sqlx_to_item_error e), w)

module _ (env : Env) where
  -- One call of the database, `NOW()` being the time of the call.
  abbrev pub execute_now : {A : Type 0} → (Time → Statement A) → Action World ItemError A
  execute_now stmt w = elim (env.fault w.ticks) [
    | some e ↦ (err (map_sqlx_to_item_error e), bump w)
    | none ↦ settle (stmt (env.db_now w.ticks) w.tables) (bump w)
  ]

  abbrev pub execute : {A : Type 0} → Statement A → Action World ItemError A
  execute stmt = execute_now (λ _. stmt)

  -- A commit that reports an error may have taken effect all the same.
  abbrev pub commit : {A : Type 0} → Tables → A → Action World ItemError A
  commit before a w = elim (env.fault w.ticks) [
    | none ↦ (ok a, bump w)
    | some e ↦ (
      err (map_sqlx_to_item_error e),
      if env.commit_applied w.ticks then bump w else record (bump w) { tables = before },
    )
  ]

  abbrev pub finish : {A : Type 0} → Tables → Result ItemError A → Action World ItemError A
  finish before (ok a) w = commit before a w
  finish before (err e) w = (err e, record w { tables = before })

  -- `pool.begin()`, the statements, `tx.commit()`; a transaction dropped by an early return is
  -- rolled back. `NOW()` is the time at which it began.
  abbrev pub transaction :
      {A : Type 0} → (Time → Action World ItemError A) → Action World ItemError A
  transaction body w = elim (env.fault w.ticks) [
    | some e ↦ (err (map_sqlx_to_item_error e), bump w)
    | none ↦ let (r, w') = body (env.db_now w.ticks) (bump w) in finish w.tables r w'
  ]

abbrev pub has_item : String → List ItemRow → Bool
has_item id = any (λ r. str_eq r.id id)

abbrev pub has_outbox : String → List OutboxRow → Bool
has_outbox id = any (λ r. str_eq r.id id)

-- `id` is the primary key of both tables, and `aggregate_id` refers to `items`.
unfoldable pub insert_item : ItemRow → Statement (Unit {0})
insert_item r t =
    if has_item r.id t.items
    then err (database (some "23505"))
    else ok (tt, record t { items = r ∷ t.items })

unfoldable pub insert_outbox : OutboxRow → Statement (Unit {0})
insert_outbox r t =
    if has_outbox r.id t.outbox
    then err (database (some "23505"))
    else if has_item r.aggregate_id t.items
    then ok (tt, record t { outbox = r ∷ t.outbox })
    else err (database (some "23503"))

-- `UPDATE … WHERE id = …`.
abbrev pub update_items_where : String → (ItemRow → ItemRow) → List ItemRow → List ItemRow
update_items_where id f [] = []
update_items_where id f (r ∷ rs) = (if str_eq r.id id then f r else r) ∷ update_items_where id f rs

abbrev pub update_outbox_where : String → (OutboxRow → OutboxRow) → List OutboxRow → List OutboxRow
update_outbox_where id f [] = []
update_outbox_where id f (r ∷ rs) =
    (if str_eq r.id id then f r else r) ∷ update_outbox_where id f rs
