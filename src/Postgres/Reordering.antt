-- ===== src/Postgres/Reordering.antt =====
-- infra/database/postgres.rs: `list_items` does not depend on the order in which the table holds
-- its rows, which SQL leaves open.
use testable_rust_architectu.Base.{
  ℕ, String, Bool, true, ◌≡◌, ◌≢◌, refl, sym, ap, ◌∙◌, ◌⊎◌, inl, inr, Option, none, some, List, [],
  ◌∷◌, All, arith, Bool-cases, Option-cases, keep, find?, str_eq, eq_iff,
}
use testable_rust_architectu.Base.Int.{ℤ}
use testable_rust_architectu.World.{World, Env, ItemRow}
use testable_rust_architectu.Postgres.Sorting.{sort, insert}
use testable_rust_architectu.Postgres.Sorting.Ordered.{IsOrder, keep-sort}
use testable_rust_architectu.Postgres.Invariant.{Distinct, item_ids}
use testable_rust_architectu.Postgres.Items.{item_row, newer_first, older, after_cursor, list_items}
use testable_rust_architectu.Postgres.Differing.{Differ, Distinct-Differ}
use testable_rust_architectu.Postgres.Pagination.{
  IsCollation, newer-IsOrder, newer-connected, item_key,
}

-- The same rows in some other order.
pub data Reordered : List ItemRow → List ItemRow → Type 0 where
  same : {rs : List ItemRow} → Reordered rs rs
  behind : (r : ItemRow) {rs rs' : List ItemRow} → Reordered rs rs' → Reordered (r ∷ rs) (r ∷ rs')
  swapped : (r r' : ItemRow) {rs : List ItemRow} → Reordered (r ∷ r' ∷ rs) (r' ∷ r ∷ rs)
  and_then :
      {rs rs' rs'' : List ItemRow} → Reordered rs rs' → Reordered rs' rs'' → Reordered rs rs''

All-Reordered :
    (P : ItemRow → Type 0) {rs rs' : List ItemRow} → Reordered rs rs' → All P rs → All P rs'
All-Reordered P same h = h
All-Reordered P (behind r o) (h, t) = (h, All-Reordered P o t)
All-Reordered P (swapped r r') (h, (k, t)) = (k, (h, t))
All-Reordered P (and_then o o') h = All-Reordered P o' (All-Reordered P o h)

Differ-Reordered :
    {rs rs' : List ItemRow} → Reordered rs rs' → Differ item_key rs → Differ item_key rs'
Differ-Reordered same d = d
Differ-Reordered (behind r o) (h, d) = (All-Reordered (λ x. r.id ≢ x.id) o h, Differ-Reordered o d)
Differ-Reordered (swapped r r') ((h, t), (k, d)) = ((λ e. h (sym e), k), (t, d))
Differ-Reordered (and_then o o') d = Differ-Reordered o' (Differ-Reordered o d)

-- The row of an id.
found-Reordered :
    (id : String) {rs rs' : List ItemRow}
    → Reordered rs rs'
    → Differ item_key rs
    → find? (λ r. str_eq r.id id) rs ≡ find? (λ r. str_eq r.id id) rs'
found-Reordered id same d = refl
found-Reordered id (behind r o) (h, d) = ground (arith, found-Reordered id o d)
found-Reordered id (swapped r r') ((h, t), (k, d)) = ground (arith, eq_iff r.id id, eq_iff r'.id id)
found-Reordered id (and_then o o') d =
    found-Reordered id o d ∙ found-Reordered id o' (Differ-Reordered o d)

module _ (before : ItemRow → ItemRow → Bool) (order : IsOrder before) where
  -- Where one of the two comes before the other, they are inserted in either order.
  insert_comm :
      (x y : ItemRow)
      → (before x y ≡ true) ⊎ (before y x ≡ true)
      → (rs : List ItemRow)
      → insert before x (insert before y rs) ≡ insert before y (insert before x rs)
  unfolding insert
  insert_comm x y either [] = ground (arith, order.asymmetric x y, order.asymmetric y x)
  insert_comm x y either (z ∷ zs) = ground (
    arith,
    insert_comm x y either zs,
    order.asymmetric x y,
    order.asymmetric y x,
    order.between z y x,
    order.between z x y,
  )

module _ (env : Env) (collation : IsCollation env.text_lt) where
  sort-Reordered :
      {rs rs' : List ItemRow}
      → Reordered rs rs'
      → Differ item_key rs
      → sort (newer_first env) rs ≡ sort (newer_first env) rs'
  unfolding sort
  sort-Reordered same d = refl
  sort-Reordered (behind r o) (h, d) = ap (insert (newer_first env) r) (sort-Reordered o d)
  sort-Reordered (swapped r r' {rs = rs}) ((h, t), d) =
      let either : (newer_first env r r' ≡ true) ⊎ (newer_first env r' r ≡ true) =
        elim (Bool-cases (newer_first env r' r)) [
          | inl e ↦ inr e
          | inr e ↦ inl (newer-connected env collation r r' h e)
        ] in
      insert_comm (newer_first env) (newer-IsOrder env collation) r r' either
        (sort (newer_first env) rs)
  sort-Reordered (and_then o o') d = sort-Reordered o d ∙ sort-Reordered o' (Differ-Reordered o d)

  -- The rows after a cursor, in their order.
  after-Reordered :
      (cursor : Option (ℕ × String)) {rs rs' : List ItemRow}
      → Reordered rs rs'
      → Differ item_key rs
      → sort (newer_first env) (after_cursor env cursor rs)
        ≡ sort (newer_first env) (after_cursor env cursor rs')
  after-Reordered none o d = sort-Reordered o d
  after-Reordered (some (c, i)) {rs = rs} {rs' = rs'} o d =
      let p = λ (r : ItemRow). older env r c i in
      let kept = keep-sort (newer_first env) (newer-IsOrder env collation) p in
      sym (kept rs) ∙ (ap (keep p) (sort-Reordered o d) ∙ kept rs')

-- The answer to a request for a page does not depend on the order in which the table holds its
-- items, with any faults of the database: where the ids are distinct and the collation tells texts
-- apart.
pub list_items-Reordered :
    (env : Env) (collation : IsCollation env.text_lt) (limit : ℤ) (cursor : Option String)
    (w : World) (rows : List ItemRow)
    → Distinct (item_ids w.tables)
    → Reordered w.tables.items rows
    → (list_items env limit cursor w).0
      ≡ (list_items env limit cursor (record w { tables = record w.tables { items = rows } })).0
unfolding list_items
list_items-Reordered env collation limit none w rows distinct o =
    let d = Distinct-Differ item_key w.tables.items distinct in
    ground (arith, after-Reordered env collation none o d)
list_items-Reordered env collation limit (some c) w rows distinct o =
    let d = Distinct-Differ item_key w.tables.items distinct in
    let found = found-Reordered c o d in
    elim (Option-cases (item_row c w.tables)) [
      | inl e ↦ ground (arith, e, found)
      | inr (r, e) ↦
          ground (arith, e, found, after-Reordered env collation (some (r.created_at, c)) o d)
    ]
