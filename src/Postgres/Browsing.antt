-- ===== src/Postgres/Browsing.antt =====
-- infra/database/postgres.rs: a client that asks `list_items` for page after page.
use testable_rust_architectu.Base.{
  ℕ, zero, suc, ◌+◌, ◌≤◌, ◌<◌, String, Bool, ◌≡◌, refl, sym, ap, subst, ◌∙◌, inl, inr, Option, none,
  some, List, [], ◌∷◌, ◌++◌, map, arith, length, take, str_eq, str_eq_refl, find?, All, ◌≢◌,
  str_eq_ne,
}
use testable_rust_architectu.Base.Int.{ℤ, pos, pos_part, clamp}
use testable_rust_architectu.Base.Effects.{Action, ok, pure, ◌>>=◌, >>=-ok}
use testable_rust_architectu.Domain.Errors.{ItemError}
use testable_rust_architectu.Domain.Items.{Item, PaginatedResponse}
use testable_rust_architectu.World.{World, Env, ItemRow, Tables}
use testable_rust_architectu.Postgres.Sorting.{sort, All-sort}
use testable_rust_architectu.Postgres.Sorting.Ordered.{length-sort}
use testable_rust_architectu.Postgres.Invariant.{Distinct, item_ids}
use testable_rust_architectu.Postgres.Items.{page, item_row, newer_first, list_items, select_page}
use testable_rust_architectu.Postgres.Effects.{list_items_same}
use testable_rust_architectu.Postgres.Differing.{Differ, Distinct-Differ}
use testable_rust_architectu.Postgres.Pagination.{
  IsCollation, page_after_cursor, item_key, All-both,
}
use testable_rust_architectu.Postgres.Paging.{
  item_of, page_of, page_last, page_more, within, length-past,
}
use mathlib.Core.List.{append_assoc, map-append}

abbrev append_to : List Item → Option (List Item) → Option (List Item)
append_to is none = none
append_to is (some js) = some (is ++ js)

-- The items of a page, and those of the pages after it.
abbrev follow :
    (String → Action World ItemError (Option (List Item)))
    → PaginatedResponse Item
    → Action World ItemError (Option (List Item))
follow after p = elim p.next_cursor [
  | none ↦ pure (some p.items)
  | some c ↦ do rest ← after c; pure (append_to p.items rest)
]

-- The items of all pages, one after the other, from the page that a cursor names on; `none` if the
-- fuel runs out first.
unfoldable pub browse :
    (Option String → Action World ItemError (PaginatedResponse Item))
    → ℕ
    → Option String
    → Action World ItemError (Option (List Item))
browse ask zero cursor = pure none
browse ask (suc n) cursor = do p ← ask cursor; follow (λ c. browse ask n (some c)) p

lookup-All :
    (rs : List ItemRow)
    → Differ item_key rs
    → All (λ x. find? (λ r. str_eq r.id x.id) rs ≡ some x) rs
lookup-All [] d = tt
lookup-All (r ∷ rs) (h, d) = (
  rw (str_eq_refl r.id) refl,
  All-both (λ x. r.id ≢ x.id) (λ x. find? (λ y. str_eq y.id x.id) rs ≡ some x)
      (λ x. find? (λ y. str_eq y.id x.id) (r ∷ rs) ≡ some x) rs
      (λ x other found. rw (str_eq_ne r.id x.id other) found) h (lookup-All rs d),
)

All-middle :
    (P : ItemRow → Type 0) (xs : List ItemRow) (r : ItemRow) (ys : List ItemRow)
    → All P (xs ++ (r ∷ ys))
    → P r
All-middle P [] r ys (h, t) = h
All-middle P (x ∷ xs) r ys (h, t) = All-middle P xs r ys t

-- A row of the sorted table is found by its id.
sorted_found :
    (before : ItemRow → ItemRow → Bool) (t : Tables) (xs : List ItemRow) (r : ItemRow)
    (ys : List ItemRow)
    → Distinct (item_ids t)
    → sort before t.items ≡ xs ++ (r ∷ ys)
    → item_row r.id t ≡ some r
sorted_found before t xs r ys distinct listed =
    let Found = λ (x : ItemRow). item_row x.id t ≡ some x in
    All-middle Found xs r ys (
      subst (All Found) listed (
        All-sort Found before t.items
          (lookup-All t.items (Distinct-Differ item_key t.items distinct))))

module _ (env : Env) (collation : IsCollation env.text_lt) (calm : (n : ℕ) → env.fault n ≡ none)
    (requested : ℤ) where
  abbrev limit : ℕ
  limit = pos_part (clamp requested (pos 1) (pos 100))

  limit_pos : 1 ≤ limit
  limit_pos = ground arith

  -- The page that a cursor asks for begins with these rows.
  abbrev Begins : Tables → Option String → List ItemRow → Type 0
  Begins t cursor ys =
      (w : World) → w.tables ≡ t → (list_items env requested cursor w).0 ≡ page_of env limit ys

  first-Begins : (t : Tables) → Begins t none (sort (newer_first env) t.items)
  unfolding list_items
  first-Begins t w same = rw (← same) (ground (arith, calm w.ticks))

  later_page :
      (w : World) (c : String) (r : ItemRow) (rows : List ItemRow)
      → item_row c w.tables ≡ some r
      → select_page env (some (r.created_at, c)) (limit + 1) w.tables ≡ ok (rows, w.tables)
      → (list_items env requested (some c) w).0 ≡ page env limit rows
  unfolding list_items
  later_page w c r rows found selected = ground (arith, calm w.ticks, calm (w.ticks + 1))

  later-Begins :
      (t : Tables) (xs : List ItemRow) (r : ItemRow) (ys : List ItemRow)
      → Distinct (item_ids t)
      → sort (newer_first env) t.items ≡ xs ++ (r ∷ ys)
      → Begins t (some r.id) ys
  later-Begins t xs r ys distinct listed w same =
      let found = sorted_found (newer_first env) t xs r ys distinct listed in
      let selected = page_after_cursor env collation t (limit + 1) xs r ys distinct listed in
      later_page w r.id r (take (limit + 1) ys) (ap (item_row r.id) same ∙ found) (
        subst
          (λ u.
            select_page env (some (r.created_at, r.id)) (limit + 1) u ≡ ok (take (limit + 1) ys, u))
          (sym same) selected)

  -- One call of the client, once its page is known.
  browse_step :
      (n : ℕ) (cursor : Option String) (w : World) (p : PaginatedResponse Item)
      → (list_items env requested cursor w).0 ≡ ok p
      → let rest = λ (c : String). browse (list_items env requested) n (some c) in
        browse (list_items env requested) (suc n) cursor w
        ≡ follow rest p (list_items env requested cursor w).1
  unfolding browse
  browse_step n cursor w p h =
      >>=-ok (list_items env requested cursor)
        (follow (λ c. browse (list_items env requested) n (some c))) w
        (ap (λ r. (r, (list_items env requested cursor w).1)) h)

  browse_rest :
      (n : ℕ) (xs ys : List ItemRow) (cursor : Option String) (t : Tables) (w : World)
      → Distinct (item_ids t)
      → sort (newer_first env) t.items ≡ xs ++ ys
      → Begins t cursor ys
      → w.tables ≡ t
      → length ys < n
      → (browse (list_items env requested) n cursor w).0 ≡ ok (some (map (item_of env) ys))
  browse_rest zero xs ys cursor t w distinct listed begins same h = absurd (omega arith)
  browse_rest (suc n) xs ys cursor t w distinct listed begins same h =
      elim (within limit ys limit_pos) [
        | inl short ↦
            ap (λ a. a.0) (browse_step n cursor w _ (begins w same ∙ page_last env limit ys short))
        | inr (zs, r, v, vs, e, full) ↦
            let ask = list_items env requested in
            let w' = (ask cursor w).1 in
            let same' = list_items_same env w requested cursor ∙ same in
            let listed' = listed ∙ (ap (λ l. xs ++ l) e ∙ sym (append_assoc xs zs (r ∷ v ∷ vs))) in
            let longer : sort (newer_first env) t.items ≡ ((xs ++ zs) ++ (r ∷ [])) ++ (v ∷ vs) =
              listed' ∙ sym (append_assoc (xs ++ zs) (r ∷ []) (v ∷ vs)) in
            let fewer : length (v ∷ vs) < n =
              omega (arith, ap length e, length-past zs (r ∷ v ∷ vs)) in
            let rest =
              browse_rest n ((xs ++ zs) ++ (r ∷ [])) (v ∷ vs) (some r.id) t w' distinct longer
                (later-Begins t (xs ++ zs) r (v ∷ vs) distinct listed') same' fewer in
            let paged =
              begins w same
              ∙ (ap (page_of env limit) e
                  ∙ (ap (λ k. page_of env k (zs ++ (r ∷ v ∷ vs))) (sym full)
                      ∙ page_more env zs r v vs)) in
            let all : map (item_of env) (zs ++ (r ∷ [])) ++ map (item_of env) (v ∷ vs)
                ≡ map (item_of env) ys =
              sym (map-append (item_of env) (zs ++ (r ∷ [])) (v ∷ vs))
              ∙ ap (map (item_of env)) (append_assoc zs (r ∷ []) (v ∷ vs) ∙ sym e) in
            ap (λ a. a.0) (browse_step n cursor w _ paged)
            ∙ (ap (λ a. a.0)
                  (>>=-ok (browse ask n (some r.id))
                    (λ is. pure (append_to (map (item_of env) (zs ++ (r ∷ []))) is)) w'
                    (ap (λ a. (a, (browse ask n (some r.id) w').1)) rest))
                ∙ ap (λ l. ok (some l)) all)
      ]

-- From the first page on.
pub browse_all :
    (env : Env) (collation : IsCollation env.text_lt) (calm : (n : ℕ) → env.fault n ≡ none)
    (requested : ℤ) (n : ℕ) (w : World)
    → Distinct (item_ids w.tables)
    → length w.tables.items < n
    → (browse (list_items env requested) n none w).0
      ≡ ok (some (map (item_of env) (sort (newer_first env) w.tables.items)))
browse_all env collation calm requested n w distinct enough =
    let sorted = sort (newer_first env) w.tables.items in
    browse_rest env collation calm requested n [] sorted none w.tables w distinct refl
      (first-Begins env collation calm requested w.tables) refl
      (subst (λ k. k < n) (sym (length-sort (newer_first env) w.tables.items)) enough)
