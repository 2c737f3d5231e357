-- ===== src/Postgres/Pagination.antt =====
-- infra/database/postgres.rs: the pages of `list_items`, one after the other.
use testable_rust_architectu.Base.{
  ℕ, String, Bool, true, false, ◌≡◌, ◌≢◌, refl, sym, ap, subst, ◌∙◌, ◌⊎◌, some, List, [], ◌∷◌, ◌++◌,
  All, arith, keep, take,
}
use testable_rust_architectu.Base.Effects.{ok}
use testable_rust_architectu.World.{Env, ItemRow, Tables}
use testable_rust_architectu.Postgres.Sorting.{sort}
use testable_rust_architectu.Postgres.Sorting.Ordered.{
  IsOrder, IsSorted, sort-IsSorted, keep-sort, irreflexive,
}
use testable_rust_architectu.Postgres.Invariant.{Distinct, item_ids}
use testable_rust_architectu.Postgres.Differing.{Differ, sort-Differ, Distinct-Differ}
use testable_rust_architectu.Postgres.Items.{select_page, newer_first}

-- What a collation without ties between different texts gives.
pub record IsCollation (lt : String → String → Bool) : Type 0 where
  pub asymmetric : (a b : String) → lt a b ≡ true → lt b a ≡ false
  pub between : (a b c : String) → lt a c ≡ true → (lt a b ≡ true) ⊎ (lt b c ≡ true)
  pub connected : (a b : String) → lt a b ≡ false → lt b a ≡ false → a ≡ b

module _ (env : Env) (collation : IsCollation env.text_lt) where
  pub newer-IsOrder : IsOrder (newer_first env)
  newer-IsOrder = record {
    asymmetric = λ a b h. let back = collation.asymmetric b.id a.id in ground (arith, h, back);
    between = λ a b c h. let mid = collation.between c.id b.id a.id in ground (arith, h, mid);
  }

  pub newer-connected :
      (a b : ItemRow) → a.id ≢ b.id → newer_first env b a ≡ false → newer_first env a b ≡ true
  newer-connected a b differ h = let same = collation.connected a.id b.id in ground (arith, h, same)

abbrev pub item_key : ItemRow → String
item_key r = r.id

module _ {A : Type 0} (p : A → Bool) where
  keep_selected : (xs : List A) → All (λ x. p x ≡ true) xs → keep p xs ≡ xs
  keep_selected [] h = refl
  keep_selected (x ∷ xs) (h, t) = rw h (ap (λ l. x ∷ l) (keep_selected xs t))

  -- Nothing is selected up to an element that is not.
  keep-past :
      (xs : List A) (r : A) (ys : List A)
      → All (λ x. p x ≡ false) xs
      → p r ≡ false
      → keep p (xs ++ (r ∷ ys)) ≡ keep p ys
  keep-past [] r ys h e = rw e refl
  keep-past (x ∷ xs) r ys (h, t) e = rw h (keep-past xs r ys t e)

pub All-both :
    {A : Type 0} (P Q R : A → Type 0) (xs : List A)
    → ((x : A) → P x → Q x → R x)
    → All P xs
    → All Q xs
    → All R xs
All-both P Q R [] f h k = tt
All-both P Q R (x ∷ xs) f (h, t) (k, u) = (f x h k, All-both P Q R xs f t u)

-- In a sorted list: what stands before an element, and what after.
IsSorted-before :
    (before : ItemRow → ItemRow → Bool) (xs : List ItemRow) (r : ItemRow) (ys : List ItemRow)
    → IsSorted before (xs ++ (r ∷ ys))
    → All (λ x. before r x ≡ false) xs
IsSorted-before before [] r ys h = tt
IsSorted-before before (x ∷ xs) r ys (h, t) =
    (All-middle _ xs r ys h, IsSorted-before before xs r ys t)
  where
    All-middle :
        (P : ItemRow → Type 0) (xs : List ItemRow) (r : ItemRow) (ys : List ItemRow)
        → All P (xs ++ (r ∷ ys))
        → P r
    All-middle P [] r ys (h, t) = h
    All-middle P (x ∷ xs) r ys (h, t) = All-middle P xs r ys t

IsSorted-tail :
    (before : ItemRow → ItemRow → Bool) (xs : List ItemRow) (r : ItemRow) (ys : List ItemRow)
    → IsSorted before (xs ++ (r ∷ ys))
    → All (λ x. before x r ≡ false) ys
IsSorted-tail before [] r ys (h, t) = h
IsSorted-tail before (x ∷ xs) r ys (h, t) = IsSorted-tail before xs r ys t

Differ-tail :
    (xs : List ItemRow) (r : ItemRow) (ys : List ItemRow)
    → Differ item_key (xs ++ (r ∷ ys))
    → All (λ x. r.id ≢ x.id) ys
Differ-tail [] r ys (h, t) = h
Differ-tail (x ∷ xs) r ys (h, t) = Differ-tail xs r ys t

-- All pages of a table are cut from one list, its items from the newest to the oldest: if `r` stands
-- in it, the page after the cursor of `r` is what follows `r` there, up to the limit, with no item
-- left out or shown again. For a table with distinct ids, under a collation that tells texts apart.
pub page_after_cursor :
    (env : Env) (collation : IsCollation env.text_lt) (t : Tables) (limit : ℕ) (xs : List ItemRow)
    (r : ItemRow) (ys : List ItemRow)
    → Distinct (item_ids t)
    → sort (newer_first env) t.items ≡ xs ++ (r ∷ ys)
    → select_page env (some (r.created_at, r.id)) limit t ≡ ok (take limit ys, t)
page_after_cursor env collation t limit xs r ys distinct listed =
    let before = newer_first env in
    let order = newer-IsOrder env collation in
    let p = before r in
    let sorted = subst (IsSorted before) listed (sort-IsSorted before order t.items) in
    let differ =
      subst (Differ item_key) listed
        (sort-Differ item_key before t.items (Distinct-Differ item_key t.items distinct)) in
    let older_after =
      All-both (λ x. before x r ≡ false) (λ x. r.id ≢ x.id) (λ x. p x ≡ true) ys
        (λ x a d. newer-connected env collation r x d a) (IsSorted-tail before xs r ys sorted)
        (Differ-tail xs r ys differ) in
    let rest =
      sym (keep-sort before order p t.items)
      ∙ (ap (keep p) listed
          ∙ (keep-past p xs r ys (IsSorted-before before xs r ys sorted)
                (irreflexive before order r)
              ∙ keep_selected p ys older_after)) in
    ap (λ l. ok (take limit l, t)) rest
