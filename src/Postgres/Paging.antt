-- ===== src/Postgres/Paging.antt =====
-- infra/database/postgres.rs: a page of `list_items`, out of the rows from where it begins.
use testable_rust_architectu.Base.{
  ℕ, zero, suc, ◌+◌, ◌≤◌, Bool, true, false, ◌≡◌, refl, ap, ◌∙◌, ◌⊎◌, inl, inr, none, some, List,
  [], ◌∷◌, ◌++◌, map, arith, length, take, last?, ltb, if◌then◌else◌,
}
use testable_rust_architectu.Base.Effects.{Result, ok}
use testable_rust_architectu.Domain.Errors.{ItemError}
use testable_rust_architectu.Domain.Status.{BlockchainStatus, blockchain_status_from_str}
use testable_rust_architectu.Domain.Items.{Item, PaginatedResponse}
use testable_rust_architectu.World.{Env, ItemRow}
use testable_rust_architectu.Postgres.Rows.{row_to_item, collect, unwrap_or, decode_metadata}
use testable_rust_architectu.Postgres.Items.{page}

-- The item of a row, which can always be read.
abbrev pub item_of : Env → ItemRow → Item
item_of env row = record {
  id = row.id;
  hash = row.hash;
  name = row.name;
  description = row.description;
  content = row.content;
  metadata = decode_metadata env row.metadata;
  blockchain_status =
      unwrap_or (blockchain_status_from_str row.blockchain_status) BlockchainStatus.pending;
  blockchain_signature = row.blockchain_signature;
  blockchain_retry_count = row.blockchain_retry_count;
  blockchain_last_error = row.blockchain_last_error;
  blockchain_next_retry_at = row.blockchain_next_retry_at;
  created_at = row.created_at;
  updated_at = row.updated_at;
}

pub collect-rows :
    (env : Env) (rs : List ItemRow) → collect (row_to_item env) rs ≡ ok (map (item_of env) rs)
unfolding row_to_item
collect-rows env [] = refl
collect-rows env (r ∷ rs) = rw (collect-rows env rs) refl

module _ {A : Type 0} where
  take-all : (n : ℕ) (xs : List A) → length xs ≤ n → take n xs ≡ xs
  take-all zero [] h = refl
  take-all zero (x ∷ xs) h = absurd (omega arith)
  take-all (suc n) [] h = refl
  take-all (suc n) (x ∷ xs) h = ap (λ l. x ∷ l) (take-all n xs (omega arith))

  take-past : (xs ys : List A) (n : ℕ) → take (length xs + n) (xs ++ ys) ≡ xs ++ take n ys
  take-past [] ys n = let e : length {A = A} [] + n ≡ n = omega arith in ap (λ k. take k ys) e
  take-past (x ∷ xs) ys n =
      let e : length (x ∷ xs) + n ≡ suc (length xs + n) = omega arith in
      ap (λ k. take k (x ∷ (xs ++ ys))) e ∙ ap (λ l. x ∷ l) (take-past xs ys n)

  pub length-past : (xs ys : List A) → length (xs ++ ys) ≡ length xs + length ys
  length-past [] ys = omega arith
  length-past (x ∷ xs) ys = omega (arith, length-past xs ys)

  last?-snoc :
      (f : ItemRow → A) (zs : List ItemRow) (r : ItemRow)
      → last? (map f (zs ++ (r ∷ []))) ≡ some (f r)
  last?-snoc f [] r = refl
  last?-snoc f (z ∷ []) r = refl
  last?-snoc f (z ∷ y ∷ zs) r = last?-snoc f (y ∷ zs) r

  -- A list ends within the limit, or it has a last element within it and goes on.
  abbrev pub Within : ℕ → List A → Type 0
  Within limit ys =
      (length ys ≤ limit)
      ⊎ ((zs : List A) × (r : A) × (v : A) × (vs : List A) × (ys ≡ zs ++ (r ∷ v ∷ vs))
          × (length zs + 1 ≡ limit))

  pub within : (limit : ℕ) (ys : List A) → 1 ≤ limit → Within limit ys
  within zero ys h = absurd (omega arith)
  within (suc limit) [] h = inl (omega arith)
  within (suc zero) (y ∷ []) h = inl (omega arith)
  within (suc zero) (y ∷ v ∷ vs) h = inr ([], y, v, vs, refl, omega arith)
  within (suc (suc limit)) (y ∷ ys) h = elim (within (suc limit) ys (omega arith)) [
    | inl short ↦ inl (omega arith)
    | inr (zs, r, v, vs, e, n) ↦ inr (y ∷ zs, r, v, vs, ap (λ l. y ∷ l) e, omega arith)
  ]

abbrev shown : Bool → List Item → PaginatedResponse Item
shown more is = record {
  items = is;
  next_cursor = if more then elim (last? is) [ none ↦ none | some i ↦ some i.id ] else none;
  has_more = more;
}

module _ (env : Env) where
  page_lem :
      (limit : ℕ) (rows : List ItemRow)
      → page env limit rows
        ≡ ok (shown (ltb limit (length rows)) (map (item_of env) (take limit rows)))
  page_lem limit rows = rw (collect-rows env (take limit rows), page) refl

  -- The page that begins with `ys`, of which it fetches one more than its limit.
  abbrev pub page_of : ℕ → List ItemRow → Result ItemError (PaginatedResponse Item)
  page_of limit ys = page env limit (take (limit + 1) ys)

  pub page_last :
      (limit : ℕ) (ys : List ItemRow)
      → length ys ≤ limit
      → page_of limit ys
        ≡ ok (record { items = map (item_of env) ys; next_cursor = none; has_more = false })
  page_last limit ys h =
      let short : ltb limit (length ys) ≡ false = ground arith in
      ap (page env limit) (take-all (limit + 1) ys (omega arith))
      ∙ (page_lem limit ys
          ∙ (ap (λ b. ok (shown b (map (item_of env) (take limit ys)))) short
              ∙ ap (λ l. ok (shown false (map (item_of env) l))) (take-all limit ys h)))

  pub page_more :
      (zs : List ItemRow) (r v : ItemRow) (vs : List ItemRow)
      → page_of (length zs + 1) (zs ++ (r ∷ v ∷ vs))
        ≡ ok (record {
          items = map (item_of env) (zs ++ (r ∷ []));
          next_cursor = some r.id;
          has_more = true;
        })
  page_more zs r v vs =
      let limit = length zs + 1 in
      let rows = zs ++ (r ∷ v ∷ []) in
      let two : limit + 1 ≡ length zs + 2 = omega arith in
      let fetched : take (limit + 1) (zs ++ (r ∷ v ∷ vs)) ≡ rows =
        ap (λ n. take n (zs ++ (r ∷ v ∷ vs))) two ∙ take-past zs (r ∷ v ∷ vs) 2 in
      let more : ltb limit (length rows) ≡ true = ground (arith, length-past zs (r ∷ v ∷ [])) in
      ap (page env limit) fetched
      ∙ (page_lem limit rows
          ∙ (ap (λ b. ok (shown b (map (item_of env) (take limit rows)))) more
              ∙ (ap (λ l. ok (shown true (map (item_of env) l))) (take-past zs (r ∷ v ∷ []) 1)
                  ∙ ap
                      (λ o. ok (record {
                        items = map (item_of env) (zs ++ (r ∷ []));
                        next_cursor = elim o [ none ↦ none | some i ↦ some i.id ];
                        has_more = true;
                      }))
                      (last?-snoc (item_of env) zs r))))
