-- ===== src/Service/Selecting.antt =====
-- infra/database/postgres.rs: the rows that a claim selects.
use testable_rust_architectu.Base.{
  All-implies, ℕ, zero, suc, ◌+◌, ◌≤◌, ◌≢◌, min, not, ◌&&◌, str_eq_ne, String, Bool, true, false,
  ◌≡◌, refl, sym, ap, subst, ◌∙◌, inl, inr, List, [], ◌∷◌, map, arith, length, keep, take, All,
  str_eq, str_eq_refl, eq_iff, Bool-cases, if◌then◌else◌, ltb,
}
use testable_rust_architectu.Domain.Items.{Time}
use testable_rust_architectu.World.{OutboxRow}
use testable_rust_architectu.Postgres.Sorting.{sort, All-sort, All-keep, All-take, All-always}
use testable_rust_architectu.Postgres.Sorting.Ordered.{length-sort}
use testable_rust_architectu.Postgres.Invariant.{Distinct}
use testable_rust_architectu.Postgres.Differing.{
  Differ, sort-Differ, keep-Differ, take-Differ, Distinct-Differ,
}
use testable_rust_architectu.Postgres.Pagination.{All-both}
use testable_rust_architectu.Postgres.Outbox.{is_claimable, candidates, is_among}
use testable_rust_architectu.Postgres.Fairness.{In}
use testable_rust_architectu.Service.Standing.{waits}

-- What holds of the selected elements, once changed.
module _ {A : Type 0} (P : A → Type 0) (c : A → Bool) (f : A → A) where
  pub All-selected : (xs : List A) → All P (map f (keep c xs)) → All (λ x. c x ≡ true → P (f x)) xs
  All-selected [] h = tt
  All-selected (x ∷ xs) h = elim (Bool-cases (c x)) [
    | inl e ↦
        let (first, rest) : P (f x) × All P (map f (keep c xs)) =
          subst (λ b. All P (map f (if b then x ∷ keep c xs else keep c xs))) e h in
        (λ _. first, All-selected xs rest)
    | inr e ↦
        let rest = subst (λ b. All P (map f (if b then x ∷ keep c xs else keep c xs))) e h in
        (λ k. absurd (let z = sym e ∙ k in cc), All-selected xs rest)
  ]

-- Fewer rows pass a test than pass a weaker one, and fewer still where one row tells them apart.
module _ (p q : OutboxRow → Bool) where
  pub keep-le :
      (xs : List OutboxRow)
      → All (λ a. p a ≡ true → q a ≡ true) xs
      → length (keep p xs) ≤ length (keep q xs)
  keep-le [] h = omega arith
  keep-le (x ∷ xs) (h, t) = ground (arith, h, keep-le xs t)

  keep-lt :
      (r : OutboxRow) (xs : List OutboxRow)
      → q r ≡ true
      → p r ≡ false
      → All (λ a. p a ≡ true → q a ≡ true) xs
      → In r xs
      → length (keep p xs) + 1 ≤ length (keep q xs)
  keep-lt r [] y n h i = absurd i
  keep-lt r (x ∷ xs) y n (h, t) (inl same) =
      let y' : q x ≡ true = ap q same ∙ y in
      let n' : p x ≡ false = ap p same ∙ n in ground (arith, y', n', keep-le xs t)
  keep-lt r (x ∷ xs) y n (h, t) (inr later) = ground (arith, h, keep-lt r xs y n t later)

abbrev pub outbox_key : OutboxRow → String
outbox_key r = r.id

abbrev pub unless_among : (OutboxRow → Bool) → List OutboxRow → OutboxRow → Bool
unless_among q cs r = q r && not (is_among cs r)

-- Without some rows of different ids that pass a test, as many fewer pass it.
pub without_rows :
    (rows cs : List OutboxRow) (q : OutboxRow → Bool)
    → All (λ c. In c rows) cs
    → All (λ c. q c ≡ true) cs
    → Differ outbox_key cs
    → length (keep (unless_among q cs) rows) + length cs ≤ length (keep q rows)
without_rows rows [] q i h d =
    omega (arith, keep-le (unless_among q []) q rows (All-always _ rows (λ r e. ground (arith, e))))
without_rows rows (c ∷ cs) q (here, i) (may, h) (other, d) =
    let q' = λ (r : OutboxRow). q r && not (str_eq c.id r.id) in
    let h' =
      All-both (λ x. q x ≡ true) (λ x. c.id ≢ x.id) (λ x. q' x ≡ true) cs
        (λ x e n. ground (arith, e, str_eq_ne c.id x.id n)) h other in
    let fewer =
      keep-le (unless_among q (c ∷ cs)) (unless_among q' cs) rows
        (All-always _ rows (λ r e. ground (arith, e))) in
    let less =
      keep-lt q' q c rows may (ground (arith, str_eq_refl c.id))
        (All-always _ rows (λ r e. ground (arith, e))) here in
    omega (arith, fewer, less, without_rows rows cs q' i h' d)

In-self : (rs : List OutboxRow) → All (λ x. In x rs) rs
In-self [] = tt
In-self (r ∷ rs) =
    (inl refl, All-implies (λ x. In x rs) (λ x. In x (r ∷ rs)) rs (λ x i. inr i) (In-self rs))

length-take-bound : (n : ℕ) (xs : List OutboxRow) → length (take n xs) ≡ min n (length xs)
length-take-bound zero xs = omega arith
length-take-bound (suc n) [] = omega arith
length-take-bound (suc n) (x ∷ xs) = omega (arith, length-take-bound n xs)

-- A claim takes rows that may be claimed, under different ids, and as many as it can.
module _ (locked : String → Bool) (at clock : Time) (limit : ℕ) (rows : List OutboxRow) where
  abbrev pub cs : List OutboxRow
  cs = candidates locked at clock limit rows

  abbrev older : OutboxRow → OutboxRow → Bool
  older a b = ltb a.created_at b.created_at

  pub candidates-All :
      (P : OutboxRow → Type 0)
      → All (λ r. is_claimable locked at clock r ≡ true → P r) rows
      → All P cs
  unfolding candidates
  candidates-All P h =
      let may = is_claimable locked at clock in
      All-take P limit (sort older (keep may rows))
        (All-sort P older (keep may rows) (All-keep P may rows h))

  pub candidates-In : All (λ c. In c rows) cs
  candidates-In =
      candidates-All (λ c. In c rows)
        (All-implies (λ x. In x rows) _ rows (λ x i _. i) (In-self rows))

  pub candidates-Differ : Distinct (map outbox_key rows) → Differ outbox_key cs
  unfolding candidates
  candidates-Differ distinct =
      let may = is_claimable locked at clock in
      take-Differ outbox_key limit (sort older (keep may rows)) (
        sort-Differ outbox_key older (keep may rows)
          (keep-Differ outbox_key may rows (Distinct-Differ outbox_key rows distinct)))

  pub length-candidates : length cs ≡ min limit (length (keep (is_claimable locked at clock) rows))
  unfolding candidates
  length-candidates =
      let may = is_claimable locked at clock in
      omega (
        arith,
        length-take-bound limit (sort older (keep may rows)),
        length-sort older (keep may rows),
      )

-- A row that may be claimed waits.
pub claimable-open :
    (locked : String → Bool) (at clock : Time) (r : OutboxRow)
    → is_claimable locked at clock r ≡ true
    → waits [] r ≡ true
claimable-open locked at clock r h = elim (Bool-cases (str_eq r.status "completed")) [
  | inr other ↦ rw other refl
  | inl done ↦
      let same = (eq_iff r.status "completed").0 done in
      let waiting : str_eq r.status "pending" ≡ false = ap (λ t. str_eq t "pending") same in
      let running : str_eq r.status "processing" ≡ false = ap (λ t. str_eq t "processing") same in
      absurd (ground (arith, h, waiting, running))
]
