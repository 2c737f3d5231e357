-- ===== src/Postgres/Fairness.antt =====
-- infra/database/postgres.rs: which due entries a claim leaves for later.
use testable_rust_architectu.Base.{
  ℕ, zero, suc, ◌≤◌, String, Bool, true, false, ◌≡◌, refl, sym, ap, subst, ◌∙◌, ◌⊎◌, inl, inr, List,
  [], ◌∷◌, All, Any, arith, Bool-cases, keep, take, length, ltb, str_eq, str_eq_refl,
}
use testable_rust_architectu.Domain.Items.{Time}
use testable_rust_architectu.World.{OutboxRow}
use testable_rust_architectu.Postgres.Sorting.{insert, sort}
use testable_rust_architectu.Postgres.Sorting.Ordered.{IsOrder, IsSorted, sort-IsSorted}
use testable_rust_architectu.Postgres.Outbox.{is_claimable, candidates, is_among}

abbrev older_first : OutboxRow → OutboxRow → Bool
older_first a b = ltb a.created_at b.created_at

older_first-IsOrder : IsOrder older_first
older_first-IsOrder = record {
  asymmetric = λ a b h. ground (arith, h);
  between = λ a b c h. ground (arith, h);
}

-- The row stands in the list.
abbrev pub In : OutboxRow → List OutboxRow → Type 0
In r rs = Any (λ x. x ≡ r) rs

In-insert :
    (before : OutboxRow → OutboxRow → Bool) (r x : OutboxRow) (rs : List OutboxRow)
    → (x ≡ r) ⊎ In r rs
    → In r (insert before x rs)
unfolding insert
In-insert before r x [] h = h
In-insert before r x (y ∷ ys) h = elim (Bool-cases (before y x)) [
  | inr e ↦ rw e h
  | inl e ↦ rw e (elim h [
    | inl here ↦ inr (In-insert before r x ys (inl here))
    | inr (inl there) ↦ inl there
    | inr (inr later) ↦ inr (In-insert before r x ys (inr later))
  ])
]

pub In-sort :
    (before : OutboxRow → OutboxRow → Bool) (r : OutboxRow) (rs : List OutboxRow)
    → In r rs
    → In r (sort before rs)
unfolding sort
In-sort before r [] i = absurd i
In-sort before r (x ∷ rs) (inl here) = In-insert before r x (sort before rs) (inl here)
In-sort before r (x ∷ rs) (inr later) =
    In-insert before r x (sort before rs) (inr (In-sort before r rs later))

pub In-keep :
    (p : OutboxRow → Bool) (r : OutboxRow) (rs : List OutboxRow)
    → p r ≡ true
    → In r rs
    → In r (keep p rs)
In-keep p r [] h i = absurd i
In-keep p r (x ∷ rs) h (inl here) = let e : p x ≡ true = ap p here ∙ h in rw e (inl here)
In-keep p r (x ∷ rs) h (inr later) = elim (Bool-cases (p x)) [
  | inl e ↦ rw e (inr (In-keep p r rs h later))
  | inr e ↦ rw e (In-keep p r rs h later)
]

pub All-In :
    (P : OutboxRow → Type 0) (r : OutboxRow) (rs : List OutboxRow) → All P rs → In r rs → P r
All-In P r [] h i = absurd i
All-In P r (x ∷ rs) (h, t) (inl here) = subst P here h
All-In P r (x ∷ rs) (h, t) (inr later) = All-In P r rs t later

-- Of a sorted list, an element that is not among the first `n` has `n` before it, none younger.
left_out :
    (n : ℕ) (r : OutboxRow) (rs : List OutboxRow)
    → IsSorted older_first rs
    → In r rs
    → is_among (take n rs) r ≡ false
    → (length (take n rs) ≡ n) × All (λ c. c.created_at ≤ r.created_at) (take n rs)
left_out zero r rs s i h = (refl, tt)
left_out (suc n) r [] s i h = absurd i
left_out (suc n) r (x ∷ rs) s (inl here) h =
    let same : str_eq x.id r.id ≡ true = ap (λ y. str_eq y.id r.id) here ∙ str_eq_refl r.id in
    absurd (ground (arith, same, h))
left_out (suc n) r (x ∷ rs) (later, sorted) (inr i) h = elim (Bool-cases (str_eq x.id r.id)) [
  | inl e ↦ absurd (ground (arith, e, h))
  | inr e ↦
      let (full, older) = left_out n r rs sorted i (sym (rw e refl) ∙ h) in
      let first = All-In (λ y. older_first y x ≡ false) r rs later i in
      let earlier : x.created_at ≤ r.created_at = ground (arith, first) in
      (ap suc full, (earlier, older))
]

-- An entry that may be claimed and is not among those that a claim takes is left out only because
-- the claim is full, and every entry that it takes was created no later, whatever the times that
-- the entries are due at.
pub claim_oldest_first :
    (locked : String → Bool) (at clock : Time) (limit : ℕ) (rows : List OutboxRow) (r : OutboxRow)
    → In r rows
    → is_claimable locked at clock r ≡ true
    → is_among (candidates locked at clock limit rows) r ≡ false
    → (length (candidates locked at clock limit rows) ≡ limit)
      × All (λ c. c.created_at ≤ r.created_at) (candidates locked at clock limit rows)
unfolding candidates
claim_oldest_first locked at clock limit rows r there may missed =
    let due = keep (is_claimable locked at clock) rows in
    left_out limit r (sort older_first due) (sort-IsSorted older_first older_first-IsOrder due)
      (In-sort older_first r due (In-keep (is_claimable locked at clock) r rows may there)) missed
