-- ===== src/Postgres/Differing.antt =====
-- Rows whose keys differ, under sorting and selection.
use testable_rust_architectu.Base.{
  All-implies, ℕ, zero, suc, String, Bool, true, false, ◌≡◌, ◌≢◌, sym, ap, ◌∙◌, refl, List, [], ◌∷◌,
  map, All, Bool-cases, inl, inr, arith, keep, take, str_eq, str_eq_refl,
}
use testable_rust_architectu.Postgres.Sorting.{
  sort, insert, All-insert, All-sort, All-keep, All-take,
}
use testable_rust_architectu.Postgres.Invariant.{Distinct, mem}

module _ {A : Type 0} (key : A → String) where
  abbrev pub Differ : List A → Type 0
  Differ [] = Unit
  Differ (r ∷ rs) = All (λ x. key r ≢ key x) rs × Differ rs

  insert-Differ :
      (before : A → A → Bool) (r : A) (rs : List A)
      → All (λ x. key r ≢ key x) rs
      → Differ rs
      → Differ (insert before r rs)
  unfolding insert
  insert-Differ before r [] h d = (tt, tt)
  insert-Differ before r (x ∷ rs) (h, t) (d, ds) = elim (Bool-cases (before x r)) [
    | inl e ↦ rw e (
      All-insert (λ y. key x ≢ key y) before r rs (λ same. h (sym same)) d,
      insert-Differ before r rs t ds,
    )
    | inr e ↦ rw e ((h, t), (d, ds))
  ]

  pub sort-Differ : (before : A → A → Bool) (rs : List A) → Differ rs → Differ (sort before rs)
  unfolding sort
  sort-Differ before [] d = tt
  sort-Differ before (r ∷ rs) (h, d) =
      insert-Differ before r (sort before rs) (All-sort (λ x. key r ≢ key x) before rs h)
        (sort-Differ before rs d)

  pub keep-Differ : (p : A → Bool) (rs : List A) → Differ rs → Differ (keep p rs)
  keep-Differ p [] d = tt
  keep-Differ p (r ∷ rs) (h, d) = elim (Bool-cases (p r)) [
    | inl e ↦
        let Other = λ (x : A). key r ≢ key x in
        rw e (
          All-keep Other p rs (All-implies Other (λ x. p x ≡ true → Other x) rs (λ x o _. o) h),
          keep-Differ p rs d,
        )
    | inr e ↦ rw e (keep-Differ p rs d)
  ]

  pub take-Differ : (n : ℕ) (rs : List A) → Differ rs → Differ (take n rs)
  take-Differ zero rs d = tt
  take-Differ (suc n) [] d = tt
  take-Differ (suc n) (r ∷ rs) (h, d) = (All-take (λ x. key r ≢ key x) n rs h, take-Differ n rs d)

  unlisted-Differ :
      (id : String) (rs : List A) → mem id (map key rs) ≡ false → All (λ x. id ≢ key x) rs
  unlisted-Differ id [] h = tt
  unlisted-Differ id (r ∷ rs) h = elim (Bool-cases (str_eq (key r) id)) [
    | inl e ↦ absurd (ground (arith, e, h))
    | inr e ↦ (
      λ same. let t = sym (ap (λ j. str_eq j id) same) ∙ str_eq_refl id in cc,
      unlisted-Differ id rs (sym (rw e refl) ∙ h),
    )
  ]

  pub Distinct-Differ : (rs : List A) → Distinct (map key rs) → Differ rs
  Distinct-Differ [] d = tt
  Distinct-Differ (r ∷ rs) (h, d) = (unlisted-Differ (key r) rs h, Distinct-Differ rs d)
