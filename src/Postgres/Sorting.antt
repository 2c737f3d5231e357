-- ===== src/Postgres/Sorting.antt =====
-- `ORDER BY`: a stable insertion sort by a Boolean order.
pub mod Ordered
use testable_rust_architectu.Base.{
  ℕ, zero, suc, Bool, true, false, List, [], ◌∷◌, if◌then◌else◌, ◌≡◌, Bool-cases, inl, inr, All,
  take, keep, map,
}

module _ {A : Type 0} (before : A → A → Bool) where
  unfoldable pub insert : A → List A → List A
  insert x [] = x ∷ []
  insert x (y ∷ ys) = if before y x then y ∷ insert x ys else x ∷ y ∷ ys

  unfoldable pub sort : List A → List A
  unfolding insert
  sort [] = []
  sort (x ∷ xs) = insert x (sort xs)

-- What holds of every element of a list holds of every element of what is made of it.
module _ {A : Type 0} (P : A → Type 0) where
  pub All-take : (n : ℕ) (xs : List A) → All P xs → All P (take n xs)
  All-take zero xs h = tt
  All-take (suc n) [] h = tt
  All-take (suc n) (x ∷ xs) (h, t) = (h, All-take n xs t)

  pub All-keep : (p : A → Bool) (xs : List A) → All (λ x. p x ≡ true → P x) xs → All P (keep p xs)
  All-keep p [] h = tt
  All-keep p (x ∷ xs) (h, t) = elim (Bool-cases (p x)) [
    | inl e ↦ rw e (h e, All-keep p xs t)
    | inr e ↦ rw e (All-keep p xs t)
  ]

  pub All-insert :
      (before : A → A → Bool) (x : A) (xs : List A) → P x → All P xs → All P (insert before x xs)
  unfolding insert
  All-insert before x [] h t = (h, tt)
  All-insert before x (y ∷ ys) h (k, t) = elim (Bool-cases (before y x)) [
    | inl e ↦ rw e (k, All-insert before x ys h t)
    | inr e ↦ rw e (h, (k, t))
  ]

  pub All-sort : (before : A → A → Bool) (xs : List A) → All P xs → All P (sort before xs)
  unfolding sort
  All-sort before [] h = tt
  All-sort before (x ∷ xs) (h, t) = All-insert before x (sort before xs) h (All-sort before xs t)

  pub All-always : (xs : List A) → ((x : A) → P x) → All P xs
  All-always [] h = tt
  All-always (x ∷ xs) h = (h x, All-always xs h)

  pub All-map : (f : A → A) (xs : List A) → All (λ x. P (f x)) xs → All P (map f xs)
  All-map f [] h = tt
  All-map f (x ∷ xs) (h, t) = (h, All-map f xs t)
