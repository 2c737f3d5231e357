-- ===== src/Postgres/Sorting/Ordered.antt =====
-- `ORDER BY` over an order without ties: the result is ordered, and selecting commutes with it.
use testable_rust_architectu.Base.{
  All-implies, Bool, true, false, List, [], ◌∷◌, ◌≡◌, refl, sym, ap, ◌∙◌, ◌⊎◌, Bool-cases, inl, inr,
  All, keep, suc, length,
}
use testable_rust_architectu.Postgres.Sorting.{insert, sort, All-insert, All-keep}

length-insert :
    {A : Type 0} (before : A → A → Bool) (x : A) (xs : List A)
    → length (insert before x xs) ≡ suc (length xs)
unfolding insert
length-insert before x [] = refl
length-insert before x (y ∷ ys) = elim (Bool-cases (before y x)) [
  | inl e ↦ rw e (ap suc (length-insert before x ys))
  | inr e ↦ rw e refl
]

pub length-sort :
    {A : Type 0} (before : A → A → Bool) (xs : List A) → length (sort before xs) ≡ length xs
unfolding sort
length-sort before [] = refl
length-sort before (x ∷ xs) =
    length-insert before x (sort before xs) ∙ ap suc (length-sort before xs)

-- A strict weak order by a Boolean test.
pub record IsOrder {A : Type 0} (before : A → A → Bool) : Type 0 where
  pub asymmetric : (a b : A) → before a b ≡ true → before b a ≡ false
  pub between : (a b c : A) → before a c ≡ true → (before a b ≡ true) ⊎ (before b c ≡ true)

-- No later element comes before an earlier one.
abbrev pub IsSorted : {A : Type 0} → (A → A → Bool) → List A → Type 0
IsSorted before [] = Unit
IsSorted before (x ∷ xs) = All (λ y. before y x ≡ false) xs × IsSorted before xs

module _ {A : Type 0} (before : A → A → Bool) (order : IsOrder before) where
  pub irreflexive : (a : A) → before a a ≡ false
  irreflexive a = elim (Bool-cases (before a a)) [ inl e ↦ order.asymmetric a a e | inr e ↦ e ]

  -- What comes after `y`, which `x` comes after or with, comes after or with `x`.
  later_still : (x y z : A) → before y x ≡ false → before z y ≡ false → before z x ≡ false
  later_still x y z h k = elim (Bool-cases (before z x)) [
    | inr e ↦ e
    | inl e ↦ elim (order.between z y x e) [
      | inl f ↦ absurd (let g = sym f ∙ k in cc)
      | inr f ↦ absurd (let g = sym f ∙ h in cc)
    ]
  ]

  insert-IsSorted :
      (x : A) (xs : List A) → IsSorted before xs → IsSorted before (insert before x xs)
  unfolding insert
  insert-IsSorted x [] h = (tt, tt)
  insert-IsSorted x (y ∷ ys) (later, rest) = elim (Bool-cases (before y x)) [
    | inl e ↦ rw e (
      All-insert (λ z. before z y ≡ false) before x ys (order.asymmetric y x e) later,
      insert-IsSorted x ys rest,
    )
    | inr e ↦ rw e ((e, All-implies _ _ ys (λ z. later_still x y z e) later), (later, rest))
  ]

  pub sort-IsSorted : (xs : List A) → IsSorted before (sort before xs)
  unfolding sort
  sort-IsSorted [] = tt
  sort-IsSorted (x ∷ xs) = insert-IsSorted x (sort before xs) (sort-IsSorted xs)

  insert-front :
      (x : A) (xs : List A) → All (λ y. before y x ≡ false) xs → insert before x xs ≡ x ∷ xs
  unfolding insert
  insert-front x [] h = refl
  insert-front x (y ∷ ys) (e, _) = rw e refl

  module _ (p : A → Bool) where
    keep-insert_unselected :
        (x : A) (xs : List A) → p x ≡ false → keep p (insert before x xs) ≡ keep p xs
    unfolding insert
    keep-insert_unselected x [] h = rw h refl
    keep-insert_unselected x (y ∷ ys) h = elim (Bool-cases (before y x)) [
      | inr e ↦ rw (e, h) refl
      | inl e ↦ elim (Bool-cases (p y)) [
        | inl q ↦ rw (e, q) (ap (λ l. y ∷ l) (keep-insert_unselected x ys h))
        | inr q ↦ rw (e, q) (keep-insert_unselected x ys h)
      ]
    ]

    keep-insert_selected :
        (x : A) (xs : List A)
        → p x ≡ true
        → IsSorted before xs
        → keep p (insert before x xs) ≡ insert before x (keep p xs)
    unfolding insert
    keep-insert_selected x [] h s = rw h refl
    keep-insert_selected x (y ∷ ys) h (later, rest) = elim (Bool-cases (before y x)) [
      | inr e ↦
          let After = λ (z : A). before z x ≡ false in
          let all : All After (y ∷ ys) =
            (e, All-implies _ After ys (λ z. later_still x y z e) later) in
          let kept =
            All-keep After p (y ∷ ys)
              (All-implies After (λ z. p z ≡ true → After z) (y ∷ ys) (λ z a q. a) all) in
          rw (e, h) (sym (insert-front x (keep p (y ∷ ys)) kept))
      | inl e ↦ elim (Bool-cases (p y)) [
        | inl q ↦
            let past : insert before x (y ∷ keep p ys) ≡ y ∷ insert before x (keep p ys) =
              rw e refl in
            rw (e, q) (ap (λ l. y ∷ l) (keep-insert_selected x ys h rest) ∙ sym past)
        | inr q ↦ rw (e, q) (keep-insert_selected x ys h rest)
      ]
    ]

    pub keep-sort : (xs : List A) → keep p (sort before xs) ≡ sort before (keep p xs)
    unfolding sort
    keep-sort [] = refl
    keep-sort (x ∷ xs) = elim (Bool-cases (p x)) [
      | inl e ↦ rw e (
          keep-insert_selected x (sort before xs) e (sort-IsSorted xs)
          ∙ ap (insert before x) (keep-sort xs))
      | inr e ↦ rw e (keep-insert_unselected x (sort before xs) e ∙ keep-sort xs)
    ]
