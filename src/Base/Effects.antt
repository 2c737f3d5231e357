-- ===== src/Base/Effects.antt =====
-- `Result`, and code that reads and writes a state and may return early with an error: a call of
-- `Action S E A` gives the state after it in both cases, since what was written stays written.
use mathlib.Core.Path.{◌≡◌, refl, ap}
use mathlib.Core.Option.{Option, none, some}
use mathlib.Core.Bool.{Bool, true, false}
use mathlib.Core.Logic.{◌⊎◌, inl, inr}

pub data Result (E A : Type 0) : Type 0 where
  ok : A → Result E A
  err : E → Result E A

abbrev pub Action : Type 0 → Type 0 → Type 0 → Type 0
Action S E A = S → Result E A × S

module _ {S E A : Type 0} where
  abbrev pub pure : A → Action S E A
  pure a s = (ok a, s)

  abbrev pub raise : E → Action S E A
  raise e s = (err e, s)

  abbrev pub gets : (S → A) → Action S E A
  gets f s = (ok (f s), s)

  -- A `Result` that is already at hand, followed by `?`.
  abbrev pub lift : Result E A → Action S E A
  lift r s = (r, s)

  -- `ok_or_else`, followed by `?`.
  abbrev pub ok_or : Option A → E → Action S E A
  ok_or none e = raise e
  ok_or (some a) e = pure a

infixl 5 ◌>>=◌ ◌>>◌
abbrev pub ◌>>=◌ : {S E A B : Type 0} → Action S E A → (A → Action S E B) → Action S E B
◌>>=◌ m f s = let (r, s') = m s in elim r [ ok a ↦ f a s' | err e ↦ (err e, s') ]

abbrev pub ◌>>◌ : {S E A B : Type 0} → Action S E A → Action S E B → Action S E B
m >> k = m >>= λ _. k

abbrev pub modify : {S E : Type 0} → (S → S) → Action S E (Unit {0})
modify f s = (ok tt, f s)

abbrev pub map_err_result : {E F A : Type 0} → (E → F) → Result E A → Result F A
map_err_result f (ok a) = ok a
map_err_result f (err e) = err (f e)

-- `map_err`, and the conversion that `?` makes.
abbrev pub map_err : {S E F A : Type 0} → (E → F) → Action S E A → Action S F A
map_err f m s = let (r, s') = m s in (map_err_result f r, s')

-- Runs the first action, and the handler of its result whatever that is: a `match` on it.
abbrev pub matching :
    {S E F A B : Type 0} → Action S E A → (Result E A → Action S F B) → Action S F B
matching m k s = let (r, s') = m s in k r s'

pub Result-cases :
    {E A : Type 0} (r : Result E A) → ((e : E) × (r ≡ err e)) ⊎ ((a : A) × (r ≡ ok a))
Result-cases (ok a) = inr (a, refl)
Result-cases (err e) = inl (e, refl)

abbrev value_or : {E A : Type 0} → A → Result E A → A
value_or d (ok a) = a
value_or d (err e) = d

pub ok_injective : {E A : Type 0} {a b : A} → ◌≡◌ {A = Result E A} (ok a) (ok b) → a ≡ b
ok_injective {a = a} h = ap (value_or a) h

abbrev pub is_err : {E A : Type 0} → Result E A → Bool
is_err (ok a) = false
is_err (err e) = true

-- What holds after `m >>= f` follows from `m` and from `f` after it.
module _ {ℓ} {S E A B : Type 0} (P : Result E B × S → Type ℓ) (m : Action S E A)
    (f : A → Action S E B) (s : S) where
  pub >>=-cases :
      ((e : E) → (m s).0 ≡ err e → P (err e, (m s).1))
      → ((a : A) → (m s).0 ≡ ok a → P (f a (m s).1))
      → P ((m >>= f) s)
  >>=-cases failed passed = go (m s).0 refl
    where
      go :
          (r : Result E A)
          → (m s).0 ≡ r
          → P (elim r [ ok a ↦ f a (m s).1 | err e ↦ (err e, (m s).1) ])
      go (ok a) e = passed a e
      go (err x) e = failed x e

abbrev error_or : {E A : Type 0} → E → Result E A → E
error_or d (ok a) = d
error_or d (err e) = e

pub err_injective : {E A : Type 0} {a b : E} → ◌≡◌ {A = Result E A} (err a) (err b) → a ≡ b
err_injective {a = a} h = ap (error_or a) h

-- The bind after a success whose outcome is known.
pub >>=-ok :
    {S E A B : Type 0} (m : Action S E A) (f : A → Action S E B) (s : S) {a : A} {s' : S}
    → m s ≡ (ok a, s')
    → (m >>= f) s ≡ f a s'
>>=-ok m f s h = ap (λ p. elim p.0 [ ok a ↦ f a p.1 | err e ↦ (err e, p.1) ]) h

pub map_err_result-ok :
    {E F A : Type 0} (f : E → F) (r : Result E A) (a : A) → map_err_result f r ≡ ok a → r ≡ ok a
map_err_result-ok f (ok b) a h = ap ok (ok_injective h)
map_err_result-ok f (err e) a h = cc
