-- ===== src/Rpc/Costs.antt =====
-- infra/blockchain/solana.rs: what the operations of the client cost, and what they leave alone. A
-- cost is any relation of the states before and after that adds up: the number of requests that
-- were sent, or that a part of the state is the same.
use testable_rust_architectu.Base.{
  ℕ, suc, ◌+◌, ◌≤◌, Bool, true, false, String, Option, none, some, arith,
}
use testable_rust_architectu.Base.Effects.{
  Action, Result, ok, err, ◌>>=◌, >>=-cases, map_err_result, lift,
}
use testable_rust_architectu.Domain.Errors.{BlockchainError, submission_failed}

pub record IsCost {S : Type 0} (R : ℕ → S → S → Type 0) : Type 0 where
  pub free : (s : S) → R 0 s s
  pub both : {a b : ℕ} (s t u : S) → R a s t → R b t u → R (a + b) s u
  pub weaker : {a b : ℕ} (s t : S) → a ≤ b → R a s t → R b s t

abbrev pub Costs : {S E A : Type 0} → (ℕ → S → S → Type 0) → ℕ → Action S E A → Type 0
Costs R n m = (s : _) → R n s (m s).1

abbrev pub Ended : {S A : Type 0} → (S → Type 0) → Option (A × S) → Type 0
Ended P none = Unit
Ended P (some (a, s)) = P s

module _ {S A : Type 0} (P : S → Type 0) where
  pub Ended-test :
      (b : Bool) (x y : Option (A × S))
      → Ended P x
      → Ended P y
      → Ended P (elim b [ false ↦ x | true ↦ y ])
  Ended-test false x y h k = h
  Ended-test true x y h k = k

  pub Ended-round :
      (o : Option A) (s : S) (rest : Option (A × S))
      → P s
      → Ended P rest
      → Ended P (elim o [ some a ↦ some (a, s) | none ↦ rest ])
  Ended-round (some a) s rest h k = h
  Ended-round none s rest h k = k

  pub Ended-weaken :
      (Q : S → Type 0) (o : Option (A × S)) → ((s : S) → P s → Q s) → Ended P o → Ended Q o
  Ended-weaken Q none f h = tt
  Ended-weaken Q (some (a, s)) f h = f s h

  pub Ended-result :
      (o : Option (A × S)) (d : A × S)
      → Ended P o
      → P d.1
      → P (elim o as (λ x. A × S) [ some outcome ↦ outcome | none ↦ d ]).1
  Ended-result none d h k = k
  Ended-result (some p) d h k = h

module _ {S : Type 0} {R : ℕ → S → S → Type 0} (cost : IsCost R) where
  pub >>=-Costs :
      {E A B : Type 0} {n : ℕ} (a b : ℕ) (m : Action S E A) (f : A → Action S E B)
      → a + b ≤ n
      → Costs R a m
      → ((x : A) → Costs R b (f x))
      → Costs R n (m >>= f)
  >>=-Costs {n = n} a b m f fits first next s =
      >>=-cases (λ p. R n s p.1) m f s (λ e failed. cost.weaker s (m s).1 (omega arith) (first s))
        (λ x passed.
          cost.weaker s (f x (m s).1).1 fits
            (cost.both s (m s).1 (f x (m s).1).1 (first s) (next x (m s).1)))

  -- An attempt, and what follows if it fails.
  pub attempt-Costs :
      {V A : Type 0} {b : ℕ} (s s' : S) (r : Result BlockchainError V)
      (d : V → Result BlockchainError A) (k : BlockchainError → Action S BlockchainError A)
      → R 1 s s'
      → ((e : BlockchainError) → Costs R b (k e))
      → R
          (suc b)
          s
          (elim r as (λ x. Result BlockchainError A × S) [ ok v ↦ (d v, s') | err e ↦ k e s' ]).1
  attempt-Costs s s' (ok v) d k first next = cost.weaker s s' (omega arith) first
  attempt-Costs {b = b} s s' (err e) d k first next =
      cost.weaker {a = 1 + b} s (k e s').1 (omega arith)
        (cost.both s s' (k e s').1 first (next e s'))

  -- A step that touches nothing, and what follows if it succeeds.
  pub lift->>=-Costs :
      {A B : Type 0} {b : ℕ} (r : Result String A) (f : A → Action S BlockchainError B)
      → ((x : A) → Costs R b (f x))
      → Costs R b (lift (map_err_result submission_failed r) >>= f)
  lift->>=-Costs (ok x) f next s = next x s
  lift->>=-Costs (err e) f next s = cost.weaker s s (omega arith) (cost.free s)
