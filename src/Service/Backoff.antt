-- ===== src/Service/Backoff.antt =====
-- app/service.rs: the delays between attempts, `calculate_backoff`.
use testable_rust_architectu.Base.{
  ℕ, suc, ◌+◌, ◌*◌, ◌≤◌, ◌<◌, ◌≡◌, ◌⊎◌, inl, inr, refl, ◌∙◌, ◌^◌, min, arith,
}
use testable_rust_architectu.Service.{calculate_backoff, max_backoff_secs}
use native.Mathlib.Nat.{mul_comm, pow-suc, pow-le-pow_right}

power_bounds : (n : ℕ) → n ≤ 8 → (1 ≤ 2 ^ n) × (2 ^ n ≤ 256)
power_bounds n h =
    let low = pow-le-pow_right {n = 2} (omega arith) {i = 0} {j = n} (omega arith) in
    let high = pow-le-pow_right {n = 2} (omega arith) {i = n} {j = 8} h in (low, high)

small : (n : ℕ) → n ≤ 8 → calculate_backoff n ≡ 2 ^ n
unfolding calculate_backoff
small n h =
    let e : min n 8 ≡ n = omega arith in let (low, high) = power_bounds n h in rw e (omega arith)

large : (n : ℕ) → 8 ≤ n → calculate_backoff n ≡ 256
unfolding calculate_backoff
large n h = let e : min n 8 ≡ 8 = omega arith in rw e refl

within : (n : ℕ) → (n ≤ 8) ⊎ (8 ≤ n)
within n = ground arith

below : (n : ℕ) → (n < 8) ⊎ (8 ≤ n)
below n = ground arith

bounds : (n : ℕ) → (1 ≤ calculate_backoff n) × (calculate_backoff n ≤ 256)
bounds n = elim (within n) [
  | inl h ↦ rw (small n h) (power_bounds n h)
  | inr h ↦ rw (large n h) (omega arith, omega arith)
]

doubles_or_rests :
    (n : ℕ)
    → ((n < 8) × (calculate_backoff (n + 1) ≡ 2 * calculate_backoff n))
      ⊎ ((8 ≤ n) × (calculate_backoff n ≡ 256))
doubles_or_rests n = elim (below n) [
  | inr h ↦ inr (h, large n h)
  | inl h ↦
      let q : n + 1 ≡ suc n = omega arith in
      let next : calculate_backoff (n + 1) ≡ 2 ^ (n + 1) = small (n + 1) (omega arith) in
      let here : calculate_backoff n ≡ 2 ^ n = small n (omega arith) in
      inl (h, rw (next, here, q) (pow-suc 2 n ∙ mul_comm (2 ^ n) 2))
]

-- The delay is the power of two of the attempt's number, up to number 8, and 256 seconds from
-- there on: it doubles from one attempt to the next and never reaches the declared maximum.
pub backoff_doubles :
    (n : ℕ)
    → (((n < 8) × (calculate_backoff (n + 1) ≡ 2 * calculate_backoff n))
        ⊎ ((8 ≤ n) × (calculate_backoff n ≡ 256)))
      × (1 ≤ calculate_backoff n)
      × (calculate_backoff n < max_backoff_secs)
backoff_doubles n = let (low, high) = bounds n in (doubles_or_rests n, low, omega arith)
