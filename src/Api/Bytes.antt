-- ===== src/Api/Bytes.antt =====
-- The bitwise operators on numbers of a given width, as Rust has them on `u8`.
use testable_rust_architectu.Base.{
  ℕ, zero, suc, ◌+◌, ◌*◌, ◌/◌, ◌%◌, ◌^◌, ◌<◌, ◌≡◌, refl, ◌↔◌, arith, min,
}
use native.Mathlib.Nat.{pow-suc}

-- `x ^ y` and `x | y`, bit by bit.
unfoldable pub xor : ℕ → ℕ → ℕ → ℕ
xor zero x y = 0
xor (suc width) x y = (x + y) % 2 + 2 * xor width (x / 2) (y / 2)

unfoldable pub or : ℕ → ℕ → ℕ → ℕ
or zero x y = 0
or (suc width) x y = min 1 (x % 2 + y % 2) + 2 * or width (x / 2) (y / 2)

pub xor_iff : (width x y : ℕ) → x < 2 ^ width → y < 2 ^ width → (xor width x y ≡ 0) ↔ (x ≡ y)
unfolding xor
xor_iff zero x y h k = (λ e. omega arith, λ e. refl)
xor_iff (suc width) x y h k =
    let half = pow-suc 2 width in
    let (forth, back) = xor_iff width (x / 2) (y / 2) (omega (arith, half)) (omega (arith, half)) in
    (
      λ e. let e' = forth (omega arith) in omega arith,
      λ e. let b = back (omega arith) in omega arith,
    )

pub or_iff :
    (width x y : ℕ) → x < 2 ^ width → y < 2 ^ width → (or width x y ≡ 0) ↔ ((x ≡ 0) × (y ≡ 0))
unfolding or
or_iff zero x y h k = (λ e. (omega arith, omega arith), λ e. refl)
or_iff (suc width) x y h k =
    let half = pow-suc 2 width in
    let (forth, back) = or_iff width (x / 2) (y / 2) (omega (arith, half)) (omega (arith, half)) in
    (
      λ e. let (a, b) = forth (omega arith) in (omega arith, omega arith),
      λ (a, b). let r = back (omega arith, omega arith) in omega arith,
    )

pub xor_bound : (width x y : ℕ) → xor width x y < 2 ^ width
unfolding xor
xor_bound zero x y = omega arith
xor_bound (suc width) x y =
    let rest = xor_bound width (x / 2) (y / 2) in
    let half = pow-suc 2 width in omega (arith, rest, half)

pub or_bound : (width x y : ℕ) → or width x y < 2 ^ width
unfolding or
or_bound zero x y = omega arith
or_bound (suc width) x y =
    let rest = or_bound width (x / 2) (y / 2) in
    let half = pow-suc 2 width in omega (arith, rest, half)
