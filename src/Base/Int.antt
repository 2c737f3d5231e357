-- ===== src/Base/Int.antt =====
-- Signed integers, for the `i64` page limit that a request may send.
use Prim.Native.Nat.{ℕ, suc, ◌+◌}
use mathlib.Core.Bool.{Bool}
use testable_rust_architectu.Base.Tests.{ltb, if◌then◌else◌}

-- `negsuc n` is -(n + 1).
pub data ℤ : Type 0 where
  pos : ℕ → ℤ
  negsuc : ℕ → ℤ

abbrev pub pos_part : ℤ → ℕ
pos_part (pos n) = n
pos_part (negsuc n) = 0

abbrev pub neg_part : ℤ → ℕ
neg_part (pos n) = 0
neg_part (negsuc n) = suc n

abbrev pub ltb_ℤ : ℤ → ℤ → Bool
ltb_ℤ a b = ltb (pos_part a + neg_part b) (pos_part b + neg_part a)

-- Rust's `Ord::clamp`.
abbrev pub clamp : ℤ → ℤ → ℤ → ℤ
clamp n lo hi = if ltb_ℤ n lo then lo else if ltb_ℤ hi n then hi else n
