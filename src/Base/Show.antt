-- ===== src/Base/Show.antt =====
-- `Display` of integers.
use testable_rust_architectu.Base.Tests.{ltb, if◌then◌else◌, concat}
use testable_rust_architectu.Base.Int.{ℤ, pos, negsuc}
use Prim.Native.Nat.{ℕ, zero, suc, ◌/◌, ◌%◌}
use Prim.Native.String.{String}
use mathlib.Core.List.{List, [], ◌∷◌}

pick : List String → ℕ → String
pick [] n = ""
pick (d ∷ ds) zero = d
pick (d ∷ ds) (suc n) = pick ds n

abbrev digits : List String
digits = "0" ∷ "1" ∷ "2" ∷ "3" ∷ "4" ∷ "5" ∷ "6" ∷ "7" ∷ "8" ∷ "9" ∷ []

-- The fuel is above the number of digits.
show_from : ℕ → ℕ → String
unfolding pick
show_from zero n = ""
show_from (suc fuel) n =
    let front = show_from fuel (n / 10) in
    if ltb n 10 then pick digits n else concat (front ∷ pick digits (n % 10) ∷ [])

unfoldable pub show_ℕ : ℕ → String
unfolding show_from
show_ℕ n = show_from (suc n) n

unfoldable pub show_ℤ : ℤ → String
unfolding show_ℕ
show_ℤ (pos n) = show_ℕ n
show_ℤ (negsuc n) = concat ("-" ∷ show_ℕ (suc n) ∷ [])
