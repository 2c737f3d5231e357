-- ===== src/Tests/Collation.antt =====
-- A collation: texts by the numbers of their characters.
use Prim.Native.Char.{Char, code}
use Prim.Native.String.{[], ◌∷◌}
use text.Mathlib.TextEquality.{codes_equal}
use testable_rust_architectu.Base.{
  String, Bool, true, false, ◌&&◌, ◌||◌, ◌≡◌, refl, ◌⊎◌, inl, inr, arith, ltb, ◌==◌,
}
use testable_rust_architectu.Postgres.Pagination.{IsCollation}

abbrev pub text_before : String → String → Bool
text_before [] [] = false
text_before [] (d ∷ t) = true
text_before (c ∷ s) [] = false
text_before (c ∷ s) (d ∷ t) = ltb (code c) (code d) || (code c == code d && text_before s t)

before_asymmetric : (s t : String) → text_before s t ≡ true → text_before t s ≡ false
before_asymmetric [] [] h = refl
before_asymmetric [] (d ∷ t) h = refl
before_asymmetric (c ∷ s) [] h = cc
before_asymmetric (c ∷ s) (d ∷ t) h = let rest = before_asymmetric s t in ground arith

before_between :
    (s t u : String) → text_before s u ≡ true → (text_before s t ≡ true) ⊎ (text_before t u ≡ true)
before_between [] [] [] h = inl h
before_between [] [] (e ∷ u) h = inr refl
before_between [] (d ∷ t) u h = inl refl
before_between (c ∷ s) t [] h = cc
before_between (c ∷ s) [] (e ∷ u) h = inr refl
before_between (c ∷ s) (d ∷ t) (e ∷ u) h = let rest = before_between s t u in ground arith

same_code : (c d : Char) → code c ≡ code d → c ≡ d
same_code c d h = codes_equal c d (ground arith)

before_connected : (s t : String) → text_before s t ≡ false → text_before t s ≡ false → s ≡ t
before_connected [] [] h k = refl
before_connected [] (d ∷ t) h k = cc
before_connected (c ∷ s) [] h k = cc
before_connected (c ∷ s) (d ∷ t) h k =
    let same : code c ≡ code d = ground arith in
    let rest = before_connected s t (ground arith) (ground arith) in
    λ i. same_code c d same i ∷ rest i

pub text_before-IsCollation : IsCollation text_before
text_before-IsCollation = record {
  asymmetric = before_asymmetric;
  between = before_between;
  connected = before_connected;
}
