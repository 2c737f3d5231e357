-- ===== src/Api/Auth.antt =====
-- api/middleware.rs: the API key of requests that write.
use testable_rust_architectu.Base.{
  ℕ, ◌<◌, String, Bool, true, false, not, Option, none, some, List, [], ◌∷◌, ◌≡◌, ◌≢◌, refl, sym,
  ap, ◌∙◌, ◌↔◌, ◌⊎◌, inl, inr, arith, if◌then◌else◌, str_eq, ◌==◌, ==_iff, length, All, eq_iff,
  Bool-cases, Option-cases,
}
use testable_rust_architectu.Api.Bytes.{xor, or, xor_iff, or_iff, xor_bound, or_bound}

-- The loop over the pairs of bytes, from `result` on.
unfoldable pub differences : ℕ → List ℕ → List ℕ → ℕ
unfolding xor or
differences result [] ys = result
differences result (a ∷ xs) [] = result
differences result (a ∷ xs) (b ∷ ys) = differences (or 8 result (xor 8 a b)) xs ys

unfoldable pub constant_time_eq : List ℕ → List ℕ → Bool
unfolding differences
constant_time_eq a b = if not (length a == length b) then false else differences 0 a b == 0

-- The method, and the first `x-api-key` that is a text.
pub record HttpRequest : Type 0 where
  pub method : String
  pub api_key : Option String

module _ {S R : Type 0} (sha256 : String → List ℕ) (expected : String) (unauthorized : R) where
  unfoldable pub auth_middleware : HttpRequest → (S → R × S) → S → R × S
  unfolding constant_time_eq
  auth_middleware request next s =
      if not (str_eq request.method "POST") then next s else elim request.api_key [
        | none ↦ (unauthorized, s)
        | some provided ↦
            if not (constant_time_eq (sha256 expected) (sha256 provided))
            then (unauthorized, s)
            else next s
      ]

abbrev pub IsByte : ℕ → Type 0
IsByte b = b < 256

differences_iff :
    (result : ℕ) (a b : List ℕ)
    → IsByte result
    → All IsByte a
    → All IsByte b
    → length a ≡ length b
    → (differences result a b ≡ 0) ↔ ((result ≡ 0) × (a ≡ b))
unfolding differences
differences_iff result [] [] r x y e = (λ h. (h, refl), λ h. h.0)
differences_iff result [] (b ∷ ys) r x y e = absurd (omega arith)
differences_iff result (a ∷ xs) [] r x y e = absurd (omega arith)
differences_iff result (a ∷ xs) (b ∷ ys) r (a8, x) (b8, y) e =
    let (forth, back) =
      differences_iff (or 8 result (xor 8 a b)) xs ys (or_bound 8 result (xor 8 a b)) x y
        (omega arith) in
    let (split, join) = or_iff 8 result (xor 8 a b) r (xor_bound 8 a b) in
    let (same, diff) = xor_iff 8 a b a8 b8 in
    (
      λ h.
          let (none_yet, equal) = forth h in
          let (clean, no_diff) = split none_yet in
          let heads = same no_diff in (clean, λ i. heads i ∷ equal i),
      λ (clean, p).
          let heads : a ≡ b = cc in
          let tails : xs ≡ ys = cc in back (join (clean, diff heads), tails),
    )

-- The comparison, which looks at every byte, decides equality of lists of bytes.
pub constant_time_eq_iff :
    (a b : List ℕ) → All IsByte a → All IsByte b → (constant_time_eq a b ≡ true) ↔ (a ≡ b)
unfolding constant_time_eq
constant_time_eq_iff a b x y = elim (Bool-cases (length a == length b)) [
  | inl h ↦
      let (forth, back) =
        differences_iff 0 a b (omega arith) x y ((==_iff (length a) (length b)).0 h) in
      let (zero_of, of_zero) = ==_iff (differences 0 a b) 0 in
      rw h (λ e. (forth (zero_of e)).1, λ e. of_zero (back (refl, e)))
  | inr h ↦ rw h (
    λ e. cc,
    λ e.
        let l : length a ≡ length b = ap length e in
        let t = (==_iff (length a) (length b)).1 l in cc,
  )
]

abbrev pub IsAllowed : (String → List ℕ) → String → HttpRequest → Type 0
IsAllowed sha256 expected request =
    (request.method ≢ "POST")
    ⊎ ((provided : String) × (request.api_key ≡ some provided)
        × (sha256 expected ≡ sha256 provided))

abbrev unwrap : String → Option String → String
unwrap d none = d
unwrap d (some t) = t

-- A request that is no POST, or that brings a key with the digest of the expected key, is let
-- through; any other request is answered as unauthorized, and nothing is run for it.
pub auth_middleware-cases :
    {S R : Type 0} (sha256 : String → List ℕ) (expected : String) (unauthorized : R)
    (request : HttpRequest) (next : S → R × S) (s : S)
    → ((t : String) → All IsByte (sha256 t))
    → (IsAllowed sha256 expected request
        × (auth_middleware sha256 expected unauthorized request next s ≡ next s))
      ⊎ (¬ IsAllowed sha256 expected request
          × (auth_middleware sha256 expected unauthorized request next s ≡ (unauthorized, s)))
unfolding auth_middleware
auth_middleware-cases sha256 expected unauthorized request next s bytes =
    elim (Option-cases request.api_key) [
      | inl e ↦ let post = eq_iff request.method "POST" in ground (arith, e, post)
      | inr (provided, e) ↦
          let post = eq_iff request.method "POST" in
          let equal =
            constant_time_eq_iff (sha256 expected) (sha256 provided) (bytes expected)
              (bytes provided) in
          let run = auth_middleware sha256 expected unauthorized request next s in
          elim (Bool-cases (str_eq request.method "POST")) [
            | inr other_method ↦
                let let_through : run ≡ next s = ground (arith, other_method) in
                let other : request.method ≢ "POST" = λ p. ground (arith, other_method, post, p) in
                inl (inl other, let_through)
            | inl posted ↦
                elim (Bool-cases (constant_time_eq (sha256 expected) (sha256 provided))) [
                  | inl same ↦
                      let let_through : run ≡ next s = ground (arith, posted, e, same) in
                      inl (inr (provided, e, equal.0 same), let_through)
                  | inr differ ↦
                      let refused : run ≡ (unauthorized, s) = ground (arith, posted, e, differ) in
                      let is_post = post.0 posted in
                      let unequal : sha256 expected ≢ sha256 provided =
                        λ q. let t = sym (equal.1 q) ∙ differ in cc in
                      inr (
                        λ allowed. elim allowed [
                          | inl unposted ↦ unposted is_post
                          | inr (p, e', q) ↦
                              let one : p ≡ provided = ap (unwrap provided) (sym e' ∙ e) in
                              unequal (q ∙ ap sha256 one)
                        ],
                        refused,
                      )
                ]
          ]
    ]
