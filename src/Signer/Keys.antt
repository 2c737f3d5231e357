-- ===== src/Signer/Keys.antt =====
-- infra/blockchain/signer.rs: the length of keys, and that a signer which was built can sign.
use testable_rust_architectu.Base.{
  ℕ, zero, suc, ◌-◌, ◌≤◌, String, List, [], ◌∷◌, ◌≡◌, ◌≢◌, refl, sym, ap, ◌∙◌, ◌⊎◌, inl, inr,
  length, take, drop, arith, true, Bool-cases, ◌==◌, ==_iff, leb, leb_iff,
}
use testable_rust_architectu.Base.Effects.{ok, err, Result-cases, ok_injective}
use testable_rust_architectu.Domain.Errors.{BlockchainError}
use testable_rust_architectu.Domain.Ports.{TransactionSigner}
use testable_rust_architectu.Signer.{
  Crypto, key_array, wrong_length, extract_ed25519_pubkey, ed25519_spki_header, bytes_eq,
  signing_key_from_secret, signing_key_from_base58, local_sign, local_signer_new,
}

length-take : (n : ℕ) (xs : List ℕ) → n ≤ length xs → length (take n xs) ≡ n
length-take zero xs h = refl
length-take (suc n) [] h = absurd (omega arith)
length-take (suc n) (x ∷ xs) h = ap suc (length-take n xs (omega arith))

length-drop : (n : ℕ) (xs : List ℕ) → length (drop n xs) ≡ length xs - n
length-drop zero xs = omega arith
length-drop (suc n) [] = omega arith
length-drop (suc n) (x ∷ xs) = length-drop n xs ∙ omega arith

take-all : (xs : List ℕ) (n : ℕ) → length xs ≡ n → take n xs ≡ xs
take-all [] zero h = refl
take-all [] (suc n) h = refl
take-all (x ∷ xs) zero h = absurd (omega arith)
take-all (x ∷ xs) (suc n) h = ap (λ ys. x ∷ ys) (take-all xs n (omega arith))

bytes_eq_sound : (a b : List ℕ) → bytes_eq a b ≡ true → a ≡ b
bytes_eq_sound [] [] h = refl
bytes_eq_sound [] (b ∷ ys) h = cc
bytes_eq_sound (a ∷ xs) [] h = cc
bytes_eq_sound (a ∷ xs) (b ∷ ys) h =
    let heads : a ≡ b = ground arith in
    let tails = bytes_eq_sound xs ys (ground arith) in λ i. heads i ∷ tails i

-- A key that is accepted has 32 bytes: the first 32 of a secret of 32 or 64 bytes; a secret of any
-- other length is refused.
key_array-cases :
    (bytes : List ℕ)
    → ((key_array bytes ≡ ok (take 32 bytes))
        × (length (take 32 bytes) ≡ 32)
        × ((length bytes ≡ 32) ⊎ (length bytes ≡ 64)))
      ⊎ ((e : BlockchainError) × (key_array bytes ≡ err e)
          × (length bytes ≢ 32)
          × (length bytes ≢ 64))
unfolding key_array
key_array-cases bytes = elim (Bool-cases (length bytes == 64)) [
  | inl long ↦
      let n = (==_iff (length bytes) 64).0 long in
      inl (rw long refl, length-take 32 bytes (omega arith), inr n)
  | inr other ↦ elim (Bool-cases (length bytes == 32)) [
    | inl seed ↦
        let n = (==_iff (length bytes) 32).0 seed in
        inl (rw (other, seed, take-all bytes 32 n) refl, length-take 32 bytes (omega arith), inl n)
    | inr neither ↦ inr (
      wrong_length bytes,
      rw (other, neither) refl,
      λ e. let t = (==_iff (length bytes) 32).1 e in cc,
      λ e. let t = (==_iff (length bytes) 64).1 e in cc,
    )
  ]
]

tail_of :
    (spki key : List ℕ) (n : ℕ)
    → drop n spki ≡ key
    → n ≡ length spki - 32
    → 32 ≤ length spki
    → (length key ≡ 32) × (key ≡ drop (length spki - 32) spki)
tail_of spki key n e cut long =
    let size = length-drop n spki in
    (ap length (sym e) ∙ (size ∙ omega arith), sym e ∙ ap (λ m. drop m spki) cut)

-- A public key that is extracted has 32 bytes and ends the blob; a blob of 44 bytes yields one only
-- under the header of Ed25519.
pub extract_ed25519_pubkey-ok :
    (spki key : List ℕ)
    → extract_ed25519_pubkey spki ≡ ok key
    → (length key ≡ 32)
      × (key ≡ drop (length spki - 32) spki)
      × ((length spki ≢ 44) ⊎ (take 12 spki ≡ ed25519_spki_header))
unfolding extract_ed25519_pubkey
extract_ed25519_pubkey-ok spki key h = elim (Bool-cases (length spki == 44)) [
  | inl usual ↦
      let n : length spki ≡ 44 = (==_iff (length spki) 44).0 usual in
      elim (Bool-cases (bytes_eq (take 12 spki) ed25519_spki_header)) [
        | inl good ↦
            let shape : extract_ed25519_pubkey spki ≡ ok (drop 12 spki) = rw (usual, good) refl in
            let cut : 12 ≡ length spki - 32 = omega arith in
            let (size, end) =
              tail_of spki key 12 (ok_injective (sym shape ∙ h)) cut (omega arith) in
            (size, end, inr (bytes_eq_sound (take 12 spki) ed25519_spki_header good))
        | inr bad ↦ absurd (ground (arith, usual, bad, h))
      ]
  | inr other ↦ elim (Bool-cases (leb 32 (length spki))) [
    | inl enough ↦
        let shape : extract_ed25519_pubkey spki ≡ ok (drop (length spki - 32) spki) =
          rw (other, enough) refl in
        let n = (leb_iff 32 (length spki)).0 enough in
        let (size, end) =
          tail_of spki key (length spki - 32) (ok_injective (sym shape ∙ h)) refl n in
        (size, end, inl (λ e. let t = (==_iff (length spki) 44).1 e in cc))
    | inr short ↦ absurd (ground (arith, other, short, h))
  ]
]

abbrev built_signer : {Key S : Type 0} → Crypto Key → String → Key → TransactionSigner S
built_signer crypto secret key = record {
  sign_message = local_sign crypto secret;
  public_key = crypto.bs58_encode (crypto.verifying_key key);
}

rebuild :
    {Key S : Type 0} (crypto : Crypto Key) (secret : String) (key : Key)
    → signing_key_from_secret crypto secret ≡ ok key
    → local_signer_new crypto {S = S} secret ≡ ok (built_signer crypto secret key)
unfolding local_signer_new
rebuild crypto secret key x = rw (x, local_signer_new) refl

local_sign-ok :
    {Key S : Type 0} (crypto : Crypto Key) (secret : String) (key : Key)
    → signing_key_from_secret crypto secret ≡ ok key
    → (message : String) (s : S)
    → local_sign crypto secret message s ≡ (ok (crypto.bs58_encode (crypto.sign key message)), s)
unfolding local_sign
local_sign-ok crypto secret key x message s = rw (x, local_sign) refl

-- A local signer that was built can sign every message, with the key whose public half it shows.
pub local_signer-signs :
    {Key S : Type 0} (crypto : Crypto Key) (secret : String) (signer : TransactionSigner S)
    → local_signer_new crypto secret ≡ ok signer
    → (key : Key) × (signer.public_key ≡ crypto.bs58_encode (crypto.verifying_key key))
      × ((message : String) (s : S)
          → signer.sign_message message s ≡ (ok (crypto.bs58_encode (crypto.sign key message)), s))
unfolding local_signer_new
local_signer-signs crypto secret signer h =
    elim (Result-cases (signing_key_from_secret crypto secret)) [
      | inl (e, x) ↦ absurd (ground (arith, x, h))
      | inr (key, x) ↦
          let built : built_signer crypto secret key ≡ signer =
            ok_injective (sym (rebuild crypto secret key x) ∙ h) in
          (
            key,
            ap (λ r. r.public_key) (sym built),
            λ message s.
                ap (λ r. r.sign_message message s) (sym built)
                ∙ local_sign-ok crypto secret key x message s,
          )
    ]

-- The two copies of the parser of keys give the same key and the same error for every secret.
pub parsers_agree :
    {Key : Type 0} (crypto : Crypto Key) (secret : String)
    → signing_key_from_base58 crypto secret ≡ signing_key_from_secret crypto secret
unfolding signing_key_from_base58 signing_key_from_secret key_array
parsers_agree crypto secret = elim (Result-cases (crypto.bs58_decode secret)) [
  | inl (m, e) ↦ rw (e, signing_key_from_base58, signing_key_from_secret) refl
  | inr (bytes, e) ↦ elim (Bool-cases (length bytes == 64)) [
    | inl s ↦ rw (e, s, signing_key_from_base58, signing_key_from_secret, key_array) refl
    | inr s ↦ elim (Bool-cases (length bytes == 32)) [
      | inl t ↦ rw (e, s, t, signing_key_from_base58, signing_key_from_secret, key_array) refl
      | inr t ↦ rw (e, s, t, signing_key_from_base58, signing_key_from_secret, key_array) refl
    ]
  ]
]
