-- ===== src/Signer.antt =====
-- infra/blockchain/signer.rs: the two signers, and `signing_key_from_base58` of solana.rs, which
-- parses keys in the same way. Bytes are numbers.
pub mod Keys
use testable_rust_architectu.Base.{
  ℕ, ◌-◌, String, Bool, true, false, Option, none, some, List, [], ◌∷◌, ◌≡◌, concat, ◌==◌, leb,
  if◌then◌else◌, length, take, drop, ◌&&◌,
}
use testable_rust_architectu.Base.Show.{show_ℕ}
use testable_rust_architectu.Base.Effects.{
  Action, Result, ok, err, lift, ok_or, map_err, map_err_result, pure, ◌>>=◌,
}
use testable_rust_architectu.Domain.Errors.{BlockchainError, submission_failed}
use testable_rust_architectu.Domain.Ports.{TransactionSigner}

-- What the signers use of bs58 and of ed25519-dalek, where a key is a `Key`.
pub record Crypto (Key : Type 0) : Type 0 where
  pub bs58_decode : String → Result String (List ℕ)
  pub bs58_encode : List ℕ → String
  pub from_bytes : List ℕ → Key
  pub sign : Key → String → List ℕ
  pub verifying_key : Key → List ℕ

abbrev pub wrong_length : List ℕ → BlockchainError
wrong_length bytes =
    submission_failed (concat ("Key must be 32 or 64 bytes, got " ∷ show_ℕ (length bytes) ∷ []))

-- The 32 bytes of the seed, from a seed or from a keypair that begins with it.
unfoldable pub key_array : List ℕ → Result BlockchainError (List ℕ)
key_array bytes =
    if length bytes == 64
    then ok (take 32 bytes)
    else if length bytes == 32
    then ok bytes
    else err (wrong_length bytes)

abbrev pub ed25519_spki_header : List ℕ
ed25519_spki_header = 48 ∷ 42 ∷ 48 ∷ 5 ∷ 6 ∷ 3 ∷ 43 ∷ 101 ∷ 112 ∷ 3 ∷ 33 ∷ 0 ∷ []

abbrev pub bytes_eq : List ℕ → List ℕ → Bool
bytes_eq [] [] = true
bytes_eq [] (b ∷ ys) = false
bytes_eq (a ∷ xs) [] = false
bytes_eq (a ∷ xs) (b ∷ ys) = a == b && bytes_eq xs ys

-- A slice of at most the length of the list.
unfoldable pub extract_ed25519_pubkey : List ℕ → Result BlockchainError (List ℕ)
extract_ed25519_pubkey spki =
    if length spki == 44
    then (if bytes_eq (take 12 spki) ed25519_spki_header
        then ok (drop 12 spki)
        else err (submission_failed "SPKI header does not match Ed25519 OID (1.3.101.112)"))
    else if leb 32 (length spki)
    then ok (drop (length spki - 32) spki)
    else err (
        submission_failed
          (concat ("SPKI blob too short (" ∷ show_ℕ (length spki) ∷ " bytes); expected ≥ 32" ∷ [])))

module _ {Key : Type 0} (crypto : Crypto Key) where
  unfoldable pub signing_key_from_secret : String → Result BlockchainError Key
  unfolding key_array
  signing_key_from_secret secret = elim (crypto.bs58_decode secret) [
    | err m ↦ err (submission_failed m)
    | ok bytes ↦ elim (key_array bytes) [ err e ↦ err e | ok key ↦ ok (crypto.from_bytes key) ]
  ]

  -- The same for the client of RPC, in a copy of its own (solana.rs).
  unfoldable pub signing_key_from_base58 : String → Result BlockchainError Key
  signing_key_from_base58 secret = elim (crypto.bs58_decode secret) [
    | err m ↦ err (submission_failed m)
    | ok key_bytes ↦
        if length key_bytes == 64
        then ok (crypto.from_bytes (take 32 key_bytes))
        else if length key_bytes == 32
        then ok (crypto.from_bytes key_bytes)
        else err (wrong_length key_bytes)
  ]

  -- The key is parsed again for each message.
  unfoldable pub local_sign : {S : Type 0} → String → String → Action S BlockchainError String
  local_sign secret message = do
    key ← lift (signing_key_from_secret secret)
    pure (crypto.bs58_encode (crypto.sign key message))

  -- `LocalSigner::new`.
  unfoldable pub local_signer_new :
      {S : Type 0} → String → Result BlockchainError (TransactionSigner S)
  local_signer_new secret = elim (signing_key_from_secret secret) [
    | err e ↦ err e
    | ok key ↦ ok (record {
      sign_message = local_sign secret;
      public_key = crypto.bs58_encode (crypto.verifying_key key);
    })
  ]

  -- The calls of AWS KMS: GetPublicKey for a key id, and Sign for a key id and a message.
  module _ {S : Type 0} (get_public_key : String → Action S String (Option (List ℕ)))
      (kms_sign : String → String → Action S String (Option (List ℕ))) where
    unfoldable pub kms_sign_message : String → String → Action S BlockchainError String
    kms_sign_message key_id message = do
      response ←
          map_err (λ m. submission_failed (concat ("KMS Sign failed: " ∷ m ∷ [])))
            (kms_sign key_id message)
      signature ← ok_or response (submission_failed "KMS returned no signature blob")
      pure (crypto.bs58_encode signature)

    -- `AwsKmsSigner::new`.
    unfoldable pub kms_signer_new : String → Action S BlockchainError (TransactionSigner S)
    unfolding extract_ed25519_pubkey kms_sign_message
    kms_signer_new key_id = do
      response ←
          map_err (λ m. submission_failed (concat ("KMS GetPublicKey failed: " ∷ m ∷ [])))
            (get_public_key key_id)
      spki ← ok_or response (submission_failed "KMS returned no public key blob")
      raw_key ← lift (extract_ed25519_pubkey spki)
      pure (record {
        sign_message = kms_sign_message key_id;
        public_key = crypto.bs58_encode raw_key;
      })
