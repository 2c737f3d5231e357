-- ===== src/Domain/Hash.antt =====
-- domain/types.rs: the hash that is written to the chain. SHA-256 is a parameter, a function from
-- the text that is fed to it in pieces to the bytes of the digest.
use testable_rust_architectu.Base.{
  ℕ, ◌/◌, ◌%◌, String, Option, none, some, List, [], ◌∷◌, concat, zero, suc,
}
use testable_rust_architectu.Domain.Items.{Item, CreateItemRequest, SolanaOutboxPayload}

pick : List String → ℕ → String
pick [] n = ""
pick (d ∷ ds) zero = d
pick (d ∷ ds) (suc n) = pick ds n

abbrev digits : List String
digits =
    "0" ∷ "1" ∷ "2" ∷ "3" ∷ "4" ∷ "5" ∷ "6" ∷ "7" ∷ "8" ∷ "9" ∷ "a" ∷ "b" ∷ "c" ∷ "d" ∷ "e" ∷ "f"
    ∷ []

-- `format!("{:02x}", b)`, for a byte.
unfoldable pub hex_byte : ℕ → String
unfolding pick
hex_byte b = concat (pick digits (b / 16) ∷ pick digits (b % 16) ∷ [])

unfoldable pub hex : List ℕ → String
unfolding hex_byte
hex [] = ""
hex (b ∷ bs) = concat (hex_byte b ∷ hex bs ∷ [])

abbrev described : Option String → List String
described none = []
described (some d) = d ∷ []

module _ (sha256 : String → List ℕ) where
  unfoldable pub compute_blockchain_hash : String → String → String → Option String → String
  unfolding hex
  compute_blockchain_hash item_id name content description =
      hex (sha256 (concat (item_id ∷ name ∷ content ∷ described description)))

  unfoldable pub build_solana_outbox_payload_from_request :
      String → CreateItemRequest → SolanaOutboxPayload
  unfolding compute_blockchain_hash
  build_solana_outbox_payload_from_request item_id request = record {
    hash = compute_blockchain_hash item_id request.name request.content request.description;
  }

  unfoldable pub build_solana_outbox_payload_from_item : Item → SolanaOutboxPayload
  unfolding compute_blockchain_hash
  build_solana_outbox_payload_from_item item = record {
    hash = compute_blockchain_hash item.id item.name item.content item.description;
  }
