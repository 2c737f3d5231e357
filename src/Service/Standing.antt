-- ===== src/Service/Standing.antt =====
-- app/service.rs: how an outbox entry stands while a batch is processed.
use testable_rust_architectu.Base.{
  ℕ, ◌+◌, ◌≤◌, String, Bool, true, false, not, ◌&&◌, ◌≡◌, ◌⊎◌, Option, some, List, [], ◌∷◌, map,
  arith, length, keep, any, All, Any, str_eq,
}
use testable_rust_architectu.Base.Effects.{ok}
use testable_rust_architectu.Domain.Items.{SolanaOutboxEntry, SolanaOutboxPayload}
use testable_rust_architectu.Domain.Ports.{BlockchainClient}
use testable_rust_architectu.World.{World, Env, ItemRow, OutboxRow}
use testable_rust_architectu.Postgres.Outbox.{is_claimable}

-- Every submission succeeds.
abbrev pub IsUp : BlockchainClient World → Type 0
IsUp client =
    (memo : String) (existing : Option String) (w : World)
    → (s : String × String) × ((client.submit_transaction memo existing w).0 ≡ ok s)

abbrev pub IsLegible : Env → OutboxRow → Type 0
IsLegible env r = (p : SolanaOutboxPayload) × (env.payload_from_json r.payload ≡ some p)

-- The items with this id are marked as submitted.
abbrev pub IsSubmitted : String → List ItemRow → Type 0
IsSubmitted id items = All (λ i. i.id ≡ id → i.blockchain_status ≡ "submitted") items

abbrev pub IsDelivered : List ItemRow → OutboxRow → Type 0
IsDelivered items r = (r.status ≡ "completed") × IsSubmitted r.aggregate_id items

-- Any claim may take it.
abbrev pub IsDue : Env → OutboxRow → Type 0
IsDue env r =
    (n : ℕ) → is_claimable (env.locked (n + 1)) (env.utc_now n) (env.db_now (n + 1)) r ≡ true

abbrev pub named : List SolanaOutboxEntry → String → Bool
named es id = any (λ e. str_eq e.id id) es

-- One of the entries was read from the row.
abbrev pub IsTaken : List SolanaOutboxEntry → OutboxRow → Type 0
IsTaken es r = Any (λ e. (e.id ≡ r.id) × (e.aggregate_id ≡ r.aggregate_id)) es

-- While a batch is processed, of which these entries are left.
abbrev pub Stands : Env → List SolanaOutboxEntry → List ItemRow → OutboxRow → Type 0
Stands env es items r =
    IsLegible env r × (IsDelivered items r ⊎ (IsDue env r × (named es r.id ≡ false)) ⊎ IsTaken es r)

-- A row that is not completed, and that the batch has not taken.
abbrev pub waits : List SolanaOutboxEntry → OutboxRow → Bool
waits es r = not (str_eq r.status "completed") && not (named es r.id)

abbrev pub backlog : List SolanaOutboxEntry → List OutboxRow → ℕ
backlog es rs = length (keep (waits es) rs)

-- A list has no more elements that pass one test, once changed, than pass another.
module _ {A : Type 0} (p q : A → Bool) (f : A → A) where
  pub keep-fewer :
      (xs : List A)
      → All (λ a. p (f a) ≡ true → q a ≡ true) xs
      → length (keep p (map f xs)) ≤ length (keep q xs)
  keep-fewer [] h = omega arith
  keep-fewer (x ∷ xs) (h, t) = ground (arith, h, keep-fewer xs t)
