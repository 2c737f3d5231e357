-- ===== src/Domain/Status.antt =====
-- domain/types.rs: the two status enums, their column texts and the parsers of these.
use testable_rust_architectu.Base.{
  String, ◌≡◌, refl, ◌↔◌, arith, eq_iff, str_eq, if◌then◌else◌, concat, [], ◌∷◌,
}
use testable_rust_architectu.Base.Effects.{Result, ok, err}

pub data BlockchainStatus : Type 0 where
  pending pending_submission submitted confirmed failed : BlockchainStatus

pub data OutboxStatus : Type 0 where
  pending processing completed failed : OutboxStatus

unfoldable pub blockchain_status_as_str : BlockchainStatus → String
blockchain_status_as_str BlockchainStatus.pending = "pending"
blockchain_status_as_str pending_submission = "pending_submission"
blockchain_status_as_str submitted = "submitted"
blockchain_status_as_str confirmed = "confirmed"
blockchain_status_as_str BlockchainStatus.failed = "failed"

unfoldable pub blockchain_status_from_str : String → Result String BlockchainStatus
blockchain_status_from_str s =
    if str_eq s "pending"
    then ok BlockchainStatus.pending
    else if str_eq s "pending_submission"
    then ok pending_submission
    else if str_eq s "submitted"
    then ok submitted
    else if str_eq s "confirmed"
    then ok confirmed
    else if str_eq s "failed"
    then ok BlockchainStatus.failed
    else err (concat ("Invalid blockchain status: " ∷ s ∷ []))

unfoldable pub outbox_status_as_str : OutboxStatus → String
outbox_status_as_str OutboxStatus.pending = "pending"
outbox_status_as_str processing = "processing"
outbox_status_as_str completed = "completed"
outbox_status_as_str OutboxStatus.failed = "failed"

unfoldable pub outbox_status_from_str : String → Result String OutboxStatus
outbox_status_from_str s =
    if str_eq s "pending"
    then ok OutboxStatus.pending
    else if str_eq s "processing"
    then ok processing
    else if str_eq s "completed"
    then ok completed
    else if str_eq s "failed"
    then ok OutboxStatus.failed
    else err (concat ("Invalid outbox status: " ∷ s ∷ []))

blockchain_status_back :
    (s : BlockchainStatus) → blockchain_status_from_str (blockchain_status_as_str s) ≡ ok s
unfolding blockchain_status_from_str blockchain_status_as_str
blockchain_status_back BlockchainStatus.pending = refl
blockchain_status_back _ = refl

blockchain_status_forth :
    (t : String) (s : BlockchainStatus)
    → blockchain_status_from_str t ≡ ok s
    → t ≡ blockchain_status_as_str s
unfolding blockchain_status_from_str blockchain_status_as_str
blockchain_status_forth t s h = ground (
  arith,
  eq_iff t "pending",
  eq_iff t "pending_submission",
  eq_iff t "submitted",
  eq_iff t "confirmed",
  eq_iff t "failed",
)

-- A column text parses to a blockchain status exactly when it is the text of that status.
pub blockchain_status_from_str_iff :
    (t : String) (s : BlockchainStatus)
    → (blockchain_status_from_str t ≡ ok s) ↔ (t ≡ blockchain_status_as_str s)
blockchain_status_from_str_iff t s =
    (blockchain_status_forth t s, λ e. rw e (blockchain_status_back s))

outbox_status_back : (s : OutboxStatus) → outbox_status_from_str (outbox_status_as_str s) ≡ ok s
unfolding outbox_status_from_str outbox_status_as_str
outbox_status_back OutboxStatus.pending = refl
outbox_status_back _ = refl

outbox_status_forth :
    (t : String) (s : OutboxStatus) → outbox_status_from_str t ≡ ok s → t ≡ outbox_status_as_str s
unfolding outbox_status_from_str outbox_status_as_str
outbox_status_forth t s h =
    ground
      (arith, eq_iff t "pending", eq_iff t "processing", eq_iff t "completed", eq_iff t "failed")

-- A column text parses to an outbox status exactly when it is the text of that status.
pub outbox_status_from_str_iff :
    (t : String) (s : OutboxStatus)
    → (outbox_status_from_str t ≡ ok s) ↔ (t ≡ outbox_status_as_str s)
outbox_status_from_str_iff t s = (outbox_status_forth t s, λ e. rw e (outbox_status_back s))
