-- ===== src/Service/Reading.antt =====
-- infra/database/postgres.rs: the entries that are read from the rows of a claim.
use testable_rust_architectu.Base.{
  All-implies, String, Bool, true, false, ◌≡◌, refl, ap, inl, inr, some, List, [], ◌∷◌, arith, All,
  str_eq, eq_iff, Bool-cases,
}
use testable_rust_architectu.Base.Effects.{Result, ok}
use testable_rust_architectu.Domain.Errors.{ItemError}
use testable_rust_architectu.Domain.Items.{SolanaOutboxEntry, SolanaOutboxPayload}
use testable_rust_architectu.World.{Env, OutboxRow}
use testable_rust_architectu.Postgres.Rows.{row_to_outbox, collect}
use testable_rust_architectu.Service.GivingUp.{entry_of}
use testable_rust_architectu.Service.Standing.{IsLegible, named, IsTaken}

pub named-untaken :
    (taken : String → Bool) (es : List SolanaOutboxEntry) (id : String)
    → All (λ e. taken e.id ≡ true) es
    → taken id ≡ false
    → named es id ≡ false
named-untaken taken [] id h free = refl
named-untaken taken (e ∷ es) id (h, t) free = elim (Bool-cases (str_eq e.id id)) [
  | inl same ↦ absurd (let k = ap taken ((eq_iff e.id id).0 same) in cc)
  | inr other ↦ rw other (named-untaken taken es id t free)
]

pub Taken-named :
    (es : List SolanaOutboxEntry) (r : OutboxRow) → IsTaken es r → named es r.id ≡ true
Taken-named [] r h = absurd h
Taken-named (e ∷ es) r (inl (same, target)) = rw ((eq_iff e.id r.id).1 same) refl
Taken-named (e ∷ es) r (inr later) = ground (arith, Taken-named es r later)

collect-cons :
    {A B : Type 0} (f : A → Result ItemError B) (a : A) (as' : List A) {b : B} {bs : List B}
    → f a ≡ ok b
    → collect f as' ≡ ok bs
    → collect f (a ∷ as') ≡ ok (b ∷ bs)
collect-cons f a as' h k = rw (h, k, collect) refl

read_row :
    (env : Env) (r : OutboxRow) (p : SolanaOutboxPayload)
    → env.payload_from_json r.payload ≡ some p
    → row_to_outbox env r ≡ ok (entry_of r p)
unfolding row_to_outbox
read_row env r p h = rw (h, row_to_outbox) refl

-- Rows that can be read are all read, each as an entry of its own.
module _ (env : Env) where
  abbrev pub IsRead : List OutboxRow → List SolanaOutboxEntry → Type 0
  IsRead rs es =
      (collect (row_to_outbox env) rs ≡ ok es)
      × All (IsTaken es) rs
      × ((taken : String → Bool)
          → All (λ r. taken r.id ≡ true) rs
          → All (λ e. taken e.id ≡ true) es)

  pub collect-IsRead :
      (rs : List OutboxRow) → All (IsLegible env) rs → (es : List SolanaOutboxEntry) × IsRead rs es
  collect-IsRead [] h = ([], (refl, tt, λ taken t. tt))
  collect-IsRead (r ∷ rs) ((p, decodes), t) =
      let (es, (read, took, ids)) = collect-IsRead rs t in
      (
        entry_of r p ∷ es,
        (
          collect-cons (row_to_outbox env) r rs (read_row env r p decodes) read,
          (
            inl (refl, refl),
            All-implies (IsTaken es) (IsTaken (entry_of r p ∷ es)) rs (λ x k. inr k) took,
          ),
          λ taken (h, k). (h, ids taken k),
        ),
      )
