-- ===== src/Postgres/Lookup.antt =====
-- infra/database/postgres.rs: the outbox row of an id, under updates, and whether it is claimed.
use testable_rust_architectu.Base.{
  String, Bool, true, false, ◌≡◌, refl, sym, ap, ◌∙◌, Option, none, some, List, [], ◌∷◌, inl, inr,
  if◌then◌else◌, str_eq, str_eq_sound, Bool-cases, arith, find?,
}
use testable_rust_architectu.Domain.Items.{Time}
use testable_rust_architectu.World.{World, OutboxRow}
use testable_rust_architectu.Postgres.Sql.{update_outbox_where}
use testable_rust_architectu.Postgres.Outbox.{is_claimable}

abbrev pub row_of : String → World → Option OutboxRow
row_of id w = find? (λ r. str_eq r.id id) w.tables.outbox

abbrev id_or : String → Option OutboxRow → String
id_or d none = d
id_or d (some r) = r.id

abbrev map_some : {A B : Type 0} → (A → B) → Option A → Option B
map_some f none = none
map_some f (some a) = some (f a)

pub found-updated :
    (id : String) (f : OutboxRow → OutboxRow) (rs : List OutboxRow) (r : OutboxRow)
    → ((x : OutboxRow) → (f x).id ≡ x.id)
    → find? (λ x. str_eq x.id id) rs ≡ some r
    → find? (λ x. str_eq x.id id) (update_outbox_where id f rs) ≡ some (f r)
found-updated id f [] r same h = ground arith
found-updated id f (x ∷ rs) r same h =
    let rest = update_outbox_where id f rs in
    let search = λ (y : OutboxRow). find? (λ z. str_eq z.id id) (y ∷ rest) in
    elim (Bool-cases (str_eq x.id id)) [
      | inl e ↦
          let there : search (f x) ≡ some (f x) = rw (same x, e) refl in
          let found : some x ≡ some r = sym (rw e refl) ∙ h in
          ap (λ b. search (if b then f x else x)) e ∙ (there ∙ ap (map_some f) found)
      | inr e ↦
          let skipped : search x ≡ find? (λ z. str_eq z.id id) rest = rw e refl in
          ap (λ b. search (if b then f x else x)) e
          ∙ (skipped ∙ found-updated id f rs r same (sym (rw e refl) ∙ h))
    ]

pub found_id :
    (id : String) (rs : List OutboxRow) (r : OutboxRow)
    → find? (λ x. str_eq x.id id) rs ≡ some r
    → r.id ≡ id
found_id id [] r h = ground arith
found_id id (x ∷ rs) r h = elim (Bool-cases (str_eq x.id id)) [
  | inl e ↦
      let found : some x ≡ some r = sym (rw e refl) ∙ h in
      sym (ap (λ o. id_or "" o) found) ∙ str_eq_sound x.id id e
  | inr e ↦ found_id id rs r (sym (rw e refl) ∙ h)
]

pub unclaimable :
    (locked : String → Bool) (at clock : Time) (r : OutboxRow)
    → r.status ≡ "failed"
    → is_claimable locked at clock r ≡ false
unclaimable locked at clock r h =
    let waits : str_eq r.status "pending" ≡ false = ap (λ t. str_eq t "pending") h in
    let runs : str_eq r.status "processing" ≡ false = ap (λ t. str_eq t "processing") h in
    ground (arith, waits, runs)

pub waiting-claimable :
    (at clock : Time) (r : OutboxRow)
    → r.status ≡ "pending"
    → r.next_retry_at ≡ some at
    → is_claimable (λ id. false) at clock r ≡ true
waiting-claimable at clock r h k =
    let waits : str_eq r.status "pending" ≡ true = ap (λ t. str_eq t "pending") h in
    ground (arith, waits, k)
