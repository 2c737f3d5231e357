-- ===== src/Service/Settling.antt =====
-- app/service.rs: what becomes of the entries of a batch that the chain takes.
use testable_rust_architectu.Base.{
  All-implies, ℕ, ◌+◌, ◌≤◌, String, Bool, true, false, ◌≡◌, refl, sym, ap, subst, ◌∙◌, inl, inr,
  none, List, [], ◌∷◌, map, arith, All, str_eq, eq_iff, Bool-cases, if◌then◌else◌,
}
use testable_rust_architectu.Base.Effects.{Result}
use testable_rust_architectu.Domain.Errors.{BlockchainError}
use testable_rust_architectu.Domain.Status.{blockchain_status_as_str, outbox_status_as_str}
use testable_rust_architectu.Domain.Items.{Time, SolanaOutboxEntry}
use testable_rust_architectu.Domain.Validation.{FieldError}
use testable_rust_architectu.Domain.Ports.{BlockchainClient}
use testable_rust_architectu.World.{World, Env, ItemRow, OutboxRow, Tables}
use testable_rust_architectu.Postgres.Sql.{update_items_where, update_outbox_where}
use testable_rust_architectu.Postgres.Sorting.{All-map, All-always}
use testable_rust_architectu.Postgres.Invariant.{outbox_ids, map-map_same}
use testable_rust_architectu.Postgres.Outbox.{completed_row, submitted_item}
use testable_rust_architectu.Postgres.Calm.{complete_calm}
use testable_rust_architectu.Service.{process_outbox_entry, process_entries, handle_outcome}
use testable_rust_architectu.Service.Requests.{postgres_app}
use testable_rust_architectu.Service.Passes.{IsApart}
use testable_rust_architectu.Service.Standing.{
  IsUp, IsLegible, IsSubmitted, IsDelivered, named, IsTaken, Stands, waits, backlog, keep-fewer,
}

update_outbox_where-map :
    (id : String) (f : OutboxRow → OutboxRow) (rs : List OutboxRow)
    → update_outbox_where id f rs ≡ map (λ r. if str_eq r.id id then f r else r) rs
update_outbox_where-map id f [] = refl
update_outbox_where-map id f (r ∷ rs) =
    ap (λ l. (if str_eq r.id id then f r else r) ∷ l) (update_outbox_where-map id f rs)

module _ (id signature : String) (at : Time) where
  update-IsSubmitted_still :
      (other : String) (items : List ItemRow)
      → IsSubmitted other items
      → IsSubmitted other (update_items_where id (submitted_item signature at) items)
  unfolding blockchain_status_as_str
  update-IsSubmitted_still other [] h = tt
  update-IsSubmitted_still other (i ∷ is) (h, t) = elim (Bool-cases (str_eq i.id id)) [
    | inl e ↦ rw e (λ same. refl, update-IsSubmitted_still other is t)
    | inr e ↦ rw e (h, update-IsSubmitted_still other is t)
  ]

  update-IsSubmitted :
      (items : List ItemRow)
      → IsSubmitted id (update_items_where id (submitted_item signature at) items)
  unfolding blockchain_status_as_str
  update-IsSubmitted [] = tt
  update-IsSubmitted (i ∷ is) = elim (Bool-cases (str_eq i.id id)) [
    | inl e ↦ rw e (λ same. refl, update-IsSubmitted is)
    | inr e ↦ rw e (λ same. absurd (let t = (eq_iff i.id id).1 same in cc), update-IsSubmitted is)
  ]

-- The entry that is processed next, completed on the chain's answer.
module _ (env : Env) (e : SolanaOutboxEntry) (es : List SolanaOutboxEntry) (signature : String)
    (at clock : Time) where
  abbrev settled_row : OutboxRow → OutboxRow
  settled_row r = if str_eq r.id e.id then completed_row clock r else r

  abbrev settled_items : List ItemRow → List ItemRow
  settled_items items = update_items_where e.aggregate_id (submitted_item signature at) items

  settled-Legible : (r : OutboxRow) → IsLegible env r → IsLegible env (settled_row r)
  settled-Legible r (p, h) = elim (Bool-cases (str_eq r.id e.id)) [
    | inl same ↦ rw same (p, h)
    | inr other ↦ rw other (p, h)
  ]

  settled-Delivered :
      (items : List ItemRow) (r : OutboxRow)
      → IsDelivered items r
      → IsDelivered (settled_items items) (settled_row r)
  unfolding outbox_status_as_str
  settled-Delivered items r (done, marked) =
      let marked' =
        update-IsSubmitted_still e.aggregate_id signature at r.aggregate_id items marked in
      elim (Bool-cases (str_eq r.id e.id)) [
        | inl same ↦ rw same (refl, marked')
        | inr other ↦ rw other (done, marked')
      ]

  settled-Taken : (r : OutboxRow) → IsTaken es r → IsTaken es (settled_row r)
  settled-Taken r h = elim (Bool-cases (str_eq r.id e.id)) [
    | inl same ↦ rw same h
    | inr other ↦ rw other h
  ]

  settled-Stands :
      (items : List ItemRow) (r : OutboxRow)
      → Stands env (e ∷ es) items r
      → Stands env es (settled_items items) (settled_row r)
  unfolding outbox_status_as_str
  settled-Stands items r (legible, inl done) =
      (settled-Legible r legible, inl (settled-Delivered items r done))
  settled-Stands items r (legible, inr (inl (due, free))) =
      let other : str_eq r.id e.id ≡ false =
        ground (arith, free, eq_iff e.id r.id, eq_iff r.id e.id) in
      let free' : named es r.id ≡ false = ground (arith, free) in
      (settled-Legible r legible, rw other (inr (inl (due, free'))))
  settled-Stands items r (legible, inr (inr (inl (same, target)))) =
      let here : str_eq r.id e.id ≡ true = (eq_iff r.id e.id).1 (sym same) in
      let marked = update-IsSubmitted e.aggregate_id signature at items in
      (
        settled-Legible r legible,
        inl (
          rw here refl,
          rw here (subst (λ a. IsSubmitted a (settled_items items)) target marked),
        ),
      )
  settled-Stands items r (legible, inr (inr (inr later))) =
      (settled-Legible r legible, inr (inr (settled-Taken r later)))

  settled-id : (r : OutboxRow) → (settled_row r).id ≡ r.id
  settled-id r = ground arith

  settled-waits : (r : OutboxRow) → waits es (settled_row r) ≡ true → waits (e ∷ es) r ≡ true
  unfolding outbox_status_as_str
  settled-waits r h =
      let at_test = λ (b : Bool). waits es (if b then completed_row clock r else r) in
      elim (Bool-cases (str_eq r.id e.id)) [
        | inl same ↦ absurd (let k = sym (ap at_test same) ∙ h in ground (arith, k))
        | inr other ↦
            let k = sym (ap at_test other) ∙ h in
            ground (arith, k, other, eq_iff e.id r.id, eq_iff r.id e.id)
      ]

-- The outbox has the same ids as ever, its rows stand as they should, and at most `n` of them wait.
abbrev pub Settles : Env → List String → List SolanaOutboxEntry → ℕ → Tables → Type 0
Settles env ids es n t =
    (outbox_ids t ≡ ids) × All (Stands env es t.items) t.outbox × (backlog es t.outbox ≤ n)

module _ (env : Env) (client : BlockchainClient World) (show : List FieldError → String)
    (calm : (n : ℕ) → env.fault n ≡ none) (apart : IsApart client) (up : IsUp client) where
  processed_tables :
      (e : SolanaOutboxEntry) (w : World)
      → (signature : String) × (at : Time) × (clock : Time) × ((process_outbox_entry
            (postgres_app env client show)
            e
            w).1.tables
          ≡ record {
            items = settled_items env e [] signature at clock w.tables.items;
            outbox = update_outbox_where e.id (completed_row clock) w.tables.outbox;
          })
  unfolding process_outbox_entry handle_outcome
  processed_tables e w =
      let ((signature, used), sent) = up e.payload.hash e.attempt_blockhash w in
      let w1 = (client.submit_transaction e.payload.hash e.attempt_blockhash w).1 in
      let (done, tables) = complete_calm env calm w1 e.id e.aggregate_id signature in
      (
        signature,
        env.utc_now w1.ticks,
        env.db_now (w1.ticks + 1),
        ap
              (λ (o : Result BlockchainError (String × String)).
                (handle_outcome (postgres_app env client show) e o w1).1.tables)
              sent
            ∙ (tables
                ∙ ap
                    (λ (t : Tables). record {
                      items =
                          update_items_where e.aggregate_id
                            (submitted_item signature (env.utc_now w1.ticks)) t.items;
                      outbox =
                          update_outbox_where e.id (completed_row (env.db_now (w1.ticks + 1)))
                            t.outbox;
                    })
                    (apart e.payload.hash e.attempt_blockhash w)),
      )

  processed-Settles :
      (e : SolanaOutboxEntry) (es : List SolanaOutboxEntry) (ids : List String) (n : ℕ) (w : World)
      → Settles env ids (e ∷ es) n w.tables
      → Settles env ids es n (process_outbox_entry (postgres_app env client show) e w).1.tables
  processed-Settles e es ids n w (same, stand, few) =
      let (signature, at, clock, tables) = processed_tables e w in
      let rows = w.tables.outbox in
      let items' = settled_items env e es signature at clock w.tables.items in
      let settle = settled_row env e es signature at clock in
      let mapped = sym (update_outbox_where-map e.id (completed_row clock) rows) in
      let stand' = All-map (Stands env es items') settle rows (
        All-implies (Stands env (e ∷ es) w.tables.items) (λ r. Stands env es items' (settle r)) rows
          (settled-Stands env e es signature at clock w.tables.items) stand) in
      let fewer =
        keep-fewer (waits es) (waits (e ∷ es)) settle rows
          (All-always _ rows (settled-waits env e es signature at clock)) in
      let few' : backlog es (map settle rows) ≤ n = omega (arith, fewer, few) in
      let same' =
        map-map_same (λ r. r.id) settle rows (settled-id env e es signature at clock) ∙ same in
      subst (Settles env ids es n) (sym tables) (
        subst (λ l. (map (λ r. r.id) l ≡ ids) × All (Stands env es items') l × (backlog es l ≤ n))
          mapped (same', stand', few'))

  pub entries-Settles :
      (es : List SolanaOutboxEntry) (ids : List String) (n : ℕ) (w : World)
      → Settles env ids es n w.tables
      → Settles env ids [] n (process_entries (postgres_app env client show) es w).tables
  unfolding process_entries
  entries-Settles [] ids n w h = h
  entries-Settles (e ∷ es) ids n w h = entries-Settles es ids n _ (processed-Settles e es ids n w h)
