-- ===== src/Postgres/Leases.antt =====
-- infra/database/postgres.rs: two claims of the outbox. What the first took, the second leaves
-- alone, unless an attempt at it has been recorded in between.
use testable_rust_architectu.Base.{
  ℕ, ◌+◌, ◌≤◌, String, ◌≡◌, ◌≢◌, refl, sym, ap, subst, ◌∙◌, Bool, true, false, List, [], ◌∷◌, map,
  arith, All, any, keep, str_eq, if◌then◌else◌, eq_iff, Bool-cases, inl, inr, ltb,
}
use testable_rust_architectu.Base.Effects.{ok, ok_injective}
use testable_rust_architectu.Domain.Items.{Time}
use testable_rust_architectu.World.{OutboxRow, Tables}
use testable_rust_architectu.Postgres.Sorting.{All-take, All-keep, All-always, All-map, All-sort}
use testable_rust_architectu.Postgres.Fairness.{In, All-In}
use testable_rust_architectu.Postgres.Outbox.{
  lease, is_claimable, candidates, is_among, claimed, claim,
}

abbrev has_id : List OutboxRow → String → Bool
has_id cs id = any (λ c. str_eq c.id id) cs

everyone :
    (P : OutboxRow → Type 0) (rs : List OutboxRow) → ((r : OutboxRow) → In r rs → P r) → All P rs
everyone P [] h = tt
everyone P (r ∷ rs) h = (h r (inl refl), everyone P rs (λ x later. h x (inr later)))

found-map :
    (P : OutboxRow → Type 0) (f : OutboxRow → OutboxRow) (r : OutboxRow) (rows : List OutboxRow)
    → ((x : OutboxRow) → P (f x))
    → In r (map f rows)
    → P r
found-map P f r rows all there =
    All-In P r (map f rows) (All-map P f rows (All-always _ rows all)) there

-- The rows have other ids than `id`.
abbrev pub Avoid : List OutboxRow → String → Type 0
Avoid rows id = All (λ r. r.id ≢ id) rows

found-Avoid :
    (rows cs : List OutboxRow) (id : String)
    → All (λ c. Avoid rows c.id) cs
    → has_id cs id ≡ true
    → Avoid rows id
found-Avoid rows [] id h e = cc
found-Avoid rows (c ∷ cs) id (h, t) e = elim (Bool-cases (str_eq c.id id)) [
  | inl same ↦ subst (Avoid rows) ((eq_iff c.id id).0 same) h
  | inr other ↦ found-Avoid rows cs id t (sym (rw other refl) ∙ e)
]

-- Each entry of the later tables that has the id of one of the rows stands in the earlier tables
-- just so.
abbrev pub Untouched : List OutboxRow → Tables → Tables → Type 0
Untouched rows t1 t2 =
    (r r2 : OutboxRow) → In r rows → In r2 t2.outbox → r.id ≡ r2.id → In r2 t1.outbox

abbrev pub Disjoint : List OutboxRow → List OutboxRow → Type 0
Disjoint rows rows' = All (λ r'. Avoid rows r'.id) rows'

module _ (taken : String → Bool) (clock clock' : Time) (soon : clock' ≤ clock + lease) where
  abbrev after_claim : OutboxRow → OutboxRow
  after_claim r = if taken r.id then claimed clock r else r

  claimable-unclaimed :
      (locked : String → Bool) (at : Time) (r : OutboxRow)
      → is_claimable locked at clock' (after_claim r) ≡ true
      → taken (after_claim r).id ≡ false
  claimable-unclaimed locked at r h = elim (Bool-cases (taken r.id)) [
    | inr free ↦ ap (λ b. taken (if b then claimed clock r else r).id) free ∙ free
    | inl used ↦
        let h' : is_claimable locked at clock' (claimed clock r) ≡ true =
          sym (ap (λ b. is_claimable locked at clock' (if b then claimed clock r else r)) used)
          ∙ h in
        absurd (ground (arith, h', soon))
  ]

-- Of two claims, the second made at most five minutes of the database's clock after the first,
-- with any other changes in between, but where each entry with an id that the first returned is
-- still as the first left it: no entry that the second returns has the id of one that the first
-- returned.
pub claims-Disjoint :
    (locked locked' : String → Bool) (at at' clock clock' : Time) (limit limit' : ℕ)
    (t t1 t2 t3 : Tables) (rows rows' : List OutboxRow)
    → claim locked at clock limit t ≡ ok (rows, t1)
    → Untouched rows t1 t2
    → claim locked' at' clock' limit' t2 ≡ ok (rows', t3)
    → clock' ≤ clock + lease
    → Disjoint rows rows'
unfolding claim candidates
claims-Disjoint locked locked' at at' clock clock' limit limit' t t1 t2 t3 rows rows' e kept e'
      soon =
    let cs = candidates locked at clock limit t.outbox in
    let taken = has_id cs in
    let first = ok_injective e in
    let second = ok_injective e' in
    let left : map (after_claim taken clock clock' soon) t.outbox ≡ t1.outbox =
      λ i. (first i).1.outbox in
    let returned : All (λ r. taken r.id ≡ true) rows =
      subst (All (λ r. taken r.id ≡ true)) (ap (λ p. p.0) first) (
        All-map _ (claimed clock) _
          (All-keep _ (is_among cs) t.outbox (All-always _ t.outbox (λ r took. took)))) in
    let free : (c : OutboxRow)
        → In c t2.outbox
        → is_claimable locked' at' clock' c ≡ true
        → Avoid rows c.id =
      λ c there may. everyone _ rows λ r back same.
        let stays = subst (In c) (sym left) (kept r c back there same) in
        let unclaimed =
          found-map (λ x. is_claimable locked' at' clock' x ≡ true → taken x.id ≡ false)
            (after_claim taken clock clock' soon) c t.outbox
            (claimable-unclaimed taken clock clock' soon locked' at') stays may in
        let took = All-In (λ x. taken x.id ≡ true) r rows returned back in
        let clash = sym took ∙ (ap taken same ∙ unclaimed) in cc in
    let due = keep (is_claimable locked' at' clock') t2.outbox in
    let later = candidates locked' at' clock' limit' t2.outbox in
    let chosen : All (λ c. Avoid rows c.id) later = All-take _ limit' _ (
      All-sort _ (λ a b. ltb a.created_at b.created_at) due
        (All-keep _ (is_claimable locked' at' clock') t2.outbox (everyone _ t2.outbox free))) in
    subst (Disjoint rows) (ap (λ p. p.0) second) (
      All-map _ (claimed clock') _ (
        All-keep _ (is_among later) t2.outbox
          (All-always _ t2.outbox λ r' found. found-Avoid rows later r'.id chosen found)))
