-- ===== src/Postgres/Invariant.antt =====
-- The constraints between the two tables, stated over their keys.
use testable_rust_architectu.Base.{
  String, ◌≡◌, refl, Bool, true, false, List, [], ◌∷◌, map, arith, any, str_eq, All, str_eq_refl,
}
use testable_rust_architectu.World.{ItemRow, OutboxRow, Tables}
use testable_rust_architectu.Postgres.Sql.{
  has_item, has_outbox, update_items_where, update_outbox_where,
}

abbrev pub mem : String → List String → Bool
mem id ids = any (λ j. str_eq j id) ids

abbrev pub Distinct : List String → Type 0
Distinct [] = Unit
Distinct (i ∷ is) = (mem i is ≡ false) × Distinct is

abbrev pub item_ids : Tables → List String
item_ids t = map (λ r. r.id) t.items

abbrev pub outbox_ids : Tables → List String
outbox_ids t = map (λ o. o.id) t.outbox

abbrev pub aggregates : Tables → List String
aggregates t = map (λ o. o.aggregate_id) t.outbox

-- The ids of each table are distinct, every entry is for an item that exists, and every item has
-- an entry.
pub record IsCoherent (ids entries targets : List String) : Type 0 where
  pub items_distinct : Distinct ids
  pub outbox_distinct : Distinct entries
  pub refers : All (λ a. mem a ids ≡ true) targets
  pub covered : All (λ i. mem i targets ≡ true) ids

abbrev pub IsConsistent : Tables → Type 0
IsConsistent t = IsCoherent (item_ids t) (outbox_ids t) (aggregates t)

pub has_item-mem : (id : String) (rs : List ItemRow) → has_item id rs ≡ mem id (map (λ r. r.id) rs)
has_item-mem id [] = refl
has_item-mem id (r ∷ rs) = rw (has_item-mem id rs)

pub has_outbox-mem :
    (id : String) (rs : List OutboxRow) → has_outbox id rs ≡ mem id (map (λ r. r.id) rs)
has_outbox-mem id [] = refl
has_outbox-mem id (r ∷ rs) = rw (has_outbox-mem id rs)

-- Membership and coverage survive a longer list.
All-mem_weaken :
    (x : String) (is js : List String)
    → All (λ a. mem a is ≡ true) js
    → All (λ a. mem a (x ∷ is) ≡ true) js
All-mem_weaken x is [] h = tt
All-mem_weaken x is (j ∷ js) h = (ground arith, All-mem_weaken x is js h.1)

-- A new item with its entry.
pub insert_both :
    {ids entries targets : List String} (i e : String)
    → IsCoherent ids entries targets
    → mem i ids ≡ false
    → mem e entries ≡ false
    → IsCoherent (i ∷ ids) (e ∷ entries) (i ∷ targets)
insert_both {ids = ids} {targets = targets} i e c new free = record {
  items_distinct = (new, c.items_distinct);
  outbox_distinct = (free, c.outbox_distinct);
  refers = (rw (str_eq_refl i), All-mem_weaken i ids targets c.refers);
  covered = (rw (str_eq_refl i), All-mem_weaken i targets ids c.covered);
}

-- One more entry for an item that exists.
pub insert_entry :
    {ids entries targets : List String} (i e : String)
    → IsCoherent ids entries targets
    → mem i ids ≡ true
    → mem e entries ≡ false
    → IsCoherent ids (e ∷ entries) (i ∷ targets)
insert_entry {ids = ids} {targets = targets} i e c known free = record {
  items_distinct = c.items_distinct;
  outbox_distinct = (free, c.outbox_distinct);
  refers = (known, c.refers);
  covered = All-mem_weaken i targets ids c.covered;
}

-- Updates that leave the keys alone.
pub map-update_items_where :
    {K : Type 0} (key : ItemRow → K) (id : String) (f : ItemRow → ItemRow) (rs : List ItemRow)
    → ((r : ItemRow) → key (f r) ≡ key r)
    → map key (update_items_where id f rs) ≡ map key rs
map-update_items_where key id f [] same = refl
map-update_items_where key id f (r ∷ rs) same =
    ground (arith, same r, map-update_items_where key id f rs same)

pub map-update_outbox_where :
    {K : Type 0} (key : OutboxRow → K) (id : String) (f : OutboxRow → OutboxRow)
    (rs : List OutboxRow)
    → ((r : OutboxRow) → key (f r) ≡ key r)
    → map key (update_outbox_where id f rs) ≡ map key rs
map-update_outbox_where key id f [] same = refl
map-update_outbox_where key id f (r ∷ rs) same =
    ground (arith, same r, map-update_outbox_where key id f rs same)

pub map-map_same :
    {A K : Type 0} (key : A → K) (f : A → A) (rs : List A)
    → ((r : A) → key (f r) ≡ key r)
    → map key (map f rs) ≡ map key rs
map-map_same key f [] same = refl
map-map_same key f (r ∷ rs) same = ground (arith, same r, map-map_same key f rs same)
