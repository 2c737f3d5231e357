-- ===== src/Mock/Matching.antt =====
-- test_utils/mocks.rs against infra/database/postgres.rs: both hold the same items and entries.
use testable_rust_architectu.Base.{
  String, ◌≡◌, refl, sym, ap, ◌∙◌, none, List, [], ◌∷◌, inl, inr, str_eq, Bool-cases, arith,
}
use testable_rust_architectu.Base.Effects.{Result, ok, err}
use testable_rust_architectu.Domain.Items.{Item, SolanaOutboxEntry}
use testable_rust_architectu.World.{Env, ItemRow, OutboxRow, Tables}
use testable_rust_architectu.Postgres.Sql.{update_items_where, update_outbox_where}
use testable_rust_architectu.Postgres.Rows.{row_to_item, row_to_outbox}
use testable_rust_architectu.Mock.Store.{MockStore, get, update_at}

abbrev pub map_ok : {E A B : Type 0} → (A → B) → Result E A → Result E B
map_ok f (ok a) = ok (f a)
map_ok f (err e) = err e

-- An item but for the time of its last change.
abbrev pub timeless : Item → Item
timeless i = record i { updated_at = 0 }

abbrev pub SameItem : Env → ItemRow → Item → Type 0
SameItem env r i = map_ok timeless (row_to_item env r) ≡ ok (timeless i)

abbrev pub SameEntry : Env → OutboxRow → SolanaOutboxEntry → Type 0
SameEntry env r e = row_to_outbox env r ≡ ok e

-- The rows are read as the values of the map, in its order, and are stored under their ids.
abbrev pub ItemsMatch : Env → List ItemRow → List (String × Item) → Type 0
ItemsMatch env [] [] = Unit
ItemsMatch env [] (p ∷ m) = ⊥
ItemsMatch env (r ∷ rs) [] = ⊥
ItemsMatch env (r ∷ rs) ((k, i) ∷ m) = (k ≡ r.id) × SameItem env r i × ItemsMatch env rs m

abbrev pub EntriesMatch : Env → List OutboxRow → List (String × SolanaOutboxEntry) → Type 0
EntriesMatch env [] [] = Unit
EntriesMatch env [] (p ∷ m) = ⊥
EntriesMatch env (r ∷ rs) [] = ⊥
EntriesMatch env (r ∷ rs) ((k, e) ∷ m) = (k ≡ r.id) × SameEntry env r e × EntriesMatch env rs m

abbrev pub IsMatching : Env → Tables → MockStore → Type 0
IsMatching env t s = ItemsMatch env t.items s.storage × EntriesMatch env t.outbox s.outbox

module _ (env : Env) (id : String) where
  module _ (f : ItemRow → ItemRow) (g : Item → Item) (id_same : (r : ItemRow) → (f r).id ≡ r.id)
      (corresponds : (r : ItemRow) (i : Item) → SameItem env r i → SameItem env (f r) (g i)) where
    pub update-ItemsMatch :
        (rs : List ItemRow) (m : List (String × Item))
        → ItemsMatch env rs m
        → ItemsMatch env (update_items_where id f rs) (update_at id g m)
    update-ItemsMatch [] [] h = tt
    update-ItemsMatch [] (p ∷ m) h = absurd h
    update-ItemsMatch (r ∷ rs) [] h = absurd h
    update-ItemsMatch (r ∷ rs) ((k, i) ∷ m) (key, same, rest) =
        let tail = update-ItemsMatch rs m rest in
        elim (Bool-cases (str_eq r.id id)) [
          | inl e ↦ rw (key, e) (sym (id_same r), corresponds r i same, tail)
          | inr e ↦ rw (key, e) (refl, same, tail)
        ]

  module _ (f : OutboxRow → OutboxRow) (g : SolanaOutboxEntry → SolanaOutboxEntry)
      (id_same : (r : OutboxRow) → (f r).id ≡ r.id)
      (corresponds : (r : OutboxRow) (e : SolanaOutboxEntry)
        → SameEntry env r e
        → SameEntry env (f r) (g e)) where
    pub update-EntriesMatch :
        (rs : List OutboxRow) (m : List (String × SolanaOutboxEntry))
        → EntriesMatch env rs m
        → EntriesMatch env (update_outbox_where id f rs) (update_at id g m)
    update-EntriesMatch [] [] h = tt
    update-EntriesMatch [] (p ∷ m) h = absurd h
    update-EntriesMatch (r ∷ rs) [] h = absurd h
    update-EntriesMatch (r ∷ rs) ((k, i) ∷ m) (key, same, rest) =
        let tail = update-EntriesMatch rs m rest in
        elim (Bool-cases (str_eq r.id id)) [
          | inl e ↦ rw (key, e) (sym (id_same r), corresponds r i same, tail)
          | inr e ↦ rw (key, e) (refl, same, tail)
        ]

-- A change of a key that is not there.
pub update_at_absent :
    {V : Type 0} (k : String) (f : V → V) (m : List (String × V))
    → get k m ≡ none
    → update_at k f m ≡ m
update_at_absent k f [] h = refl
update_at_absent k f ((j, v) ∷ m) h = elim (Bool-cases (str_eq j k)) [
  | inl e ↦ absurd (ground (arith, e, h))
  | inr e ↦ rw e (ap (λ r. (j, v) ∷ r) (update_at_absent k f m (sym (rw e refl) ∙ h)))
]
