-- ===== src/Mock/Refinement.antt =====
-- test_utils/mocks.rs against infra/database/postgres.rs: a database that answers every call and a
-- mock that does not fail take updates of the status, completions, failures and saved blockhashes
-- alike, and answer the same reads.
use testable_rust_architectu.Base.{
  ℕ, String, false, ◌≡◌, refl, sym, ap, ◌∙◌, Option, none, some, List, [], ◌∷◌, inl, inr, str_eq,
  Bool-cases, arith, find?,
}
use testable_rust_architectu.Base.Effects.{Result, ok}
use testable_rust_architectu.Domain.Errors.{ItemError}
use testable_rust_architectu.Domain.Items.{Item}
use testable_rust_architectu.World.{World, Env, ItemRow}
use testable_rust_architectu.Postgres.Rows.{row_to_item}
use testable_rust_architectu.Postgres.Items
use testable_rust_architectu.Postgres.Client.{postgres_items, postgres_outbox}
use testable_rust_architectu.Mock.Store.{MockConfig, MockEnv, MockStore, get}
use testable_rust_architectu.Mock.Items.{updated_item, mock_items}
use testable_rust_architectu.Mock.Items as MockItems
use testable_rust_architectu.Mock.Outbox.{mock_outbox}
use testable_rust_architectu.Mock.Matching.{map_ok, timeless, SameItem, ItemsMatch, IsMatching}
use testable_rust_architectu.Mock.Writes.{Write, writes, writes-IsMatching}

abbrev timeless_if_any : Option Item → Option Item
timeless_if_any none = none
timeless_if_any (some i) = some (timeless i)

-- What a reader sees of an answer, but for the time of the last change.
abbrev pub seen : Result ItemError (Option Item) → Result ItemError (Option Item)
seen r = map_ok timeless_if_any r

abbrev SameFound : Env → Option ItemRow → Option Item → Type 0
SameFound env none none = Unit
SameFound env none (some i) = ⊥
SameFound env (some r) none = ⊥
SameFound env (some r) (some i) = SameItem env r i

abbrev read_row : Env → Option ItemRow → Result ItemError (Option Item)
read_row env none = ok none
read_row env (some r) = map_ok some (row_to_item env r)

module _ (env : Env) (menv : MockEnv) (config : MockConfig) (calm : (n : ℕ) → env.fault n ≡ none)
    (succeeds : config.should_fail ≡ false) where
  found-Same :
      (id : String) (rs : List ItemRow) (m : List (String × Item))
      → ItemsMatch env rs m
      → SameFound env (find? (λ r. str_eq r.id id) rs) (get id m)
  found-Same id [] [] h = tt
  found-Same id [] (p ∷ m) h = absurd h
  found-Same id (r ∷ rs) [] h = absurd h
  found-Same id (r ∷ rs) ((k, i) ∷ m) (key, same, rest) = elim (Bool-cases (str_eq r.id id)) [
    | inl e ↦ rw (key, e) same
    | inr e ↦ rw (key, e) (found-Same id rs m rest)
  ]

  pg_reads :
      (id : String) (w : World)
      → (Items.get_item env id w).0 ≡ read_row env (find? (λ r. str_eq r.id id) w.tables.items)
  unfolding Items.get_item row_to_item
  pg_reads id w = ground (arith, calm w.ticks)

  mock_reads :
      (id : String) (s : MockStore)
      → (MockItems.get_item menv config id s).0 ≡ ok (get id s.storage)
  unfolding MockItems.get_item
  mock_reads id s = ground (arith, succeeds)

  seen-Same :
      (o : Option ItemRow) (a : Option Item)
      → SameFound env o a
      → seen (read_row env o) ≡ seen (ok a)
  unfolding row_to_item
  seen-Same none none h = refl
  seen-Same none (some i) h = absurd h
  seen-Same (some r) none h = absurd h
  seen-Same (some r) (some i) h = ap (map_ok some) h

  reads-Same :
      (id : String) (w : World) (s : MockStore)
      → IsMatching env w.tables s
      → seen ((postgres_items env).get_item id w).0
        ≡ seen ((mock_items menv config).get_item id s).0
  reads-Same id w s (items, outbox) =
      ap seen (pg_reads id w)
      ∙ seen-Same _ _ (found-Same id w.tables.items s.storage items)
      ∙ ap seen (sym (mock_reads id s))

-- From tables and a store of the mock that match, the same sequence of updates of an item's
-- status, completions, failures and saved blockhashes leads to tables and a store that match, and
-- then a read of any id gives the same answer but for the time of the last change: where no call
-- of the database fails and the mock is not told to fail. Claims, and writes that add or count,
-- are not among them.
pub writes-agree :
    (env : Env) (menv : MockEnv) (config : MockConfig) (calm : (n : ℕ) → env.fault n ≡ none)
    (succeeds : config.should_fail ≡ false) (ks : List Write) (w : World) (s : MockStore)
    (id : String)
    → IsMatching env w.tables s
    → let w' = writes (postgres_items env) (postgres_outbox env) ks w in
      let s' = writes (mock_items menv config) (mock_outbox menv config) ks s in
      IsMatching env w'.tables s'
      × (seen ((postgres_items env).get_item id w').0
          ≡ seen ((mock_items menv config).get_item id s').0)
writes-agree env menv config calm succeeds ks w s id m =
    let kept = writes-IsMatching env menv config calm succeeds ks w s m in
    (kept, reads-Same env menv config calm succeeds id _ _ kept)
