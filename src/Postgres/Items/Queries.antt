-- ===== src/Postgres/Items/Queries.antt =====
-- infra/database/postgres.rs: the statements on items, and the rows and items that are built.
use testable_rust_architectu.Base.{
  ℕ, ◌+◌, String, Bool, true, false, ◌&&◌, ◌||◌, not, Option, none, some, List, map, if◌then◌else◌,
  str_eq, ltb, leb, ◌==◌, find?, keep, take, any,
}
use testable_rust_architectu.Base.Effects.{Result, ok, err}
use testable_rust_architectu.Domain.Errors.{ItemError, repository_failure}
use testable_rust_architectu.Domain.Status.{
  pending_submission, OutboxStatus, blockchain_status_as_str, outbox_status_as_str,
}
use testable_rust_architectu.Domain.Items.{
  Time, Item, ItemMetadata, ItemMetadataRequest, CreateItemRequest,
}
use testable_rust_architectu.World.{row_not_found, database, Tables, ItemRow, OutboxRow, Env}
use testable_rust_architectu.Postgres.Sql.{Statement, update_items_where}
use testable_rust_architectu.Postgres.Sorting.{sort}

abbrev pub nothing : Statement (Unit {0})
nothing t = ok (tt, t)

abbrev pub item_row : String → Tables → Option ItemRow
item_row id t = find? (λ r. str_eq r.id id) t.items

abbrev pub select_item : String → Statement (Option ItemRow)
select_item id t = ok (item_row id t, t)

-- `data.metadata.as_ref().map(serde_json::to_value).transpose()`.
abbrev pub encode_metadata : Env → Option ItemMetadataRequest → Result ItemError (Option String)
encode_metadata env none = ok none
encode_metadata env (some m) = elim (env.metadata_to_value m) [
  | none ↦ err repository_failure
  | some v ↦ ok (some v)
]

abbrev pub metadata_of : Option ItemMetadataRequest → Option ItemMetadata
metadata_of none = none
metadata_of (some m) = some (record {
  author = m.author;
  version = m.version;
  tags = m.tags;
  custom_fields = m.custom_fields;
})

abbrev pub new_item_row : String → String → CreateItemRequest → Option String → Time → ItemRow
new_item_row id hash request metadata at = record {
  id = id;
  hash = hash;
  name = request.name;
  description = request.description;
  content = request.content;
  metadata = metadata;
  blockchain_status = blockchain_status_as_str pending_submission;
  blockchain_signature = none;
  blockchain_retry_count = 0;
  blockchain_last_error = none;
  blockchain_next_retry_at = none;
  created_at = at;
  updated_at = at;
}

-- The columns that the statement leaves out have their defaults.
abbrev pub new_outbox_row : String → String → String → Time → Time → OutboxRow
new_outbox_row id item_id payload at started = record {
  id = id;
  aggregate_id = item_id;
  payload = payload;
  status = outbox_status_as_str OutboxStatus.pending;
  created_at = at;
  retry_count = 0;
  next_retry_at = none;
  attempt_blockhash = none;
  updated_at = started;
}

-- The item that `create_item` returns.
abbrev pub new_item : String → String → CreateItemRequest → Time → Item
new_item id hash request at = record {
  id = id;
  hash = hash;
  name = request.name;
  description = request.description;
  content = request.content;
  metadata = metadata_of request.metadata;
  blockchain_status = pending_submission;
  blockchain_signature = none;
  blockchain_retry_count = 0;
  blockchain_last_error = none;
  blockchain_next_retry_at = none;
  created_at = at;
  updated_at = at;
}

-- `(created_at, id) < (c, d)`.
abbrev pub older : Env → ItemRow → Time → String → Bool
older env r c d = ltb r.created_at c || (r.created_at == c && env.text_lt r.id d)

-- `ORDER BY created_at DESC, id DESC`: the row that stands first is the newer one.
abbrev pub newer_first : Env → ItemRow → ItemRow → Bool
newer_first env a b = older env b a.created_at a.id

abbrev pub after_cursor : Env → Option (Time × String) → List ItemRow → List ItemRow
after_cursor env none rs = rs
after_cursor env (some (c, d)) rs = keep (λ r. older env r c d) rs

abbrev pub select_page : Env → Option (Time × String) → ℕ → Statement (List ItemRow)
select_page env cursor limit t =
    ok (take limit (sort (newer_first env) (after_cursor env cursor t.items)), t)

abbrev pub due : Option Time → Time → Bool
due none at = true
due (some t) at = leb t at

-- `ORDER BY blockchain_next_retry_at ASC NULLS FIRST, created_at ASC`.
abbrev pub earlier : Option Time → Option Time → Bool → Bool
earlier none none tie = tie
earlier none (some u) tie = true
earlier (some t) none tie = false
earlier (some t) (some u) tie = ltb t u || (t == u && tie)

abbrev pub is_pending_item : Env → ℕ → Time → ItemRow → Bool
is_pending_item env n at r =
    str_eq r.blockchain_status "pending_submission"
    && (due r.blockchain_next_retry_at at
        && (ltb r.blockchain_retry_count 10 && not (env.locked n r.id)))

unfoldable pub pending_candidates : Env → ℕ → Time → ℕ → List ItemRow → List ItemRow
unfolding sort
pending_candidates env n at limit rows = take limit (
    sort
      (λ a b.
        earlier a.blockchain_next_retry_at b.blockchain_next_retry_at
          (ltb a.created_at b.created_at))
      (keep (is_pending_item env n at) rows))

abbrev pub is_listed : List ItemRow → ItemRow → Bool
is_listed cs r = any (λ c. str_eq c.id r.id) cs

abbrev pub touched : Time → ItemRow → ItemRow
touched at r = record r { updated_at = at }

-- Touches the candidates and returns them.
unfoldable pub touch_pending_items : Env → ℕ → Time → ℕ → Statement (List ItemRow)
unfolding pending_candidates
touch_pending_items env n at limit t =
    let chosen = is_listed (pending_candidates env n at limit t.items) in
    ok (
      map (touched at) (keep chosen t.items),
      record t { items = map (λ r. if chosen r then touched at r else r) t.items },
    )

-- `UPDATE items … RETURNING …` for one id: the first row that has it.
abbrev pub returning_item : String → (ItemRow → ItemRow) → Statement ItemRow
returning_item id f t =
    let rows = update_items_where id f t.items in
    elim (find? (λ r. str_eq r.id id) rows) [
      | none ↦ err row_not_found
      | some r ↦ ok (r, record t { items = rows })
    ]

abbrev pub requeued : Time → ItemRow → ItemRow
requeued at r = record r {
  blockchain_status = blockchain_status_as_str pending_submission;
  blockchain_last_error = none;
  blockchain_next_retry_at = none;
  blockchain_retry_count = 0;
  updated_at = at;
}

-- `COALESCE($2, blockchain_signature)`.
abbrev pub coalesce : Option String → Option String → Option String
coalesce none b = b
coalesce (some a) b = some a

abbrev pub i32_max : ℕ
i32_max = 2147483647

-- An `INTEGER` column that would overflow is an error of the statement (22003).
unfoldable pub increment : String → Time → Statement ℕ
increment id at t = elim (find? (λ r. str_eq r.id id) t.items) [
  | none ↦ err row_not_found
  | some r ↦
      if ltb r.blockchain_retry_count i32_max
      then ok (
        r.blockchain_retry_count + 1,
        record t {
          items =
              update_items_where id
                (λ r. record r {
                  blockchain_retry_count = r.blockchain_retry_count + 1;
                  updated_at = at;
                })
                t.items;
        },
      )
      else err (database (some "22003"))
]
