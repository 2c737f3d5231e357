-- ===== src/Mock/Outbox.antt =====
-- test_utils/mocks.rs: `impl OutboxRepository for MockProvider`.
use testable_rust_architectu.Base.{
  ℕ, ◌+◌, String, Bool, false, Option, none, some, List, [], ◌∷◌, map, ltb, keep, take,
}
use testable_rust_architectu.Base.Effects.{Action, ok, pure, gets, lift, modify, ◌>>=◌, ◌>>◌}
use testable_rust_architectu.Domain.Errors.{ItemError}
use testable_rust_architectu.Domain.Status.{submitted, OutboxStatus}
use testable_rust_architectu.Domain.Items.{Time, Item, SolanaOutboxEntry}
use testable_rust_architectu.Domain.Ports.{OutboxRepository, Failure}
use testable_rust_architectu.Postgres.Sorting.{sort}
use testable_rust_architectu.Postgres.Items.{due}
use testable_rust_architectu.Postgres.Outbox.{set_blockhash}
use testable_rust_architectu.Mock.Store.{
  MockConfig, MockEnv, MockStore, get, update_at, values, read_clock, check_should_fail,
  provider_health_check,
}

-- A pending entry whose item is due; an entry without an item is not claimed.
abbrev pub is_claimable : Time → List (String × Item) → SolanaOutboxEntry → Bool
is_claimable at storage e = elim e.status [
  | OutboxStatus.pending ↦ elim (get e.aggregate_id storage) [
    | none ↦ false
    | some i ↦ due i.blockchain_next_retry_at at
  ]
  | _ ↦ false
]

abbrev pub processed : SolanaOutboxEntry → SolanaOutboxEntry
processed e = record e { status = OutboxStatus.processing }

-- The loop over the selected entries.
abbrev pub mark :
    List SolanaOutboxEntry → List (String × SolanaOutboxEntry) → List (String × SolanaOutboxEntry)
mark [] m = m
mark (e ∷ es) m = mark es (update_at e.id processed m)

abbrev pub completed_entry : SolanaOutboxEntry → SolanaOutboxEntry
completed_entry e = record e { status = OutboxStatus.completed }

abbrev pub completed_item : String → Time → Item → Item
completed_item signature at i = record i {
  blockchain_status = submitted;
  blockchain_signature = some signature;
  blockchain_last_error = none;
  blockchain_next_retry_at = none;
  updated_at = at;
}

abbrev pub failed_entry : Failure → SolanaOutboxEntry → SolanaOutboxEntry
failed_entry f e = record e {
  status = f.outbox_status;
  retry_count = f.retry_count;
  attempt_blockhash = set_blockhash f.attempt_blockhash e.attempt_blockhash;
}

abbrev pub failed_item : Failure → Time → Item → Item
failed_item f at i = record i {
  blockchain_status = f.item_status;
  blockchain_last_error = some f.error;
  blockchain_next_retry_at = f.next_retry_at;
  blockchain_retry_count = f.retry_count;
  updated_at = at;
}

-- `get_mut` of the item: the clock is read only where it is found.
abbrev pub change_item :
    MockEnv → String → (Time → Item → Item) → Action MockStore ItemError (Unit {0})
change_item env id f s = elim (get id s.storage) [
  | none ↦ (ok tt, s)
  | some i ↦ (
    ok tt,
    record s { storage = update_at id (f (env.utc_now s.ticks)) s.storage; ticks = s.ticks + 1 },
  )
]

abbrev pub change_entry :
    String → (SolanaOutboxEntry → SolanaOutboxEntry) → Action MockStore ItemError (Unit {0})
change_entry id f = modify (λ s. record s { outbox = update_at id f s.outbox })

module _ (env : MockEnv) (config : MockConfig) where
  unfoldable pub claim_pending_solana_outbox :
      ℕ → Action MockStore ItemError (List SolanaOutboxEntry)
  unfolding sort
  claim_pending_solana_outbox limit = do
    lift (check_should_fail config)
    at ← read_clock env
    selected ← gets (λ s. take limit (
        sort (λ a b. ltb a.created_at b.created_at)
          (keep (is_claimable at s.storage) (env.entry_order (values s.outbox)))))
    modify (λ s. record s { outbox = mark selected s.outbox })
    pure (map processed selected)

  unfoldable pub complete_solana_outbox :
      String → String → String → Action MockStore ItemError (Unit {0})
  complete_solana_outbox outbox_id item_id signature = do
    lift (check_should_fail config)
    change_item env item_id (completed_item signature)
    change_entry outbox_id completed_entry

  unfoldable pub fail_solana_outbox :
      String → String → Failure → Action MockStore ItemError (Unit {0})
  fail_solana_outbox outbox_id item_id f = do
    lift (check_should_fail config)
    change_item env item_id (failed_item f)
    change_entry outbox_id (failed_entry f)

  unfoldable pub save_attempt_blockhash :
      String → Option String → Action MockStore ItemError (Unit {0})
  save_attempt_blockhash outbox_id blockhash = do
    lift (check_should_fail config)
    change_entry outbox_id (λ e. record e { attempt_blockhash = blockhash })

  abbrev pub mock_outbox : OutboxRepository MockStore
  mock_outbox = record {
    health_check = provider_health_check config;
    claim_pending_solana_outbox = claim_pending_solana_outbox;
    complete_solana_outbox = complete_solana_outbox;
    fail_solana_outbox = fail_solana_outbox;
    save_attempt_blockhash = save_attempt_blockhash;
  }
