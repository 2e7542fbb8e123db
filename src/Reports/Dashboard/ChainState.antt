-- ===== src/Reports/Dashboard/ChainState.antt =====
-- The state of the ledger on the dashboard: `getChainStatus`.
use coffee_traceability_back.Prelude.{
  ℕ, Bool, true, false, Option, none, some, List, [], ◌∷◌, select, find?, sum_by, order_desc,
}
use coffee_traceability_back.Schema.{Text, LedgerStatus, LedgerEvent, EventType}
use coffee_traceability_back.World.{Env, World}
use coffee_traceability_back.Reports.Dashboard.Grouping.{is_scoped, batch_by_id, group_by}

pub record LastBlock : Type 0 where
  pub hash : Text
  pub event_type : EventType
  pub batch_code : Option Text
  pub submitted_at : Text

pub record ChainStatus : Type 0 where
  pub total_events : ℕ
  pub confirmed : ℕ
  pub pending : ℕ
  pub failed : ℕ
  pub last_block : Option LastBlock

abbrev pub same_ledger_status : LedgerStatus → LedgerStatus → Bool
same_ledger_status LedgerStatus.pending LedgerStatus.pending = true
same_ledger_status LedgerStatus.confirmed LedgerStatus.confirmed = true
same_ledger_status LedgerStatus.failed LedgerStatus.failed = true
same_ledger_status _ _ = false

abbrev count_of : LedgerStatus → List (LedgerStatus × ℕ) → ℕ
count_of s by_status =
    elim (find? (λ (row : LedgerStatus × ℕ). same_ledger_status row.0 s) by_status) [
      | none ↦ 0
      | some row ↦ row.1
    ]

abbrev last_of : Env → World → List LedgerEvent → Option LastBlock
last_of env w [] = none
last_of env w (e ∷ es) = some (record {
  hash = e.block_hash;
  event_type = e.event_type;
  batch_code = elim (batch_by_id e.batch_id w.db.trade.batches) [
    | none ↦ none
    | some b ↦ some b.batch_code
  ];
  submitted_at = env.to_iso e.submitted_at;
})

abbrev scoped_events : ℕ → World → List LedgerEvent
scoped_events cooperative_id w =
    select (λ (e : LedgerEvent). is_scoped cooperative_id w.db.trade.batches e.batch_id) w.db.ledger

abbrev pub get_chain_status : Env → ℕ → World → ChainStatus
get_chain_status env cooperative_id w =
    let events = scoped_events cooperative_id w in
    let by_status =
      group_by same_ledger_status (λ (e : LedgerEvent). e.status) (λ e. 1) events [] in
    record {
      total_events = sum_by (λ (row : LedgerStatus × ℕ). row.1) by_status;
      confirmed = count_of LedgerStatus.confirmed by_status;
      pending = count_of LedgerStatus.pending by_status;
      failed = count_of LedgerStatus.failed by_status;
      last_block = last_of env w (order_desc (λ (e : LedgerEvent). e.submitted_at) events);
    }
