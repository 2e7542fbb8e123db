-- ===== src/Ledger.antt =====
-- blockchain/blockchain.service.ts: the hash chain of each batch's events. The advisory lock that
-- serialises the writers of one batch is the model's sequence of steps.
pub mod Effects
pub mod Chain
pub mod Rewriting
pub mod Settling
pub mod Tampering
use coffee_traceability_back.Prelude.{
  ℕ, Bool, true, false, not, Option, none, some, List, [], ◌∷◌, ◌++◌, ◌==◌, ltb, ◌&&◌, ◌||◌,
  if◌then◌else◌, or_else, select, update_where, any,
}
use coffee_traceability_back.Errors.{unique_violation, unexpected}
use coffee_traceability_back.Schema.{
  Text, LedgerEvent, Payload, EventType, batch_created, ownership_transferred, processing_completed,
  warehouse_stored, sale_recorded, quality_graded, LedgerStatus, failed,
}
use coffee_traceability_back.Texts.{codes, same_text, same_text_option, join, take}
use coffee_traceability_back.World.{
  Env, Db, M, pure, raise, gets, with_transaction, attempt, ◌>>=◌, ◌>>◌, raise_if, modify_db,
  new_date, new_id,
}

abbrev pub event_name : EventType → Text
event_name batch_created = codes "BATCH_CREATED"
event_name ownership_transferred = codes "OWNERSHIP_TRANSFERRED"
event_name processing_completed = codes "PROCESSING_COMPLETED"
event_name warehouse_stored = codes "WAREHOUSE_STORED"
event_name sale_recorded = codes "SALE_RECORDED"
event_name quality_graded = codes "QUALITY_GRADED"

-- `ORDER BY submittedAt`, where `tie` says which of two rows of one time stands first.
abbrev pub stands_before : (ℕ → ℕ → Bool) → LedgerEvent → LedgerEvent → Bool
stands_before tie y x =
    ltb y.submitted_at x.submitted_at || (y.submitted_at == x.submitted_at && tie y.id x.id)

abbrev pub insert_by_time : (ℕ → ℕ → Bool) → LedgerEvent → List LedgerEvent → List LedgerEvent
insert_by_time tie x [] = x ∷ []
insert_by_time tie x (y ∷ ys) =
    if stands_before tie y x then y ∷ insert_by_time tie x ys else x ∷ y ∷ ys

abbrev pub order_by_time : (ℕ → ℕ → Bool) → List LedgerEvent → List LedgerEvent
order_by_time tie [] = []
order_by_time tie (x ∷ xs) = insert_by_time tie x (order_by_time tie xs)

abbrev pub last_hash : Option Text → List LedgerEvent → Option Text
last_hash h [] = h
last_hash h (x ∷ xs) = last_hash (some x.block_hash) xs

-- The events of one batch, oldest first.
unfoldable pub events_of : (ℕ → ℕ → Bool) → ℕ → List LedgerEvent → List LedgerEvent
events_of tie batch_id rows =
    order_by_time tie (select (λ (e : LedgerEvent). e.batch_id == batch_id) rows)

-- What `verifyChain` answers.
pub data Verdict : Type 0 where
  intact : Verdict
  broken_at : ℕ → Verdict

-- The `valid` of the answer.
abbrev pub is_intact : Verdict → Bool
is_intact intact = true
is_intact (broken_at id) = false

module _ (env : Env) where
  pub hash_payload : Payload → Text
  hash_payload payload = env.sha256 (env.stringify payload)

  -- The text whose hash is the block hash.
  unfoldable pub block_input : Option Text → Text → EventType → ℕ → ℕ → Text
  block_input previous_hash payload_hash event_type batch_id submitted_at = join b'|' (
      or_else previous_hash (codes "genesis")
      ∷ payload_hash
      ∷ event_name event_type
      ∷ env.show_id batch_id
      ∷ env.to_iso submitted_at
      ∷ [])

  unfoldable pub compute_block_hash : Option Text → Text → EventType → ℕ → ℕ → Text
  compute_block_hash previous_hash payload_hash event_type batch_id submitted_at =
      env.sha256 (block_input previous_hash payload_hash event_type batch_id submitted_at)

  pub submit_to_ledger : Text → M Text
  submit_to_ledger block_hash =
      if not env.ledger_enabled
      then pure (codes "mock_" ++ take 32 block_hash)
      else raise unexpected

  -- The insert of the new block, behind the newest of its batch.
  pub append_block : ℕ → EventType → Payload → M LedgerEvent
  append_block batch_id event_type payload = do
    let payload_hash = hash_payload payload
    rows ← gets (λ w. w.db.ledger)
    let previous_hash = last_hash none (events_of env.tie_of_newest batch_id rows)
    submitted_at ← new_date env
    let block_hash = compute_block_hash previous_hash payload_hash event_type batch_id submitted_at
    id ← new_id env
    let row : LedgerEvent = record {
      id = id;
      batch_id = batch_id;
      event_type = event_type;
      tx_hash = none;
      payload_hash = payload_hash;
      previous_hash = previous_hash;
      block_hash = block_hash;
      payload = payload;
      status = LedgerStatus.pending;
      submitted_at = submitted_at;
      confirmed_at = none;
    }
    modify_db (λ d. record d { ledger = row ∷ d.ledger })
    pure row

  abbrev pub settle_row : ℕ → LedgerStatus → Option Text → Option ℕ → Db → Db
  settle_row id status tx_hash confirmed_at d = record d {
    ledger =
        update_where (λ (e : LedgerEvent). e.id == id)
          (λ e. record e { status = status; tx_hash = tx_hash; confirmed_at = confirmed_at })
          d.ledger;
  }

  -- The update to CONFIRMED; `tx_hash` is unique in the table.
  confirm_row : ℕ → Text → M (Unit {0})
  confirm_row id tx_hash = do
    now ← new_date env
    rows ← gets (λ w. w.db.ledger)
    raise_if
        (any (λ (e : LedgerEvent). not (e.id == id) && same_text_option e.tx_hash (some tx_hash))
          rows)
        unique_violation
    modify_db (settle_row id LedgerStatus.confirmed (some tx_hash) (some now))

  -- The submission of the block's hash, and what becomes of it.
  settlement : LedgerEvent → M (Unit {0})
  settlement row =
      attempt (submit_to_ledger row.block_hash >>= confirm_row row.id)
        (λ _. modify_db (settle_row row.id failed none none))

  pub record_event : ℕ → EventType → Payload → M (Unit {0})
  unfolding settlement
  record_event batch_id event_type payload = do
    row ← with_transaction (append_block batch_id event_type payload)
    settlement row

  -- The loop of `verifyChain`, from the hash that the next event must name.
  unfoldable pub check_from : ℕ → Option Text → List LedgerEvent → Verdict
  check_from batch_id expected [] = intact
  check_from batch_id expected (e ∷ es) =
      if same_text_option e.previous_hash expected
      then (if same_text
            (compute_block_hash e.previous_hash e.payload_hash e.event_type batch_id e.submitted_at)
            e.block_hash
          then check_from batch_id (some e.block_hash) es
          else broken_at e.id)
      else broken_at e.id

  unfoldable pub verify_chain : ℕ → List LedgerEvent → Verdict
  verify_chain batch_id rows = check_from batch_id none (events_of env.tie_of_all batch_id rows)
