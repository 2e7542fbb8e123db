-- ===== src/Ledger/Settling.antt =====
-- An event is recorded: its block is appended, submitted, and confirmed or marked as failed.
use coffee_traceability_back.Prelude.{
  ℕ, ◌≡◌, ◌==◌, ◌∙◌, refl, subst, Option, Bool-cases, inl, inr, arith,
}
use coffee_traceability_back.Schema.{Text, LedgerEvent, LedgerStatus, EventType, Payload}
use coffee_traceability_back.Errors.{Result, ok, err}
use coffee_traceability_back.World.{
  continue, settle as after_commit, Env, World, Db, modify_db, with_transaction,
}
use coffee_traceability_back.World.Keeps.{Keeps, keeps_rules}
use coffee_traceability_back.Ledger.{
  append_block, submit_to_ledger, settle_row, confirm_row, settlement, record_event, intact,
  verify_chain,
}
use coffee_traceability_back.Ledger.Rewriting.{KeepsBlock, verify_chain-rewrite}
use coffee_traceability_back.Ledger.Chain.{Recorded, grown, beside}

-- A confirmation or a failure sets columns that no check reads.
settled-KeepsBlock :
    (status : LedgerStatus) (tx_hash : Option Text) (confirmed_at : Option ℕ)
    → KeepsBlock (λ e. record e { status = status; tx_hash = tx_hash; confirmed_at = confirmed_at })
settled-KeepsBlock status tx_hash confirmed_at = record {
  number = λ e. refl;
  batch = λ e. refl;
  time = λ e. refl;
  kind = λ e. refl;
  previous = λ e. refl;
  payload = λ e. refl;
  hash = λ e. refl;
}

module _ (env : Env) (k : ℕ) where
  abbrev pub IsIntact : Db → Type 0
  IsIntact d = verify_chain env k d.ledger ≡ intact

  settle_row-Keeps :
      (id : ℕ) (status : LedgerStatus) (tx_hash : Option Text) (confirmed_at : Option ℕ)
      → Keeps IsIntact (modify_db (settle_row env id status tx_hash confirmed_at))
  settle_row-Keeps id status tx_hash confirmed_at = record {
    at = λ w h.
        verify_chain-rewrite (λ e. e.id == id) _ (settled-KeepsBlock status tx_hash confirmed_at)
          env k w.db.ledger
        ∙ h;
  }

  submit-Keeps : (h : Text) → Keeps IsIntact (submit_to_ledger env h)
  unfolding submit_to_ledger
  submit-Keeps h = search keeps_rules

  confirm_row-Keeps : (id : ℕ) (h : Text) → Keeps IsIntact (confirm_row env id h)
  unfolding confirm_row
  confirm_row-Keeps id h = search (keeps_rules, settle_row-Keeps) depth 10

  settlement-Keeps : (x : LedgerEvent) → Keeps IsIntact (settlement env x)
  unfolding settlement
  settlement-Keeps x =
      search (keeps_rules, submit-Keeps, confirm_row-Keeps, settle_row-Keeps) depth 10

  -- The new block is genuine and names the newest hash of its batch.
  append_block-IsIntact :
      (batch_id : ℕ) (event_type : EventType) (payload : Payload) (w : World)
      → Recorded env batch_id (env.clock w.reads) w.db.ledger
      → IsIntact w.db
      → IsIntact (append_block env batch_id event_type payload w).1.db
  unfolding append_block
  append_block-IsIntact batch_id event_type payload w earlier h =
      elim (Bool-cases (batch_id == k)) [
        | inl same ↦
            (let here : batch_id ≡ k = ground arith in
              grown env k w.db.ledger _ here (rw here refl) (rw here refl)
                (subst (λ b. Recorded env b (env.clock w.reads) w.db.ledger) here earlier) h)
        | inr other ↦ beside env k w.db.ledger _ other ∙ h
      ]

  after-IsIntact :
      (r : Result LedgerEvent) (w w' : World)
      → IsIntact w.db
      → IsIntact w'.db
      → IsIntact (continue (after_commit r w w').0 (settlement env) (after_commit r w w').1).1.db
  after-IsIntact (ok row) w w' h h' = (settlement-Keeps row).at w' h'
  after-IsIntact (err e) w w' h h' = h

-- The record of an event, submitted or failed, leaves the chain of every batch intact that was so
-- before, where every event of its own batch is earlier than the clock now reads and no two of them are
-- of one time: the order that the database gives to equal times is left open.
pub record_event-IsIntact :
    (env : Env) (k batch_id : ℕ) (event_type : EventType) (payload : Payload) (w : World)
    → Recorded env batch_id (env.clock w.reads) w.db.ledger
    → IsIntact env k w.db
    → IsIntact env k (record_event env batch_id event_type payload w).1.db
unfolding record_event with_transaction
record_event-IsIntact env k batch_id event_type payload w earlier h =
    let (r, w') = append_block env batch_id event_type payload w in
    after-IsIntact env k r w w' h
      (append_block-IsIntact env k batch_id event_type payload w earlier h)
