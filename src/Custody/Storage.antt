-- ===== src/Custody/Storage.antt =====
-- The warehouse invariants under each write: rows are closed, opened, and their batches move.
use coffee_traceability_back.Prelude.{
  ℕ, ◌≡◌, ◌≢◌, true, some, List, All-imp, All-update_where, All-find?, find?-passes, update_where,
  Bool-cases, inl, inr, arith,
}
use coffee_traceability_back.Schema.{
  BatchStatus, in_storage, CoffeeBatch, WarehouseInventory, Trade,
}
use coffee_traceability_back.Batches.{
  holds, has_id, find_live, is_live, with_status, removed, leaves_storage,
}
use coffee_traceability_back.Batches.Transition.{Edge, moved}
use coffee_traceability_back.Custody.{IsStored, InStorage, StoredRow, Stored}

-- A stored batch leaves that status only by an edge that closes its rows.
storage-Edge : (s : BatchStatus) → Edge in_storage s → leaves_storage s ≡ true
storage-Edge s e = ground arith

module _ (id : ℕ) (s : BatchStatus) where
  with_status-InStorage :
      (batches : List CoffeeBatch) (k : ℕ)
      → k ≢ id
      → InStorage batches k
      → InStorage (update_where (has_id id) (with_status s) batches) k
  with_status-InStorage batches k other =
      All-update_where (IsStored k) (IsStored k) (has_id id) (with_status s) batches
        (λ b hit same e. absurd (other (ground arith))) (λ b miss same e. same e)

  -- A batch with an open row that takes an edge is in storage, so the edge closes its rows.
  open_row_leaves :
      (t : Trade) (b : CoffeeBatch) (r : WarehouseInventory)
      → find_live id t ≡ some b
      → Edge b.status s
      → r.batch_id ≡ id
      → InStorage t.batches r.batch_id
      → leaves_storage s ≡ true
  open_row_leaves t b r found edge e h =
      let live : is_live id b ≡ true = find?-passes (is_live id) t.batches found in
      let stored : b.status ≡ in_storage =
        All-find? (IsStored r.batch_id) (is_live id) t.batches h found (ground arith) in
      storage-Edge s (rw stored at edge)

  pub moved-Stored :
      (now : ℕ) (t : Trade) (b : CoffeeBatch)
      → find_live id t ≡ some b
      → Edge b.status s
      → Stored t
      → Stored (moved id s now t)
  moved-Stored now t b found edge h = elim (Bool-cases (leaves_storage s)) [
    | inl leaves ↦ rw leaves (
        All-update_where (StoredRow t.batches) (StoredRow batches') (holds id) (removed now)
          t.inventory (λ r hit same e. cc)
          (λ r miss same e. with_status-InStorage t.batches r.batch_id (ground arith) (same e)) h)
    | inr stays ↦ rw stays (
        All-imp (StoredRow t.batches) (StoredRow batches') t.inventory
          (λ r same e.
            with_status-InStorage t.batches r.batch_id
              (λ hit. cc (open_row_leaves t b r found edge hit (same e))) (same e))
          h)
  ]
    where
      batches' : List CoffeeBatch
      batches' = update_where (has_id id) (with_status s) t.batches
