-- ===== src/Custody/Claims.antt =====
-- The claims that a status makes (a processing record, a confirmed sale) and the totals of batches,
-- when a batch takes an edge of the state machine.
use coffee_traceability_back.Prelude.{
  ◌≡◌, ◌≢◌, ℕ, true, false, some, List, All, All-update_where, All-find?, find?-passes, any,
  update_where, Bool-cases, inl, inr, arith,
}
use coffee_traceability_back.Schema.{
  BatchStatus, sold, same_status, eq_of_same_status, CoffeeBatch, Trade, ProcessingRecord,
  OwnershipTransfer,
}
use coffee_traceability_back.Batches.{
  has_id, find_live, is_live, is_record_of, has_record, with_status, leaves_storage,
  claims_processing,
}
use coffee_traceability_back.Batches.Transition.{Edge, moved}
use coffee_traceability_back.Custody.{
  was_processed, was_sold, RecordedIn, Processed, confirmed_for, SoldBy, Sales, TotalOf, Totals,
  UniqueDeliveries, IsSound,
}
use coffee_traceability_back.Custody.Storage.{moved-Stored}
use coffee_traceability_back.Custody.Rows.{
  moved-Unique, moved-Single, moved-Capacity, moved-Covered,
}

-- Beyond REGISTERED and REJECTED, an edge either asks for a record or starts where there is one.
processed-Edge :
    (s t : BatchStatus)
    → Edge s t
    → was_processed t ≡ true
    → claims_processing t ≡ false
    → was_processed s ≡ true
processed-Edge s t edge after asks = ground arith

-- EXPORTED is reached from SOLD only.
sold-Edge : (s t : BatchStatus) → Edge s t → was_sold t ≡ true → t ≢ sold → was_sold s ≡ true
sold-Edge s t edge after other = ground arith

module _ (id : ℕ) (s : BatchStatus) where
  with_status-Processed :
      (records : List ProcessingRecord) (batches : List CoffeeBatch)
      → (was_processed s ≡ true → any (is_record_of id) records ≡ true)
      → All (RecordedIn records) batches
      → All (RecordedIn records) (update_where (has_id id) (with_status s) batches)
  with_status-Processed records batches recorded =
      All-update_where (RecordedIn records) (RecordedIn records) (has_id id) (with_status s) batches
        (λ b hit h e. (let same : b.id ≡ id = ground arith in rw same (recorded e))) (λ b miss h. h)

  with_status-Sales :
      (transfers : List OwnershipTransfer) (batches : List CoffeeBatch)
      → (was_sold s ≡ true → any (confirmed_for id) transfers ≡ true)
      → All (SoldBy transfers) batches
      → All (SoldBy transfers) (update_where (has_id id) (with_status s) batches)
  with_status-Sales transfers batches confirmed =
      All-update_where (SoldBy transfers) (SoldBy transfers) (has_id id) (with_status s) batches
        (λ b hit h e. (let same : b.id ≡ id = ground arith in rw same (confirmed e)))
        (λ b miss h. h)

  module _ (now : ℕ) (t : Trade) (b : CoffeeBatch) (found : find_live id t ≡ some b)
      (edge : Edge b.status s) where
    moved-Processed :
        (claims_processing s ≡ true → has_record id t ≡ true)
        → Processed t
        → Processed (moved id s now t)
    moved-Processed guard h = elim (Bool-cases (leaves_storage s)) [
      | inl e ↦ rw e (with_status-Processed t.processing_records t.batches recorded h)
      | inr e ↦ rw e (with_status-Processed t.processing_records t.batches recorded h)
    ]
      where
        live : is_live id b ≡ true
        live = find?-passes (is_live id) t.batches found

        before : was_processed b.status ≡ true → any (is_record_of id) t.processing_records ≡ true
        before p =
            let same : b.id ≡ id = ground (arith, live) in
            rw (← same)
              (All-find? (RecordedIn t.processing_records) (is_live id) t.batches h found p)

        recorded : was_processed s ≡ true → any (is_record_of id) t.processing_records ≡ true
        recorded p = elim (Bool-cases (claims_processing s)) [
          | inl asks ↦ guard asks
          | inr free ↦ before (processed-Edge b.status s edge p free)
        ]

    moved-Sales :
        (s ≡ sold → any (confirmed_for id) t.transfers ≡ true) → Sales t → Sales (moved id s now t)
    moved-Sales confirmed h = elim (Bool-cases (leaves_storage s)) [
      | inl e ↦ rw e (with_status-Sales t.transfers t.batches sale h)
      | inr e ↦ rw e (with_status-Sales t.transfers t.batches sale h)
    ]
      where
        live : is_live id b ≡ true
        live = find?-passes (is_live id) t.batches found

        before : was_sold b.status ≡ true → any (confirmed_for id) t.transfers ≡ true
        before p =
            let same : b.id ≡ id = ground (arith, live) in
            rw (← same) (All-find? (SoldBy t.transfers) (is_live id) t.batches h found p)

        sale : was_sold s ≡ true → any (confirmed_for id) t.transfers ≡ true
        sale p = elim (Bool-cases (same_status s sold)) [
          | inl here ↦ confirmed (eq_of_same_status s sold here)
          | inr other ↦ before (sold-Edge b.status s edge p (λ same. cc (rw same at other)))
        ]

    moved-Totals : Totals t → Totals (moved id s now t)
    moved-Totals h =
        let kept : All (TotalOf t.deliveries) (update_where (has_id id) (with_status s) t.batches) =
          All-update_where (TotalOf t.deliveries) (TotalOf t.deliveries) (has_id id) (with_status s)
            t.batches (λ x hit e. e) (λ x miss e. e) h in
        elim (Bool-cases (leaves_storage s)) [ inl e ↦ rw e kept | inr e ↦ rw e kept ]

    moved-UniqueDeliveries :
        UniqueDeliveries t.deliveries → UniqueDeliveries (moved id s now t).deliveries
    moved-UniqueDeliveries h = elim (Bool-cases (leaves_storage s)) [
      | inl e ↦ rw e h
      | inr e ↦ rw e h
    ]

    -- An edge of the state machine keeps all the invariants, where what its target claims is there.
    pub moved-IsSound :
        (claims_processing s ≡ true → has_record id t ≡ true)
        → (s ≡ sold → any (confirmed_for id) t.transfers ≡ true)
        → IsSound t
        → IsSound (moved id s now t)
    moved-IsSound guard confirmed h = record {
      unique = moved-Unique id s now t h.unique;
      stored = moved-Stored id s now t b found edge h.stored;
      single = moved-Single id s now t h.single;
      capacity = moved-Capacity id s now t h.capacity;
      covered = moved-Covered id s now t h.covered;
      processed = moved-Processed guard h.processed;
      sales = moved-Sales confirmed h.sales;
      totals = moved-Totals h.totals;
      unique_deliveries = moved-UniqueDeliveries h.unique_deliveries;
    }
