-- ===== src/Custody/Rows.antt =====
-- The warehouse invariants when inventory rows are closed and opened.
use coffee_traceability_back.Prelude.{
  ℕ, ◌≤◌, ◌≡◌, refl, sym, ◌∙◌, Bool, true, false, some, none, List, [], ◌∷◌, All, All-imp,
  All-update_where, find?-none_of_any, any, any-update_where, update_where, Bool-cases, inl, inr,
  arith, find?, subst,
}
use coffee_traceability_back.Schema.{BatchStatus, CoffeeBatch, WarehouseInventory, Trade}
use coffee_traceability_back.Batches.{holds, has_id, is_live, with_status, removed, leaves_storage}
use coffee_traceability_back.Batches.Transition.{moved}
use coffee_traceability_back.Warehouses.{load_of}
use coffee_traceability_back.Custody.{
  StoredRow, Single, Capacity, Bounds, CoveredRow, Covered, Unique,
}

-- Rows that pass the test `q` are closed at `now`.
module _ (q : WarehouseInventory → Bool) (now : ℕ) where
  shut-any :
      (k : ℕ) (rows : List WarehouseInventory)
      → any (holds k) rows ≡ false
      → any (holds k) (update_where q (removed now) rows) ≡ false
  shut-any k [] h = refl
  shut-any k (r ∷ rows) h = elim (Bool-cases (q r)) [
    | inl e ↦ rw e (ground (arith, shut-any k rows))
    | inr e ↦ rw e (ground (arith, shut-any k rows))
  ]

  pub shut-Single :
      (rows : List WarehouseInventory) → Single rows → Single (update_where q (removed now) rows)
  shut-Single [] h = tt
  shut-Single (r ∷ rows) h = elim (Bool-cases (q r)) [
    | inl e ↦ rw e ((λ o. cc), shut-Single rows h.1)
    | inr e ↦ rw e ((λ o. shut-any r.batch_id rows (h.0 o)), shut-Single rows h.1)
  ]

  pub load_of-shut-le :
      (x : ℕ) (rows : List WarehouseInventory)
      → load_of x (update_where q (removed now) rows) ≤ load_of x rows
  load_of-shut-le x [] = omega arith
  load_of-shut-le x (r ∷ rows) = elim (Bool-cases (q r)) [
    | inl e ↦ rw e (ground (arith, load_of-shut-le x rows))
    | inr e ↦ rw e (ground (arith, load_of-shut-le x rows))
  ]

  pub shut-Stored :
      (batches : List CoffeeBatch) (rows : List WarehouseInventory)
      → All (StoredRow batches) rows
      → All (StoredRow batches) (update_where q (removed now) rows)
  shut-Stored batches rows =
      All-update_where (StoredRow batches) (StoredRow batches) q (removed now) rows
        (λ r hit h e. cc) (λ r miss h e. h e)

  pub shut-Covered :
      (batches : List CoffeeBatch) (rows : List WarehouseInventory)
      → All (CoveredRow batches) rows
      → All (CoveredRow batches) (update_where q (removed now) rows)
  shut-Covered batches rows =
      All-update_where (CoveredRow batches) (CoveredRow batches) q (removed now) rows
        (λ r hit h e. cc) (λ r miss h e. h e)

-- With unique numbers, a property of the batch that a query finds holds of all of that number.
none_has_id :
    (P : CoffeeBatch → Type 0) (id : ℕ) (batches : List CoffeeBatch)
    → any (has_id id) batches ≡ false
    → All (λ b. b.id ≡ id → P b) batches
none_has_id P id [] h = tt
none_has_id P id (b ∷ bs) h = ((λ e. absurd (ground arith)), none_has_id P id bs (ground arith))

live_has_id : (id : ℕ) (b : CoffeeBatch) → is_live id b ≡ true → has_id id b ≡ true
live_has_id id b h = ground arith

pub All-of_live :
    (P : CoffeeBatch → Type 0) (id : ℕ) (batches : List CoffeeBatch) {b : CoffeeBatch}
    → Unique batches
    → find? (is_live id) batches ≡ some b
    → P b
    → All (λ x. x.id ≡ id → P x) batches
All-of_live P id [] u e p = tt
All-of_live P id (x ∷ xs) {b} u e p = elim (Bool-cases (is_live id x)) [
  | inl here ↦
      let same : x ≡ b = ground (arith, here) in
      let number : x.id ≡ id = ground (arith, here) in
      (
        (λ _. subst P (sym same) p),
        none_has_id P id xs (subst (λ k. any (has_id k) xs ≡ false) number u.0),
      )
  | inr there ↦
      let rest : find? (is_live id) xs ≡ some b = rw there at e in
      (
        (λ number.
            let absent : find? (is_live id) xs ≡ none =
              find?-none_of_any (is_live id) (has_id id) xs (λ y. live_has_id id y)
                (subst (λ k. any (has_id k) xs ≡ false) number u.0) in
            absurd (cc (sym absent ∙ rest))),
        All-of_live P id xs u.1 rest p,
      )
]

module _ (id : ℕ) (s : BatchStatus) where
  -- The number under which a batch is known stays what it was.
  any-with_status :
      (k : ℕ) (batches : List CoffeeBatch)
      → any (has_id k) (update_where (has_id id) (with_status s) batches) ≡ any (has_id k) batches
  any-with_status k batches =
      any-update_where (has_id k) (has_id id) (with_status s) batches (λ b. refl)

  with_status-Unique :
      (batches : List CoffeeBatch)
      → Unique batches
      → Unique (update_where (has_id id) (with_status s) batches)
  with_status-Unique [] u = tt
  with_status-Unique (b ∷ bs) u = elim (Bool-cases (has_id id b)) [
    | inl e ↦ rw e (any-with_status b.id bs ∙ u.0, with_status-Unique bs u.1)
    | inr e ↦ rw e (any-with_status b.id bs ∙ u.0, with_status-Unique bs u.1)
  ]

  with_status-Bounds :
      (r : WarehouseInventory) (batches : List CoffeeBatch)
      → All (Bounds r) batches
      → All (Bounds r) (update_where (has_id id) (with_status s) batches)
  with_status-Bounds r batches =
      All-update_where (Bounds r) (Bounds r) (has_id id) (with_status s) batches (λ b hit h e. h e)
        (λ b miss h e. h e)

  module _ (now : ℕ) (t : Trade) where
    pub moved-Unique : Unique t.batches → Unique (moved id s now t).batches
    moved-Unique u = elim (Bool-cases (leaves_storage s)) [
      | inl e ↦ rw e (with_status-Unique t.batches u)
      | inr e ↦ rw e (with_status-Unique t.batches u)
    ]

    pub moved-Single : Single t.inventory → Single (moved id s now t).inventory
    moved-Single h = elim (Bool-cases (leaves_storage s)) [
      | inl e ↦ rw e (shut-Single (holds id) now t.inventory h)
      | inr e ↦ rw e h
    ]

    pub moved-Capacity : Capacity t → Capacity (moved id s now t)
    moved-Capacity h = elim (Bool-cases (leaves_storage s)) [
      | inl e ↦ rw e λ k x c found cap.
          omega (arith, h k x c found cap, load_of-shut-le (holds id) now k t.inventory)
      | inr e ↦ rw e h
    ]

    pub moved-Covered : Covered t → Covered (moved id s now t)
    moved-Covered h =
        let kept : All (CoveredRow (update_where (has_id id) (with_status s) t.batches))
            t.inventory =
          All-imp (CoveredRow t.batches) _ t.inventory
            (λ r cov o. with_status-Bounds r t.batches (cov o)) h in
        elim (Bool-cases (leaves_storage s)) [
          | inl e ↦ rw e (shut-Covered (holds id) now _ t.inventory kept)
          | inr e ↦ rw e kept
        ]
