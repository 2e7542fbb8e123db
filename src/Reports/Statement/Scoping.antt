-- ===== src/Reports/Statement/Scoping.antt =====
-- What a farmer is shown of the statement.
use coffee_traceability_back.Prelude.{
  ℕ, ◌≡◌, ◌==◌, refl, some, List, [], ◌∷◌, find?, arith, Bool-cases, Option-cases, inl, inr, All,
  All-order_desc, All-selected, map,
}
use coffee_traceability_back.Schema.{Delivery, Farmer}
use coffee_traceability_back.World.{Env, World}
use coffee_traceability_back.World.Returns.{Returns, Returns-bind, Returns-any}
use coffee_traceability_back.Scope.{Caller, assert_ownership, farmer_scope_id, require_permission}
use coffee_traceability_back.Scope.Isolation.{IsFarmer, farmer_scope_id-Returns}
use coffee_traceability_back.Deliveries.Listing.{own_or}
use coffee_traceability_back.Reports.Statement.{
  Entry, FarmerStatementRow, StatementOptions, enter, by_farmer, row_of, rows_of, with_farmer,
  is_covered, covered, get_farmer_statement, statement_handler,
}

module _ (id : ℕ) where
  abbrev IsTheirs : Delivery × Farmer → Type 0
  IsTheirs p = p.0.farmer_id ≡ id

  with_farmer-IsTheirs :
      (farmers : List Farmer) (ds : List Delivery)
      → All (λ (d : Delivery). d.farmer_id ≡ id) ds
      → All IsTheirs (with_farmer farmers ds)
  with_farmer-IsTheirs farmers [] all = tt
  with_farmer-IsTheirs farmers (d ∷ ds) all =
      elim (Option-cases (find? (λ (f : Farmer). f.id == d.farmer_id) farmers)) [
        | inl missing ↦ rw (with_farmer, missing) (with_farmer-IsTheirs farmers ds all.1)
        | inr (f, found) ↦ rw (with_farmer, found) (all.0, with_farmer-IsTheirs farmers ds all.1)
      ]

  enter-IsTheirs :
      (d : Delivery) (f : Farmer) (entries : List (ℕ × Entry))
      → d.farmer_id ≡ id
      → All (λ p. p.0 ≡ id) entries
      → All (λ p. p.0 ≡ id) (enter d f entries)
  enter-IsTheirs d f [] theirs all = (theirs, tt)
  enter-IsTheirs d f (p ∷ entries) theirs all = elim (Bool-cases (p.0 == d.farmer_id)) [
    | inl same ↦ rw same all
    | inr other ↦ rw other (all.0, enter-IsTheirs d f entries theirs all.1)
  ]

  by_farmer-IsTheirs :
      (found : List (Delivery × Farmer)) (entries : List (ℕ × Entry))
      → All IsTheirs found
      → All (λ p. p.0 ≡ id) entries
      → All (λ p. p.0 ≡ id) (by_farmer found entries)
  by_farmer-IsTheirs [] entries theirs all = all
  by_farmer-IsTheirs ((d, f) ∷ found) entries theirs all =
      by_farmer-IsTheirs found (enter d f entries) theirs.1
        (enter-IsTheirs d f entries theirs.0 all)

  abbrev pub IsRowOf : FarmerStatementRow → Type 0
  IsRowOf r = r.farmer_id ≡ id

  row_of-IsRowOf :
      (env : Env) (entries : List (ℕ × Entry))
      → All (λ p. p.0 ≡ id) entries
      → All IsRowOf (map (row_of env) entries)
  row_of-IsRowOf env [] all = tt
  row_of-IsRowOf env (p ∷ entries) all = (all.0, row_of-IsRowOf env entries all.1)

  rows_of-IsRowOf :
      (env : Env) (found : List (Delivery × Farmer))
      → All IsTheirs found
      → All IsRowOf (rows_of env found)
  rows_of-IsRowOf env found theirs =
      All-order_desc IsRowOf (λ r. r.total_kg) (map (row_of env) (by_farmer found []))
        (row_of-IsRowOf env (by_farmer found []) (by_farmer-IsTheirs found [] theirs tt))

  covered-IsTheirs :
      (cooperative_id : ℕ) (options : StatementOptions) (w : World)
      → options.farmer_id ≡ some id
      → All IsTheirs (covered cooperative_id options w)
  covered-IsTheirs cooperative_id options w own = with_farmer-IsTheirs w.db.accounts.farmers _ (
      All-selected (λ d. d.farmer_id ≡ id) (is_covered cooperative_id options) w.db.trade.deliveries
        (λ d passes. ground (arith, own, passes)))

-- A farmer, whichever farmer's statement they ask for, is shown only a row of their own, where the
-- statement is shown.
pub statement_handler-IsRowOf :
    (env : Env) (caller : Caller) (cooperative_id : ℕ) (options : StatementOptions) (f : ℕ)
    → IsFarmer caller f
    → Returns (λ s. All (IsRowOf f) s.rows) (statement_handler env caller cooperative_id options)
unfolding statement_handler get_farmer_statement
statement_handler-IsRowOf env caller cooperative_id options f own =
    Returns-bind (require_permission env ("reports:view" ∷ "deliveries:view" ∷ []) caller) _
      (Returns-any _)
      λ _ _. Returns-bind (assert_ownership caller (some cooperative_id)) _ (Returns-any _) λ _ _.
        Returns-bind (farmer_scope_id caller) _ (farmer_scope_id-Returns caller f own) λ scope mine.
          record {
            at = λ w. rows_of-IsRowOf f env _ (
                covered-IsTheirs f cooperative_id
                  (record options { farmer_id = own_or scope options.farmer_id }) w (rw mine refl));
          }
