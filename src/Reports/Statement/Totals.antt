-- ===== src/Reports/Statement/Totals.antt =====
-- The totals of the farmers' statement.
use coffee_traceability_back.Prelude.{
  Bool, ℕ, ◌+◌, ◌*◌, ◌≡◌, ◌≤◌, refl, List, [], ◌∷◌, length, sum_by, map, arith, ◌==◌, true, is_some,
  find?, All, ◌∙◌, sym, select,
}
use coffee_traceability_back.Prelude.{
  sum_by-order_desc, sum_by-map, sum_by-pointwise, length-sum_by,
}
use coffee_traceability_back.Schema.{Delivery, Farmer}
use coffee_traceability_back.World.{Env, World}
use coffee_traceability_back.Reports.Statement.{
  Entry, FarmerStatement, FarmerStatementRow, StatementOptions, round2, worth, enter, by_farmer,
  row_of, rows_of, with_farmer, is_covered, get_farmer_statement, fresh_entry, add_delivery,
}

-- A figure of an entry that a delivery raises by its own amount, from nothing.
module _ (figure : Entry → ℕ) (amount : Delivery → ℕ)
    (none_yet : (f : Farmer) → figure (fresh_entry f) ≡ 0)
    (raised : (d : Delivery) (e : Entry) → figure (add_delivery d e) ≡ figure e + amount d) where
  sum_by-enter :
      (d : Delivery) (f : Farmer) (entries : List (ℕ × Entry))
      → sum_by (λ p. figure p.1) (enter d f entries) ≡ sum_by (λ p. figure p.1) entries + amount d
  sum_by-enter d f [] = grind (arith, raised d (fresh_entry f), none_yet f)
  sum_by-enter d f ((id, e) ∷ entries) = ground (arith, raised d e, sum_by-enter d f entries)

  sum_by-by_farmer :
      (found : List (Delivery × Farmer)) (entries : List (ℕ × Entry))
      → sum_by (λ p. figure p.1) (by_farmer found entries)
        ≡ sum_by (λ p. figure p.1) entries + sum_by (λ p. amount p.0) found
  sum_by-by_farmer [] entries = omega arith
  sum_by-by_farmer ((d, f) ∷ found) entries =
      grind (arith, sum_by-by_farmer found (enter d f entries), sum_by-enter d f entries)

-- The delivery's farmer has a row.
abbrev pub HasFarmer : List Farmer → Delivery → Type 0
HasFarmer farmers d = is_some (find? (λ (f : Farmer). f.id == d.farmer_id) farmers) ≡ true

-- Under the foreign key, the join drops no delivery.
pub sum_by-with_farmer :
    (amount : Delivery → ℕ) (farmers : List Farmer) (ds : List Delivery)
    → All (HasFarmer farmers) ds
    → sum_by (λ p. amount p.0) (with_farmer farmers ds) ≡ sum_by amount ds
sum_by-with_farmer amount farmers [] all = refl
sum_by-with_farmer amount farmers (d ∷ ds) all =
    ground (arith, all.0, sum_by-with_farmer amount farmers ds all.1)

-- From an empty map, over the deliveries with their farmers.
sum_by-figure :
    (figure : Entry → ℕ) (amount : Delivery → ℕ) (farmers : List Farmer) (ds : List Delivery)
    → ((f : Farmer) → figure (fresh_entry f) ≡ 0)
    → ((d : Delivery) (e : Entry) → figure (add_delivery d e) ≡ figure e + amount d)
    → All (HasFarmer farmers) ds
    → sum_by (λ p. figure p.1) (by_farmer (with_farmer farmers ds) []) ≡ sum_by amount ds
sum_by-figure figure amount farmers ds none_yet raised linked = grind (
  arith,
  sum_by-by_farmer figure amount none_yet raised (with_farmer farmers ds) [],
  sum_by-with_farmer amount farmers ds linked,
)

-- Half a hundredth for each of the values that are rounded.
abbrev pub IsNear : ℕ → ℕ → ℕ → Type 0
IsNear n rounded exact = (rounded * 100 ≤ exact + n * 50) × (exact ≤ rounded * 100 + n * 50)

pub IsNear-round2 : (up : Bool) (exact : ℕ) → IsNear 1 (round2 up exact) exact
IsNear-round2 up exact = (ground arith, ground arith)

pub round2-exact : (up : Bool) (n : ℕ) → round2 up (n * 100) ≡ n
round2-exact up n = ground arith

sum_by-IsNear :
    (env : Env) (entries : List (ℕ × Entry))
    → IsNear
        (length entries)
        (sum_by (λ p. round2 (env.rounds_up p.0 p.1.total_value) p.1.total_value) entries)
        (sum_by (λ p. p.1.total_value) entries)
sum_by-IsNear env [] = (omega arith, omega arith)
sum_by-IsNear env (p ∷ entries) =
    let ih = sum_by-IsNear env entries in
    let here = IsNear-round2 (env.rounds_up p.0 p.1.total_value) p.1.total_value in
    (grind (arith, ih.0, here.0), grind (arith, ih.1, here.1))

-- What a sum over the rows is, before they are ordered.
pub sum_by-rows_of :
    (env : Env) (column : FarmerStatementRow → ℕ) (found : List (Delivery × Farmer))
    → sum_by column (rows_of env found) ≡ sum_by (λ p. column (row_of env p)) (by_farmer found [])
sum_by-rows_of env column found =
    sum_by-order_desc (λ r. r.total_kg) column (map (row_of env) (by_farmer found []))
    ∙ sum_by-map column (row_of env) (by_farmer found [])

length-rows_of :
    (env : Env) (found : List (Delivery × Farmer))
    → length (rows_of env found) ≡ length (by_farmer found [])
length-rows_of env found =
    length-sum_by (rows_of env found)
    ∙ sum_by-rows_of env (λ r. 1) found
    ∙ sym (length-sum_by (by_farmer found []))

-- What the totals say of the deliveries that the statement covers.
pub record IsTotal (ds : List Delivery) (s : FarmerStatement) : Type 0 where
  counted : s.totals.delivery_count ≡ length ds
  weighed : s.totals.total_kg ≡ sum_by (λ (d : Delivery). d.weight_kg) ds
  valued : IsNear (length s.rows) s.totals.total_value (sum_by worth ds)

-- Where every delivery has its farmer, the totals count every delivery to the cooperative that the
-- filters let through once, their weight is the sum of the deliveries' weights, and their value is at
-- most half a hundredth for each row away from the exact sum of weight times price.
pub get_farmer_statement-IsTotal :
    (env : Env) (cooperative_id : ℕ) (options : StatementOptions) (w : World)
    → All
        (HasFarmer w.db.accounts.farmers)
        (select (is_covered cooperative_id options) w.db.trade.deliveries)
    → IsTotal
        (select (is_covered cooperative_id options) w.db.trade.deliveries)
        (get_farmer_statement env cooperative_id options w)
unfolding get_farmer_statement
get_farmer_statement-IsTotal env cooperative_id options w linked =
    let ds = select (is_covered cooperative_id options) w.db.trade.deliveries in
    let farmers = w.db.accounts.farmers in
    let found = with_farmer farmers ds in
    let entries = by_farmer found [] in
    record {
      counted =
          sum_by-rows_of env (λ r. r.delivery_count) found
          ∙ sum_by-figure (λ e. e.delivery_count) (λ d. 1) farmers ds (λ f. refl) (λ d e. refl)
              linked
          ∙ sym (length-sum_by ds);
      weighed =
          round2-exact true (sum_by (λ r. r.total_kg) (rows_of env found))
          ∙ sum_by-rows_of env (λ r. r.total_kg) found
          ∙ sum_by-pointwise (λ p. round2 true (p.1.total_kg * 100)) (λ p. p.1.total_kg) entries
              (λ p. round2-exact true p.1.total_kg)
          ∙ sum_by-figure (λ e. e.total_kg) (λ d. d.weight_kg) farmers ds (λ f. refl) (λ d e. refl)
              linked;
      valued =
          rw
            (
              round2-exact true (sum_by (λ r. r.total_value) (rows_of env found)),
              sum_by-rows_of env (λ r. r.total_value) found,
              length-rows_of env found,
              sym (
                  sum_by-figure (λ e. e.total_value) worth farmers ds (λ f. refl) (λ d e. refl)
                    linked),
            )
            (sum_by-IsNear env entries);
    }
