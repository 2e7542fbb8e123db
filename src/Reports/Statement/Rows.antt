-- ===== src/Reports/Statement/Rows.antt =====
-- The rows of the farmers' statement: each is the account of one farmer's deliveries.
use text.Mathlib.Text.{◌==◌ as str_eq}
use text.Mathlib.TextEquality.{eq_iff}
use coffee_traceability_back.Prelude.{
  true, ℕ, ◌+◌, ◌≡◌, ◌==◌, ◌∙◌, refl, sym, ap, subst, String, Bool, List, [], ◌∷◌, length, sum_by,
  select, any, arith, Bool-cases, inl, inr, if◌then◌else◌, All, map, or_else, All-order_desc,
}
use coffee_traceability_back.Schema.{Delivery, Farmer}
use coffee_traceability_back.World.{Env, World}
use coffee_traceability_back.Reports.Statement.{
  Entry, FarmerStatementRow, StatementOptions, worth, count_grade, by_farmer, row_of, rows_of,
  with_farmer, is_covered, get_farmer_statement,
}
use coffee_traceability_back.Reports.Statement.Entries.{
  tally, by_farmer-tally, entries_of-by_farmer,
}
use coffee_traceability_back.Reports.Statement.Totals.{
  IsNear, IsNear-round2, sum_by-with_farmer, round2-exact, sum_by-rows_of, HasFarmer,
}
use coffee_traceability_back.Prelude.{sum_by-order_desc, length-sum_by}

-- The number beside a grade.
abbrev grade_count : String → List (String × ℕ) → ℕ
grade_count grade grades = sum_by (λ g. if str_eq g.0 grade then g.1 else 0) grades

-- The deliveries of a grade, a missing one being "Ungraded".
abbrev is_graded : String → Delivery → Bool
is_graded grade d = str_eq (or_else d.quality_grade "Ungraded") grade

abbrev one_if : Bool → ℕ
one_if b = if b then 1 else 0

grade_count-count_grade :
    (grade g : String) (grades : List (String × ℕ))
    → grade_count grade (count_grade g grades) ≡ grade_count grade grades + one_if (str_eq g grade)
grade_count-count_grade grade g [] = ground arith
grade_count-count_grade grade g ((h, n) ∷ grades) = elim (Bool-cases (str_eq h g)) [
  | inl same ↦ ground (arith, same, ap (λ k. str_eq k grade) ((eq_iff h g).0 same))
  | inr other ↦ ground (arith, other, grade_count-count_grade grade g grades)
]

-- The deliveries of one farmer.
abbrev of_farmer : ℕ → List Delivery → List Delivery
of_farmer id ds = select (λ (d : Delivery). d.farmer_id == id) ds

sum_by-select {ℓ} :
    {A : Type ℓ} (f : A → ℕ) (p : A → Bool) (xs : List A)
    → sum_by (λ x. if p x then f x else 0) xs ≡ sum_by f (select p xs)
sum_by-select f p [] = refl
sum_by-select f p (x ∷ xs) = ground (arith, sum_by-select f p xs)

-- What a row says of the deliveries that the statement covers.
pub record IsAccount (ds : List Delivery) (r : FarmerStatementRow) : Type 0 where
  counted : r.delivery_count ≡ length (of_farmer r.farmer_id ds)
  weighed : r.total_kg ≡ sum_by (λ (d : Delivery). d.weight_kg) (of_farmer r.farmer_id ds)
  valued : IsNear 1 r.total_value (sum_by worth (of_farmer r.farmer_id ds))
  graded :
      (grade : String)
      → grade_count grade r.grade_distribution
        ≡ length (select (is_graded grade) (of_farmer r.farmer_id ds))

module _ (env : Env) (farmers : List Farmer) (ds : List Delivery)
    (linked : All (HasFarmer farmers) ds) where
  found : List (Delivery × Farmer)
  found = with_farmer farmers ds

  tally-of_farmer :
      (amount : Delivery → ℕ) (id : ℕ) → tally amount id found ≡ sum_by amount (of_farmer id ds)
  unfolding found
  tally-of_farmer amount id =
      sum_by-with_farmer (λ d. if d.farmer_id == id then amount d else 0) farmers ds linked
      ∙ sum_by-select amount (λ d. d.farmer_id == id) ds

  length-of_farmer : (id : ℕ) → tally (λ d. 1) id found ≡ length (of_farmer id ds)
  length-of_farmer id = tally-of_farmer (λ d. 1) id ∙ sym (length-sum_by (of_farmer id ds))

  length-is_graded :
      (grade : String) (id : ℕ)
      → tally (λ d. one_if (is_graded grade d)) id found
        ≡ length (select (is_graded grade) (of_farmer id ds))
  length-is_graded grade id =
      tally-of_farmer (λ d. one_if (is_graded grade d)) id
      ∙ sum_by-select (λ d. 1) (is_graded grade) (of_farmer id ds)
      ∙ sym (length-sum_by (select (is_graded grade) (of_farmer id ds)))

  row_of-IsAccount :
      (entries : List (ℕ × Entry))
      → All (λ p. p.1.delivery_count ≡ tally (λ d. 1) p.0 found) entries
      → All (λ p. p.1.total_kg ≡ tally (λ d. d.weight_kg) p.0 found) entries
      → All (λ p. p.1.total_value ≡ tally worth p.0 found) entries
      → ((grade : String)
          → All
              (λ p.
                grade_count grade p.1.grades ≡ tally (λ d. one_if (is_graded grade d)) p.0 found)
              entries)
      → All (IsAccount ds) (map (row_of env) entries)
  row_of-IsAccount [] counts weights values grades = tt
  row_of-IsAccount (p ∷ entries) counts weights values grades = (
    record {
      counted = counts.0 ∙ length-of_farmer p.0;
      weighed = round2-exact true p.1.total_kg ∙ weights.0 ∙ tally-of_farmer (λ d. d.weight_kg) p.0;
      valued =
          subst (IsNear 1 (row_of env p).total_value) (values.0 ∙ tally-of_farmer worth p.0)
            (IsNear-round2 (env.rounds_up p.0 p.1.total_value) p.1.total_value);
      graded = λ grade.
          sum_by-order_desc (λ g. g.1) _ p.1.grades ∙ (grades grade).0 ∙ length-is_graded grade p.0;
    },
    row_of-IsAccount entries counts.1 weights.1 values.1 (λ grade. (grades grade).1),
  )

  rows_of-IsAccount : All (IsAccount ds) (rows_of env found)
  rows_of-IsAccount =
      All-order_desc (IsAccount ds) (λ r. r.total_kg) (map (row_of env) (by_farmer found []))
        (row_of-IsAccount (by_farmer found [])
          (by_farmer-tally (λ e. e.delivery_count) (λ d. 1) (λ f. refl) (λ d e. refl) found)
          (by_farmer-tally (λ e. e.total_kg) (λ d. d.weight_kg) (λ f. refl) (λ d e. refl) found)
          (by_farmer-tally (λ e. e.total_value) worth (λ f. refl) (λ d e. refl) found)
          (λ grade.
            by_farmer-tally (λ e. grade_count grade e.grades) (λ d. one_if (is_graded grade d))
              (λ f. refl)
              (λ d e. grade_count-count_grade grade (or_else d.quality_grade "Ungraded") e.grades)
              found))

-- Whether any of the deliveries is the farmer's.
abbrev any_of : ℕ → List Delivery → Bool
any_of id ds = any (λ (d : Delivery). d.farmer_id == id) ds

any_of-with_farmer :
    (id : ℕ) (farmers : List Farmer) (ds : List Delivery)
    → All (HasFarmer farmers) ds
    → any (λ p. p.0.farmer_id == id) (with_farmer farmers ds) ≡ any_of id ds
any_of-with_farmer id farmers [] linked = refl
any_of-with_farmer id farmers (d ∷ ds) linked =
    ground (arith, linked.0, any_of-with_farmer id farmers ds linked.1)

-- The rows account for the deliveries: each is the account of its farmer, and each farmer with a
-- delivery has one row, any other none.
pub record Accounts (ds : List Delivery) (rows : List FarmerStatementRow) : Type 0 where
  each : All (IsAccount ds) rows
  once :
      (id : ℕ)
      → sum_by (λ (r : FarmerStatementRow). one_if (r.farmer_id == id)) rows ≡ one_if (any_of id ds)

-- Where every delivery has its farmer, the statement has one row for each farmer with a delivery to the
-- cooperative that the filters let through, and none for another; the row holds the number of the
-- farmer's deliveries, their weight, their value to within half a hundredth of the exact sum
-- of weight times price, and beside each grade the
-- number of deliveries of that grade.
pub get_farmer_statement-Accounts :
    (env : Env) (cooperative_id : ℕ) (options : StatementOptions) (w : World)
    → All
        (HasFarmer w.db.accounts.farmers)
        (select (is_covered cooperative_id options) w.db.trade.deliveries)
    → Accounts
        (select (is_covered cooperative_id options) w.db.trade.deliveries)
        (get_farmer_statement env cooperative_id options w).rows
unfolding get_farmer_statement found
get_farmer_statement-Accounts env cooperative_id options w linked =
    let ds = select (is_covered cooperative_id options) w.db.trade.deliveries in
    let farmers = w.db.accounts.farmers in
    record {
      each = rows_of-IsAccount env farmers ds linked;
      once = λ id.
          sum_by-rows_of env (λ r. one_if (r.farmer_id == id)) (with_farmer farmers ds)
          ∙ entries_of-by_farmer id (with_farmer farmers ds) []
          ∙ grind (arith, any_of-with_farmer id farmers ds linked);
    }
