-- ===== src/Reports/Statement.antt =====
-- The farmers' delivery statement of modules/reports/farmerStatement.service.ts, and its handler.
-- Weights and prices are hundredths and a value is ten-thousandths, added up exactly where the code
-- adds floating-point numbers; which way a value half-way between two hundredths is rounded is open.
pub mod Totals
mod Entries
pub mod Rows
pub mod Scoping
use Prim.Native.String.{◌++◌}
use coffee_traceability_back.Prelude.{
  ℕ, ◌+◌, ◌*◌, ◌/◌, ◌%◌, not, ◌==◌, ◌&&◌, leb, String, Bool, true, false, Option, none, some, List,
  [], ◌∷◌, length, select, find?, sum_by, order_desc, map, or_else, is_some, ◌||◌, if◌then◌else◌,
}
use coffee_traceability_back.Schema.{Text, Delivery, Farmer}
use coffee_traceability_back.World.{Env, World, M, gets, ◌>>=◌, ◌>>◌}
use coffee_traceability_back.Scope.{Caller, assert_ownership, farmer_scope_id, require_permission}
use coffee_traceability_back.Deliveries.Listing.{own_or}
use text.Mathlib.Text.{◌==◌ as str_eq}

-- The accumulator of one farmer.
pub record Entry : Type 0 where
  pub farmer_code : Text
  pub farmer_name : String
  pub delivery_count : ℕ
  pub total_kg : ℕ
  pub total_value : ℕ
  pub grades : List (String × ℕ)

pub record FarmerStatementRow : Type 0 where
  pub farmer_id : ℕ
  pub farmer_code : Text
  pub farmer_name : String
  pub delivery_count : ℕ
  pub total_kg : ℕ
  pub total_value : ℕ
  pub grade_distribution : List (String × ℕ)
  pub most_common_grade : Option String

pub record StatementTotals : Type 0 where
  pub delivery_count : ℕ
  pub total_kg : ℕ
  pub total_value : ℕ

pub record FarmerStatement : Type 0 where
  pub rows : List FarmerStatementRow
  pub totals : StatementTotals
  pub period : Option (Option Text × Option Text)

pub record StatementOptions : Type 0 where
  pub from_date : Option ℕ
  pub to_date : Option ℕ
  pub farmer_id : Option ℕ

-- From ten-thousandths to hundredths: `Math.round(value * 100) / 100`. Where the exact value lies
-- half-way, its floating-point value may lie on either side, and the test says whether it goes up.
abbrev pub round2 : Bool → ℕ → ℕ
round2 up value = if value % 100 == 50 && not up then value / 100 else (value + 50) / 100

-- `kg * toNumber(d.pricePerKg)`, and nothing where the price is null.
abbrev pub worth : Delivery → ℕ
worth d = elim d.price_per_kg [ none ↦ 0 | some price ↦ d.weight_kg * price ]

-- `grades.set(grade, (grades.get(grade) ?? 0) + 1)`
abbrev pub count_grade : String → List (String × ℕ) → List (String × ℕ)
count_grade grade [] = (grade, 1) ∷ []
count_grade grade ((g, n) ∷ grades) =
    let rest = count_grade grade grades in
    if str_eq g grade then (g, n + 1) ∷ grades else (g, n) ∷ rest

abbrev pub fresh_entry : Farmer → Entry
fresh_entry f = record {
  farmer_code = f.farmer_code;
  farmer_name = f.first_name ++ " " ++ f.last_name;
  delivery_count = 0;
  total_kg = 0;
  total_value = 0;
  grades = [];
}

abbrev pub add_delivery : Delivery → Entry → Entry
add_delivery d e = record e {
  delivery_count = e.delivery_count + 1;
  total_kg = e.total_kg + d.weight_kg;
  total_value = e.total_value + worth d;
  grades = count_grade (or_else d.quality_grade "Ungraded") e.grades;
}

-- One round of the loop over the map, which lists its keys in the order of their insertion: the entry
-- of the delivery's farmer is made if there is none, and takes the delivery.
abbrev pub enter : Delivery → Farmer → List (ℕ × Entry) → List (ℕ × Entry)
enter d f [] = (d.farmer_id, add_delivery d (fresh_entry f)) ∷ []
enter d f ((id, e) ∷ entries) =
    let rest = enter d f entries in
    if id == d.farmer_id then (id, add_delivery d e) ∷ entries else (id, e) ∷ rest

abbrev pub by_farmer : List (Delivery × Farmer) → List (ℕ × Entry) → List (ℕ × Entry)
by_farmer [] entries = entries
by_farmer ((d, f) ∷ rest) entries = by_farmer rest (enter d f entries)

abbrev pub first_grade : List (String × ℕ) → Option String
first_grade [] = none
first_grade ((grade, n) ∷ rest) = some grade

abbrev pub row_of : Env → ℕ × Entry → FarmerStatementRow
row_of env (id, e) =
    let distribution = order_desc (λ g. g.1) e.grades in
    record {
      farmer_id = id;
      farmer_code = e.farmer_code;
      farmer_name = e.farmer_name;
      delivery_count = e.delivery_count;
      total_kg = round2 true (e.total_kg * 100);
      total_value = round2 (env.rounds_up id e.total_value) e.total_value;
      grade_distribution = distribution;
      most_common_grade = first_grade distribution;
    }

abbrev pub rows_of : Env → List (Delivery × Farmer) → List FarmerStatementRow
rows_of env found =
    order_desc (λ (r : FarmerStatementRow). r.total_kg) (map (row_of env) (by_farmer found []))

abbrev pub totals_of : List FarmerStatementRow → StatementTotals
totals_of rows = record {
  delivery_count = sum_by (λ (r : FarmerStatementRow). r.delivery_count) rows;
  total_kg = round2 true (sum_by (λ (r : FarmerStatementRow). r.total_kg) rows * 100);
  total_value = round2 true (sum_by (λ (r : FarmerStatementRow). r.total_value) rows * 100);
}

-- The `where` of the query.
abbrev pub is_covered : ℕ → StatementOptions → Delivery → Bool
is_covered cooperative_id options d =
    d.cooperative_id == cooperative_id
    && elim options.farmer_id [ none ↦ true | some f ↦ d.farmer_id == f ]
    && elim options.from_date [ none ↦ true | some from ↦ leb from d.delivery_date ]
    && elim options.to_date [ none ↦ true | some to ↦ leb d.delivery_date to ]

-- Each delivery with its farmer; the foreign key leaves no delivery without one.
abbrev pub with_farmer : List Farmer → List Delivery → List (Delivery × Farmer)
with_farmer farmers [] = []
with_farmer farmers (d ∷ ds) =
    let rest = with_farmer farmers ds in
    elim (find? (λ (f : Farmer). f.id == d.farmer_id) farmers) [
      | none ↦ rest
      | some f ↦ (d, f) ∷ rest
    ]

abbrev iso : Env → Option ℕ → Option Text
iso env none = none
iso env (some date) = some (env.to_iso date)

abbrev period_of : Env → StatementOptions → Option (Option Text × Option Text)
period_of env options =
    if is_some options.from_date || is_some options.to_date
    then some (iso env options.from_date, iso env options.to_date)
    else none

-- What the query of `getFarmerStatement` reads.
abbrev pub covered : ℕ → StatementOptions → World → List (Delivery × Farmer)
covered cooperative_id options w =
    with_farmer w.db.accounts.farmers
      (select (is_covered cooperative_id options) w.db.trade.deliveries)

unfoldable pub get_farmer_statement : Env → ℕ → StatementOptions → World → FarmerStatement
get_farmer_statement env cooperative_id options w =
    let rows = rows_of env (covered cooperative_id options w) in
    record { rows = rows; totals = totals_of rows; period = period_of env options }

unfoldable pub statement_handler : Env → Caller → ℕ → StatementOptions → M FarmerStatement
statement_handler env caller cooperative_id options = do
  require_permission env ("reports:view" ∷ "deliveries:view" ∷ []) caller
  assert_ownership caller (some cooperative_id)
  own_farmer_id ← farmer_scope_id caller
  gets (
      get_farmer_statement env cooperative_id
        (record options { farmer_id = own_or own_farmer_id options.farmer_id }))
