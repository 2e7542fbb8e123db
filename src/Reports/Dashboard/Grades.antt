-- ===== src/Reports/Dashboard/Grades.antt =====
-- The grades of the dashboard: `getGradeSplit`. A percentage is in tenths.
pub mod Splitting
use text.Mathlib.Text.{◌==◌ as str_eq}
use coffee_traceability_back.Prelude.{
  ℕ, ◌+◌, ◌*◌, ◌/◌, ◌==◌, String, Bool, true, false, Option, none, some, List, [], ◌∷◌, select,
  sum_by, map, order_desc, or_else, ltb, if◌then◌else◌,
}
use coffee_traceability_back.Schema.{Delivery, Trade}
use coffee_traceability_back.Reports.Dashboard.Grouping.{group_by}

pub record GradeSlice : Type 0 where
  pub grade : String
  pub weight_kg : ℕ
  pub percentage : ℕ

abbrev pub same_grade : Option String → Option String → Bool
same_grade none none = true
same_grade (some g) (some h) = str_eq g h
same_grade _ _ = false

-- The slices before their percentages, largest first.
abbrev pub slices_of : List (Option String × ℕ) → List (String × ℕ)
slices_of rows =
    order_desc (λ (s : String × ℕ). s.1)
      (select (λ (s : String × ℕ). ltb 0 s.1)
        (map (λ (r : Option String × ℕ). (or_else r.0 "Ungraded", r.1)) rows))

abbrev pub percentage_of : ℕ → ℕ → ℕ
percentage_of weight total = if ltb 0 total then (2_000 * weight + total) / (2 * total) else 0

abbrev pub with_percentages : List (String × ℕ) → List GradeSlice
with_percentages slices =
    let total = sum_by (λ (s : String × ℕ). s.1) slices in
    map
      (λ (s : String × ℕ). (record {
        grade = s.0;
        weight_kg = s.1;
        percentage = percentage_of s.1 total;
      }))
      slices

abbrev pub of_cooperative : ℕ → Delivery → Bool
of_cooperative cooperative_id d = d.cooperative_id == cooperative_id

abbrev pub get_grade_split : ℕ → Trade → List GradeSlice
get_grade_split cooperative_id t = with_percentages (
    slices_of (
      group_by same_grade (λ (d : Delivery). d.quality_grade) (λ d. d.weight_kg)
        (select (of_cooperative cooperative_id) t.deliveries) []))
