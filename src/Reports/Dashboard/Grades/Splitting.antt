-- ===== src/Reports/Dashboard/Grades/Splitting.antt =====
-- The weights of the grade split against those of the deliveries.
use coffee_traceability_back.Prelude.{
  ℕ, ◌≡◌, ◌+◌, ◌∙◌, refl, String, Bool, Option, List, [], ◌∷◌, select, sum_by, map, arith, ltb,
  or_else, sum_by-map, sum_by-order_desc,
}
use coffee_traceability_back.Schema.{Delivery, Trade}
use coffee_traceability_back.Reports.Dashboard.Grouping.{add_to, group_by}
use coffee_traceability_back.Reports.Dashboard.Grades.{
  GradeSlice, same_grade, slices_of, of_cooperative, get_grade_split,
}

module _ {K : Type 0} (same : K → K → Bool) where
  sum_by-add_to :
      (k : K) (n : ℕ) (groups : List (K × ℕ))
      → sum_by (λ (g : K × ℕ). g.1) (add_to same k n groups)
        ≡ n + sum_by (λ (g : K × ℕ). g.1) groups
  sum_by-add_to k n [] = refl
  sum_by-add_to k n ((l, m) ∷ groups) = ground (arith, sum_by-add_to k n groups)

  sum_by-group_by :
      {A : Type 0} (key : A → K) (amount : A → ℕ) (xs : List A) (groups : List (K × ℕ))
      → sum_by (λ (g : K × ℕ). g.1) (group_by same key amount xs groups)
        ≡ sum_by amount xs + sum_by (λ (g : K × ℕ). g.1) groups
  sum_by-group_by key amount [] groups = omega arith
  sum_by-group_by key amount (x ∷ xs) groups = ground (
    arith,
    sum_by-group_by key amount xs (add_to same (key x) (amount x) groups),
    sum_by-add_to (key x) (amount x) groups,
  )

-- What weighs nothing may be left out.
sum_by-positive :
    (xs : List (String × ℕ))
    → sum_by (λ (s : String × ℕ). s.1) (select (λ (s : String × ℕ). ltb 0 s.1) xs)
      ≡ sum_by (λ (s : String × ℕ). s.1) xs
sum_by-positive [] = refl
sum_by-positive (s ∷ xs) = ground (arith, sum_by-positive xs)

abbrev pub weight_of_slices : List GradeSlice → ℕ
weight_of_slices slices = sum_by (λ (s : GradeSlice). s.weight_kg) slices

-- The slices of the grade split weigh together what was delivered to the cooperative, graded or not.
pub get_grade_split-Sums :
    (cooperative_id : ℕ) (t : Trade)
    → weight_of_slices (get_grade_split cooperative_id t)
      ≡ sum_by (λ (d : Delivery). d.weight_kg) (select (of_cooperative cooperative_id) t.deliveries)
get_grade_split-Sums cooperative_id t =
    let own = select (of_cooperative cooperative_id) t.deliveries in
    let groups =
      group_by same_grade (λ (d : Delivery). d.quality_grade) (λ d. d.weight_kg) own [] in
    let named : Option String × ℕ → String × ℕ = λ r. (or_else r.0 "Ungraded", r.1) in
    sum_by-map (λ (s : GradeSlice). s.weight_kg) _ (slices_of groups)
    ∙ sum_by-order_desc (λ (s : String × ℕ). s.1) (λ (s : String × ℕ). s.1)
        (select (λ (s : String × ℕ). ltb 0 s.1) (map named groups))
    ∙ sum_by-positive (map named groups)
    ∙ sum_by-map (λ (s : String × ℕ). s.1) named groups
    ∙ sum_by-group_by same_grade (λ (d : Delivery). d.quality_grade) (λ d. d.weight_kg) own []
    ∙ omega arith
