-- ===== src/Deliveries/Assigning.antt =====
-- The deliveries that an assignment names, counted and weighed.
use coffee_traceability_back.Prelude.{
  ℕ, ◌+◌, ◌≤◌, ◌≡◌, true, false, Bool, some, List, [], ◌∷◌, length, select, any, sum_by, All,
  update_where, Bool-cases, inl, inr, arith, refl, ◌≢◌, sym, ap, ◌∙◌,
}
use coffee_traceability_back.Schema.{Delivery}
use coffee_traceability_back.Notifications.{contains}
use coffee_traceability_back.Custody.{delivered, share_of, UniqueDeliveries, delivery_has_id}
use coffee_traceability_back.Deliveries.{is_assignable, weight_of}

no_more :
    (a b : ℕ) (ds : List Delivery)
    → a ≡ b
    → any (delivery_has_id b) ds ≡ false
    → length (select (delivery_has_id a) ds) ≡ 0
no_more a b [] e h = refl
no_more a b (d ∷ ds) e h = ground (arith, no_more a b ds e)

-- At most one delivery has a given number.
count_id :
    (a : ℕ) (ds : List Delivery) → UniqueDeliveries ds → length (select (delivery_has_id a) ds) ≤ 1
count_id a [] u = omega arith
count_id a (d ∷ ds) u = elim (Bool-cases (delivery_has_id a d)) [
  | inl here ↦
      rw here (let none_left = no_more a d.id ds (ground arith) u.0 in omega (arith, none_left))
  | inr there ↦ rw there (count_id a ds u.1)
]

abbrev pub is_named : List ℕ → Delivery → Bool
is_named ids d = contains d.id ids

named_split :
    (a : ℕ) (ids : List ℕ) (ds : List Delivery)
    → length (select (is_named (a ∷ ids)) ds)
      ≤ length (select (delivery_has_id a) ds) + length (select (is_named ids) ds)
named_split a ids [] = omega arith
named_split a ids (d ∷ ds) = ground (arith, named_split a ids ds)

none_named : (ds : List Delivery) → length (select (is_named []) ds) ≡ 0
none_named [] = refl
none_named (d ∷ ds) = none_named ds

pigeonhole :
    (ids : List ℕ) (ds : List Delivery)
    → UniqueDeliveries ds
    → length (select (is_named ids) ds) ≤ length ids
pigeonhole [] ds u = ground (arith, none_named ds)
pigeonhole (a ∷ ids) ds u =
    ground (arith, named_split a ids ds, count_id a ds u, pigeonhole ids ds u)

module _ (p q : Delivery → Bool) (below : (d : Delivery) → p d ≡ true → q d ≡ true) where
  count_le : (ds : List Delivery) → length (select p ds) ≤ length (select q ds)
  count_le [] = omega arith
  count_le (d ∷ ds) = ground (arith, count_le ds, below d)

  -- Where no more rows pass the weaker test, the two tests agree.
  tight :
      (ds : List Delivery)
      → length (select q ds) ≤ length (select p ds)
      → All (λ d. q d ≡ true → p d ≡ true) ds
  tight [] h = tt
  tight (d ∷ ds) h = elim (Bool-cases (p d)) [
    | inl both ↦ ((λ e. both), tight ds (ground (arith, below d, both)))
    | inr neither ↦ elim (Bool-cases (q d)) [
      | inl only ↦ absurd (ground (arith, count_le ds, neither, only))
      | inr out ↦ ((λ e. absurd (cc (sym out ∙ e))), tight ds (ground (arith, neither, out)))
    ]
  ]

module _ (ids : List ℕ) (cooperative_id target : ℕ) where
  named_of_assignable :
      (d : Delivery) → is_assignable ids cooperative_id d ≡ true → is_named ids d ≡ true
  named_of_assignable d h = ground arith

  -- The check of the request: as many rows may be assigned as numbers were given.
  pub IsComplete : List Delivery → Type 0
  IsComplete ds = All (λ d. is_named ids d ≡ true → is_assignable ids cooperative_id d ≡ true) ds

  pub complete :
      (ds : List Delivery)
      → UniqueDeliveries ds
      → length (select (is_assignable ids cooperative_id) ds) ≡ length ids
      → IsComplete ds
  unfolding IsComplete
  complete ds u same =
      tight (is_assignable ids cooperative_id) (is_named ids) named_of_assignable ds
        (ground (arith, pigeonhole ids ds u, same))

  abbrev pub assigned : List Delivery → List Delivery
  assigned ds = update_where (is_named ids) (λ d. record d { batch_id = some target }) ds

  pub delivered-assigned :
      (ds : List Delivery)
      → IsComplete ds
      → delivered target (assigned ds)
        ≡ delivered target ds + sum_by weight_of (select (is_assignable ids cooperative_id) ds)
  unfolding IsComplete
  delivered-assigned [] h = refl
  delivered-assigned (d ∷ ds) h =
      let rest = delivered-assigned ds h.1 in
      elim (Bool-cases (is_named ids d)) [
        | inl e ↦ (let fits = h.0 e in ground (arith, rest, fits, e))
        | inr e ↦ ground (arith, rest, e)
      ]

  pub delivered-other :
      (k : ℕ) (ds : List Delivery)
      → k ≢ target
      → IsComplete ds
      → delivered k (assigned ds) ≡ delivered k ds
  unfolding IsComplete
  delivered-other k [] other h = refl
  delivered-other k (d ∷ ds) other h =
      let rest = delivered-other k ds other h.1 in
      elim (Bool-cases (is_named ids d)) [
        | inl e ↦ (let fits = h.0 e in ground (arith, rest, fits, e, other))
        | inr e ↦ rw e (ap (λ n. share_of k d + n) rest)
      ]
