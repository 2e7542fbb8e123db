-- ===== src/Batches/Scanning/Privacy.antt =====
-- What the public page does not show of the farmers and of their deliveries.
use coffee_traceability_back.Prelude.{
  ℕ, ◌≡◌, ◌==◌, ◌∙◌, refl, ap, Bool, false, Option, none, some, List, [], ◌∷◌, select, find?, map,
  order_by, insert_by, ltb, arith, Bool-cases, Option-cases, inl, inr,
}
use coffee_traceability_back.Errors.{ok}
use coffee_traceability_back.Schema.{Delivery, Farmer}
use coffee_traceability_back.World.{Env, World}
use coffee_traceability_back.Ledger.{verify_chain, is_intact}
use coffee_traceability_back.Reports.Journey.{deliveries_of, is_row_of}
use coffee_traceability_back.Reports.Sheet.{farmer_of}
use coffee_traceability_back.Batches.Scanning.{
  first_name_of, region_of, origin_of, page_of, is_public, has_token, verify_by_qr_handler,
}

module _ {A : Type 0} (g : A → A) where
  select-map :
      (q : A → Bool)
      → ((x : A) → q (g x) ≡ q x)
      → (xs : List A) → select q (map g xs) ≡ map g (select q xs)
  select-map q same [] = refl
  select-map q same (x ∷ xs) = elim (Bool-cases (q x)) [
    | inl e ↦ ground (arith, e, same x, select-map q same xs)
    | inr e ↦ ground (arith, e, same x, select-map q same xs)
  ]

  module _ (before : A → A → Bool) (same : (x y : A) → before (g x) (g y) ≡ before x y) where
    insert_by-map :
        (x : A) (ys : List A) → insert_by before (g x) (map g ys) ≡ map g (insert_by before x ys)
    insert_by-map x [] = refl
    insert_by-map x (y ∷ ys) = elim (Bool-cases (before y x)) [
      | inl e ↦ ground (arith, e, same y x, insert_by-map x ys)
      | inr e ↦ ground (arith, e, same y x)
    ]

    order_by-map : (xs : List A) → order_by before (map g xs) ≡ map g (order_by before xs)
    order_by-map [] = refl
    order_by-map (x ∷ xs) =
        ap (insert_by before (g x)) (order_by-map xs) ∙ insert_by-map x (order_by before xs)

  map-map :
      {B : Type 0} (h k : A → B)
      → ((x : A) → h (g x) ≡ k x)
      → (xs : List A) → map h (map g xs) ≡ map k xs
  map-map h k same [] = refl
  map-map h k same (x ∷ xs) = ground (arith, same x, map-map h k same xs)

-- The farmer's identity, first name and place are what they were.
pub record KeepsFarmer (f : Farmer → Farmer) : Type 0 where
  pub id : (x : Farmer) → (f x).id ≡ x.id
  pub first_name : (x : Farmer) → (f x).first_name ≡ x.first_name
  pub farm_location : (x : Farmer) → (f x).farm_location ≡ x.farm_location

-- The delivery's farmer, batch and date are what they were.
pub record KeepsDelivery (g : Delivery → Delivery) : Type 0 where
  pub farmer_id : (d : Delivery) → (g d).farmer_id ≡ d.farmer_id
  pub batch_id : (d : Delivery) → (g d).batch_id ≡ d.batch_id
  pub delivery_date : (d : Delivery) → (g d).delivery_date ≡ d.delivery_date

-- The rows of all farmers and of all deliveries are rewritten.
abbrev pub rewritten : (Farmer → Farmer) → (Delivery → Delivery) → World → World
rewritten f g w = record w {
  db = record w.db {
    accounts = record w.db.accounts { farmers = map f w.db.accounts.farmers };
    trade = record w.db.trade { deliveries = map g w.db.trade.deliveries };
  };
}

module _ (f : Farmer → Farmer) (g : Delivery → Delivery) (farmer : KeepsFarmer f)
    (delivery : KeepsDelivery g) where
  first_name-map :
      (id : ℕ) (rows : List Farmer)
      → first_name_of (farmer_of id (map f rows)) ≡ first_name_of (farmer_of id rows)
  first_name-map id [] = refl
  first_name-map id (x ∷ rows) =
      ground (arith, farmer.id x, farmer.first_name x, first_name-map id rows)

  region-map :
      (id : ℕ) (rows : List Farmer)
      → region_of (farmer_of id (map f rows)) ≡ region_of (farmer_of id rows)
  region-map id [] = refl
  region-map id (x ∷ rows) = ground (arith, farmer.id x, farmer.farm_location x, region-map id rows)

  is_row_of-map :
      (id : ℕ) (d : Delivery)
      → is_row_of (λ (x : Delivery). x.batch_id) (λ x. x.delivery_date) id (g d)
        ≡ is_row_of (λ (x : Delivery). x.batch_id) (λ x. x.delivery_date) id d
  is_row_of-map id d =
      ap (λ (b : Option ℕ). elim b [ none ↦ false | some n ↦ n == id ]) (delivery.batch_id d)

  deliveries_of-map :
      (id : ℕ) (w : World)
      → deliveries_of id (rewritten f g w).db.trade ≡ map g (deliveries_of id w.db.trade)
  deliveries_of-map id w =
      let before : Delivery → Delivery → Bool = λ x y. ltb x.delivery_date y.delivery_date in
      let own : Delivery → Bool =
        is_row_of (λ (x : Delivery). x.batch_id) (λ x. x.delivery_date) id in
      ap (order_by before) (select-map g own (is_row_of-map id) w.db.trade.deliveries)
      ∙ order_by-map g before
          (λ x y. ground (arith, delivery.delivery_date x, delivery.delivery_date y))
          (select own w.db.trade.deliveries)

  origin_of-map :
      (rows : List Farmer) (ds : List Delivery)
      → origin_of (map f rows) (map g ds) ≡ origin_of rows ds
  origin_of-map rows ds =
      let dates =
        map-map g (λ d. d.delivery_date) (λ d. d.delivery_date) delivery.delivery_date ds in
      let names =
        map-map g (λ d. first_name_of (farmer_of d.farmer_id (map f rows)))
          (λ d. first_name_of (farmer_of d.farmer_id rows))
          (λ d.
            ap (λ k. first_name_of (farmer_of k (map f rows))) (delivery.farmer_id d)
            ∙ first_name-map d.farmer_id rows)
          ds in
      let places =
        map-map g (λ d. region_of (farmer_of d.farmer_id (map f rows)))
          (λ d. region_of (farmer_of d.farmer_id rows))
          (λ d.
            ap (λ k. region_of (farmer_of k (map f rows))) (delivery.farmer_id d)
            ∙ region-map d.farmer_id rows)
          ds in
      rw (dates, names, places) refl

  origin-same :
      (id : ℕ) (w : World)
      → origin_of (map f w.db.accounts.farmers) (deliveries_of id (rewritten f g w).db.trade)
        ≡ origin_of w.db.accounts.farmers (deliveries_of id w.db.trade)
  origin-same id w =
      ap (origin_of (map f w.db.accounts.farmers)) (deliveries_of-map id w)
      ∙ origin_of-map w.db.accounts.farmers (deliveries_of id w.db.trade)

-- Whatever is written over in the rows of the farmers and the deliveries, but for a farmer's identity,
-- first name and place and a delivery's farmer, batch and date, the public page of a code shows the
-- same: so it shows no national identity, telephone number, last name, code, weight of a delivery,
-- grade or price.
pub verify_by_qr_handler-Private :
    (f : Farmer → Farmer) (g : Delivery → Delivery)
    → KeepsFarmer f
    → KeepsDelivery g
    → (env : Env) (token : ℕ) (w : World)
    → (verify_by_qr_handler env token (rewritten f g w)).0 ≡ (verify_by_qr_handler env token w).0
unfolding verify_by_qr_handler
verify_by_qr_handler-Private f g farmer delivery env token w =
    elim (Option-cases (find? (is_public token) w.db.trade.batches)) [
      | inl e ↦ rw e refl
      | inr (b, e) ↦ (elim (Option-cases (find? (has_token token) w.db.trade.batches)) [
        | inl e' ↦ rw (e, e') refl
        | inr (c, e') ↦
            rw (e, e')
              (ap
                (λ o. ok (record (page_of env w b (is_intact (verify_chain env c.id w.db.ledger))) {
                  origin = o;
                }))
                (origin-same f g farmer delivery b.id w))
      ])
    ]
