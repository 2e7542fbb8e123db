-- ===== src/Reports/Dashboard/Series.antt =====
-- The sold total of the dashboard against the Sold series of its chart.
use coffee_traceability_back.Prelude.{
  ℕ, ◌≡◌, ◌+◌, ◌≤◌, ◌==◌, ◌&&◌, refl, true, false, none, List, [], ◌∷◌, select, sum_by, any, arith,
  subst, All, Bool-cases, inl, inr, if◌then◌else◌,
}
use coffee_traceability_back.Schema.{CoffeeBatch, OwnershipTransfer, is_confirmed, Trade}
use coffee_traceability_back.Batches.{has_id}
use coffee_traceability_back.Custody.{IsSound, Unique, confirmed_for}
use coffee_traceability_back.Reports.Dashboard.Grouping.{is_batch_of, is_scoped, batch_by_id}
use coffee_traceability_back.Reports.Dashboard.Movement.{
  Bucket, in_bucket, weight_of_batch, sold_in,
}
use coffee_traceability_back.Reports.Dashboard.Selling.{
  weight_by_status, get_sold_weight_kg-AtLeast,
}
use coffee_traceability_back.Reports.Dashboard.{weight_sold, get_sold_weight_kg}

abbrev pub IsWithin : Bucket → OwnershipTransfer → Type 0
IsWithin month x = in_bucket month x.transferred_at ≡ true

absent : (id : ℕ) (bs : List CoffeeBatch) → any (has_id id) bs ≡ false → batch_by_id id bs ≡ none
absent id [] h = refl
absent id (b ∷ bs) h = ground (arith, h, absent id bs)

module _ (cooperative_id : ℕ) (month : Bucket) where
  -- What a transfer adds to the series, where these are the batches.
  share : List CoffeeBatch → OwnershipTransfer → ℕ
  share batches x =
      if is_scoped cooperative_id batches x.batch_id && is_confirmed x.status
      then weight_of_batch batches x.batch_id
      else 0

  own : CoffeeBatch → OwnershipTransfer → ℕ
  own b x = if confirmed_for b.id x && is_batch_of cooperative_id b then b.total_weight_kg else 0

  sum_by-share :
      (batches : List CoffeeBatch) (xs : List OwnershipTransfer)
      → All (IsWithin month) xs
      → sum_by
          (λ (x : OwnershipTransfer). weight_of_batch batches x.batch_id)
          (select
            (λ (x : OwnershipTransfer).
              is_scoped cooperative_id batches x.batch_id
              && is_confirmed x.status
              && in_bucket month x.transferred_at)
            xs)
        ≡ sum_by (share batches) xs
  unfolding share
  sum_by-share batches [] within = refl
  sum_by-share batches (x ∷ xs) within = ground (arith, within.0, sum_by-share batches xs within.1)

  share-cons :
      (b : CoffeeBatch) (bs : List CoffeeBatch) (x : OwnershipTransfer)
      → any (has_id b.id) bs ≡ false
      → share (b ∷ bs) x ≡ own b x + share bs x
  unfolding share own
  share-cons b bs x apart = elim (Bool-cases (b.id == x.batch_id)) [
    | inl same ↦
        (let gone : batch_by_id x.batch_id bs ≡ none =
            absent x.batch_id bs
              (subst (λ k. any (has_id k) bs ≡ false) (ground (arith, same)) apart) in
          ground (arith, same, gone))
    | inr other ↦ ground (arith, other)
  ]

  sum_by-share-cons :
      (b : CoffeeBatch) (bs : List CoffeeBatch) (xs : List OwnershipTransfer)
      → any (has_id b.id) bs ≡ false
      → sum_by (share (b ∷ bs)) xs ≡ sum_by (own b) xs + sum_by (share bs) xs
  sum_by-share-cons b bs [] apart = refl
  sum_by-share-cons b bs (x ∷ xs) apart =
      let here = share-cons b bs x apart in
      let rest = sum_by-share-cons b bs xs apart in omega arith

  -- A confirmed transfer of the batch adds its weight.
  own-AtLeast :
      (b : CoffeeBatch) (xs : List OwnershipTransfer)
      → is_batch_of cooperative_id b && any (confirmed_for b.id) xs ≡ true
      → b.total_weight_kg ≤ sum_by (own b) xs
  unfolding own
  own-AtLeast b [] h = absurd (ground (arith, h))
  own-AtLeast b (x ∷ xs) h = elim (Bool-cases (confirmed_for b.id x)) [
    | inl sale ↦ ground (arith, sale, h)
    | inr other ↦
        (let rest = own-AtLeast b xs (ground (arith, other, h)) in ground (arith, other, rest))
  ]

  weight_sold-AtMost :
      (bs : List CoffeeBatch) (xs : List OwnershipTransfer)
      → Unique bs
      → weight_sold cooperative_id xs bs ≤ sum_by (share bs) xs
  weight_sold-AtMost [] xs unique = omega arith
  weight_sold-AtMost (b ∷ bs) xs unique =
      let rest = weight_sold-AtMost bs xs unique.1 in
      let split = sum_by-share-cons b bs xs unique.0 in
      elim (Bool-cases (is_batch_of cooperative_id b && any (confirmed_for b.id) xs)) [
        | inl sold ↦ (let own_ = own-AtLeast b xs sold in ground (arith, sold, own_, rest, split))
        | inr other ↦ ground (arith, other, rest, split)
      ]

-- Over sound tables, the sold total is at least the weight of the live batches of the cooperative that
-- are SOLD or EXPORTED, and at most what the Sold series shows for a month in which all transfers lie.
pub get_sold_weight_kg-IsBetween :
    (cooperative_id : ℕ) (month : Bucket) (t : Trade)
    → IsSound t
    → All (IsWithin month) t.transfers
    → (weight_by_status cooperative_id t.batches ≤ get_sold_weight_kg cooperative_id t)
      × (get_sold_weight_kg cooperative_id t ≤ sold_in cooperative_id t month)
get_sold_weight_kg-IsBetween cooperative_id month t sound within =
    let total = weight_sold-AtMost cooperative_id month t.batches t.transfers sound.unique in
    let series = sum_by-share cooperative_id month t.batches t.transfers within in
    (get_sold_weight_kg-AtLeast cooperative_id t sound, omega arith)
