-- ===== src/Transfers/Resale.antt =====
-- The confirmation of a transfer, whether or not its batch has been sold before.
use coffee_traceability_back.Prelude.{
  ℕ, suc, ◌≡◌, ◌≢◌, ◌⊎◌, subst, refl, sym, ap, ◌∙◌, true, none, some, List, [], ◌∷◌, find?,
  Bool-cases, Option-cases, inl, inr, arith, ◌==◌,
}
use coffee_traceability_back.Errors.{Result, ok, err}
use coffee_traceability_back.Schema.{
  BatchStatus, CoffeeBatch, OwnershipTransfer, is_pending, sold, same_status, eq_of_same_status,
  same_status_refl,
}
use coffee_traceability_back.World.{Env, World, with_transaction}
use coffee_traceability_back.Batches.{
  find_live, find_batch, transition_batch_status, is_live, has_id,
}
use coffee_traceability_back.Batches.Transition.{
  Edge, moved, Transitions, transition-again, transition_batch_status_lem,
}
use coffee_traceability_back.Transfers.{
  ConfirmTransferResult, find_transfer, confirm_row, confirm_transfer_row, close_sale,
  confirm_transfer_in_tx,
}

-- A PENDING transfer whose batch is there and is SOLD.
abbrev pub IsResale : ℕ → World → Type 0
IsResale id w =
    (x : OwnershipTransfer) × (b : CoffeeBatch) × (find_transfer id w.db.trade ≡ some x)
    × (is_pending x.status ≡ true)
    × (find_live x.batch_id w.db.trade ≡ some b)
    × (b.status ≡ sold)

abbrev pub Confirms : Env → ℕ → World → Result ConfirmTransferResult × World → Type 0
Confirms env id w (err e, w') = (w'.db ≡ w.db) × ¬ IsResale id w
Confirms env id w (ok r, w') =
    (x : OwnershipTransfer) × (b : CoffeeBatch) × (find_transfer id w.db.trade ≡ some x)
    × (is_pending x.status ≡ true)
    × (find_live x.batch_id w.db.trade ≡ some b)
    × (r.updated ≡ confirm_row (env.clock w.reads) x)
    × (((b.status ≡ sold)
          × (w'.db
              ≡ record w.db { trade = confirm_transfer_row x.id (env.clock w.reads) w.db.trade }))
        ⊎ (Edge b.status sold
            × (w'.db ≡ record w.db {
              trade =
                  moved x.batch_id sold (env.clock (suc w.reads))
                    (confirm_transfer_row x.id (env.clock w.reads) w.db.trade);
            })))

-- The batch of an identifier is there where the live one is.
live-there :
    (id : ℕ) (batches : List CoffeeBatch) (b : CoffeeBatch)
    → find? (is_live id) batches ≡ some b
    → find? (has_id id) batches ≢ none
live-there id [] b live missing = absurd (cc live)
live-there id (c ∷ batches) b live missing = elim (Bool-cases (c.id == id)) [
  | inl here ↦ absurd (let e = rw here at missing in cc)
  | inr other ↦ live-there id batches b (rw other at live) (rw other at missing)
]

module _ (env : Env) (id : ℕ) (w : World) (x : OwnershipTransfer)
    (found : find_transfer id w.db.trade ≡ some x) where
  of_found :
      IsResale id w
      → (is_pending x.status ≡ true)
        × (b : CoffeeBatch) × (find_live x.batch_id w.db.trade ≡ some b)
        × (b.status ≡ sold)
  of_found (y, b, found', pending, live, is_sold) =
      let same : y ≡ x = ground (arith, found, found') in
      (
        subst (λ (z : OwnershipTransfer). is_pending z.status ≡ true) same pending,
        b,
        subst (λ (z : OwnershipTransfer). find_live z.batch_id w.db.trade ≡ some b) same live,
        is_sold,
      )

  abbrev confirmed : World
  confirmed = record w {
    db = record w.db { trade = confirm_transfer_row x.id (env.clock w.reads) w.db.trade };
    reads = suc w.reads;
  }

  resold :
      (b owner : CoffeeBatch)
      → find_batch x.batch_id w.db.trade ≡ some owner
      → is_pending x.status ≡ true
      → find_live x.batch_id w.db.trade ≡ some b
      → b.status ≡ sold
      → Confirms env id w (with_transaction (confirm_transfer_in_tx env id) w)
  unfolding confirm_transfer_in_tx close_sale with_transaction
  resold b owner there pending live is_sold =
      rw (found, there, pending, transition-again env x.batch_id sold confirmed b live is_sold)
        (x, b, found, pending, live, refl, inl (is_sold, refl))

  -- The move of a batch that is not SOLD, whatever its outcome.
  closed :
      (owner : CoffeeBatch) (p : Result BatchStatus × World)
      → find_batch x.batch_id w.db.trade ≡ some owner
      → is_pending x.status ≡ true
      → ¬ IsResale id w
      → transition_batch_status env x.batch_id sold confirmed ≡ p
      → Transitions env x.batch_id sold confirmed p
      → Confirms env id w (with_transaction (confirm_transfer_in_tx env id) w)
  unfolding confirm_transfer_in_tx close_sale with_transaction
  closed owner (err e, w') there pending first run moves =
      rw (found, there, pending, run) (refl, first)
  closed owner (ok previous, w') there pending first run (b, live, same, inl (here, kept)) =
      rw (found, there, pending, run)
        (x, b, found, pending, live, refl, inl (sym same ∙ here, kept))
  closed owner (ok previous, w') there pending first run
        (b, live, same, inr (edge, covered, left)) =
      rw (found, there, pending, run)
        (x, b, found, pending, live, refl, inr (subst (λ s. Edge s sold) same edge, left))

  settled :
      (owner : CoffeeBatch)
      → find_batch x.batch_id w.db.trade ≡ some owner
      → is_pending x.status ≡ true
      → Confirms env id w (with_transaction (confirm_transfer_in_tx env id) w)
  settled owner there pending =
      let move = transition_batch_status_lem env x.batch_id sold confirmed in
      let rest = λ (first : ¬ IsResale id w). closed owner _ there pending first refl move in
      elim (Option-cases (find_live x.batch_id w.db.trade)) [
        | inl gone ↦
            rest (λ again. let (p, b, live, s) = of_found again in absurd (cc (sym gone ∙ live)))
        | inr (b, live) ↦ elim (Bool-cases (same_status b.status sold)) [
          | inl here ↦ resold b owner there pending live (eq_of_same_status b.status sold here)
          | inr other ↦ rest (λ again.
              let (p, c, live', is_sold) = of_found again in
              let same : b ≡ c = ground (arith, live, live') in
              absurd (
                cc (
                  sym other
                  ∙ subst (λ s. same_status s sold ≡ true)
                      (sym is_sold ∙ ap (λ (z : CoffeeBatch). z.status) (sym same))
                      (same_status_refl sold))))
        ]
      ]

-- A confirmation of any transfer, in its transaction. Where it fails, the database is what it was, and
-- the transfer is not a PENDING one of a batch that is SOLD. Where it returns, the transfer was
-- PENDING and is confirmed at the time of the confirmation; and either its batch was SOLD already, so
-- that the transfer's row is all that has changed in the database, or an edge of the table led from the
-- batch's status to SOLD, which it now has, with its open inventory rows closed, and nothing else has
-- changed. So a second PENDING transfer of a sold batch is always confirmed.
pub confirm_transfer_in_tx-Confirms :
    (env : Env) (id : ℕ) (w : World)
    → Confirms env id w (with_transaction (confirm_transfer_in_tx env id) w)
unfolding confirm_transfer_in_tx with_transaction
confirm_transfer_in_tx-Confirms env id w = elim (Option-cases (find_transfer id w.db.trade)) [
  | inl missing ↦
      rw missing (refl, λ (x, b, found, pending, live, is_sold). absurd (cc (sym missing ∙ found)))
  | inr (x, found) ↦ elim (Option-cases (find_batch x.batch_id w.db.trade)) [
    | inl missing ↦
        rw (found, missing)
          (
            refl,
            λ again.
                let (p, b, live, s) = of_found env id w x found again in
                absurd (live-there x.batch_id w.db.trade.batches b live missing),
          )
    | inr (owner, there) ↦ elim (Bool-cases (is_pending x.status)) [
      | inr final ↦
          rw (found, there, final)
            (
              refl,
              λ again.
                  let (p, b, live, s) = of_found env id w x found again in
                  absurd (cc (sym final ∙ p)),
            )
      | inl pending ↦ settled env id w x found owner there pending
    ]
  ]
]
