-- ===== src/Reports/Sales/Covering.antt =====
-- The sales ledger against the invariants of the coffee's tables.
use coffee_traceability_back.Prelude.{
  ◌≡◌, ◌&&◌, ◌∙◌, Bool, true, none, some, List, [], ◌∷◌, select, find?, any, arith, refl, ap,
  Bool-cases, Option-cases, subst, sym, inl, inr, All-find?, any-map, any-order_desc,
}
use coffee_traceability_back.Schema.{Text, CoffeeBatch, OwnershipTransfer, is_confirmed, Buyer}
use coffee_traceability_back.Texts.{same_text, same_text_refl}
use coffee_traceability_back.World.{Env, World}
use coffee_traceability_back.Batches.{is_live, find_live}
use coffee_traceability_back.Custody.{IsSound, SoldBy, was_sold, confirmed_for}
use coffee_traceability_back.Reports.Range.{DateRange, is_in}
use coffee_traceability_back.Reports.Sales.{
  SalesLedgerRow, with_batch, sale_row, sales_of, get_sales_ledger,
}

abbrev pub all_time : DateRange
all_time = record { from_date = none; to_date = none }

select-all_time :
    (xs : List OwnershipTransfer)
    → select (λ (x : OwnershipTransfer). is_in all_time x.transferred_at) xs ≡ xs
select-all_time [] = refl
select-all_time (x ∷ xs) = ground (arith, select-all_time xs)

-- A confirmed sale under the code.
abbrev pub is_sale_of : Text → SalesLedgerRow → Bool
is_sale_of code r = same_text r.batch_code code && is_confirmed r.status

module _ (env : Env) (buyers : List Buyer) (batches : List CoffeeBatch) (b : CoffeeBatch)
    (found : find? (is_live b.id) batches ≡ some b) where
  any-with_batch :
      (xs : List OwnershipTransfer)
      → any (confirmed_for b.id) xs ≡ true
      → any
          (λ p. is_sale_of b.batch_code (sale_row env buyers p))
          (with_batch b.cooperative_id batches xs)
        ≡ true
  any-with_batch [] h = h
  any-with_batch (x ∷ xs) h = elim (Bool-cases (confirmed_for b.id x)) [
    | inl here ↦
        (let same : x.batch_id ≡ b.id = ground (arith, here) in
          let sale : is_confirmed x.status ≡ true = ground (arith, here) in
          let known : find? (is_live x.batch_id) batches ≡ some b =
            subst (λ id. find? (is_live id) batches ≡ some b) (sym same) found in
          ground (arith, known, sale, same_text_refl b.batch_code))
    | inr there ↦
        (let rest = any-with_batch xs (rw there at h) in
          elim (Option-cases (find? (is_live x.batch_id) batches)) [
            | inl e ↦ ground (arith, e, rest)
            | inr (c, e) ↦ ground (arith, e, rest)
          ])
  ]

-- The sales ledger of all time shows a confirmed sale of each batch of the cooperative that is
-- SOLD or EXPORTED, so long as the tables are sound.
pub get_sales_ledger-Covers :
    (env : Env) (w : World) (b : CoffeeBatch)
    → IsSound w.db.trade
    → find_live b.id w.db.trade ≡ some b
    → was_sold b.status ≡ true
    → any (is_sale_of b.batch_code) (get_sales_ledger env b.cooperative_id all_time w).rows ≡ true
unfolding get_sales_ledger
get_sales_ledger-Covers env w b sound found sold =
    any-map _ (sale_row env w.db.accounts.buyers) (sales_of b.cooperative_id all_time w)
    ∙ any-order_desc (λ (p : OwnershipTransfer × CoffeeBatch). p.0.transferred_at)
        (λ p. is_sale_of b.batch_code (sale_row env w.db.accounts.buyers p))
        (with_batch b.cooperative_id w.db.trade.batches (
          select (λ (x : OwnershipTransfer). is_in all_time x.transferred_at) w.db.trade.transfers))
    ∙ ap
        (λ xs.
          any (λ p. is_sale_of b.batch_code (sale_row env w.db.accounts.buyers p))
            (with_batch b.cooperative_id w.db.trade.batches xs))
        (select-all_time w.db.trade.transfers)
    ∙ any-with_batch env w.db.accounts.buyers w.db.trade.batches b found w.db.trade.transfers (
        All-find? (SoldBy w.db.trade.transfers) (is_live b.id) w.db.trade.batches sound.sales found
          sold)
