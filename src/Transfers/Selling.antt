-- ===== src/Transfers/Selling.antt =====
-- The opening and the confirmation of a transfer, and the invariants of the coffee's tables.
use coffee_traceability_back.Prelude.{
  ℕ, ◌≡◌, sym, ap, subst, refl, true, some, List, [], ◌∷◌, All-imp, Bool-cases, inl, inr, any,
  find?, find?-passes, update_where, arith,
}
use coffee_traceability_back.Schema.{OwnershipTransfer, Trade, sold}
use coffee_traceability_back.World.{Env, World, modify_trade, pure, ◌>>◌}
use coffee_traceability_back.World.Keeps.{Keeps, Keeps-pure, keeps_rules}
use coffee_traceability_back.World.Ensures.{
  Ensures, Ensures-read, Ensures-found, Ensures-bind, Ensures-then,
}
use coffee_traceability_back.Ledger.Effects.{record_event-Keeps}
use coffee_traceability_back.Notifications.Effects.{
  notify_transfer_initiated-Keeps, notify_transfer_confirmed-Keeps,
}
use coffee_traceability_back.Audit.Effects.{record_audit_log-Keeps}
use coffee_traceability_back.Scope.{Caller}
use coffee_traceability_back.Scope.Effects.{
  require_user-Keeps, assert_ownership-Keeps, authorize-Keeps,
}
use coffee_traceability_back.Batches.{transition_batch_status}
use coffee_traceability_back.Custody.{IsSound, SoldBy, confirmed_for}
use coffee_traceability_back.Custody.Moves.{Sound, Sound-outside, Sound-blind, transition-Sound}
use coffee_traceability_back.Transfers.{
  TransferInput, ConfirmTransferResult, transfer_has_id, find_transfer, confirm_row,
  confirm_transfer_row, close_sale, confirm_transfer_in_tx, record_sale_event,
  record_transfer_confirmed_events, insert_transfer, initiate_handler, confirm_handler,
}

-- Other transfers of the same tables, with no confirmation lost.
resold-IsSound :
    (t : Trade) (transfers : List OwnershipTransfer)
    → ((k : ℕ) → any (confirmed_for k) t.transfers ≡ true → any (confirmed_for k) transfers ≡ true)
    → IsSound t
    → IsSound (record t { transfers = transfers })
resold-IsSound t transfers kept h = record {
  unique = h.unique;
  stored = h.stored;
  single = h.single;
  capacity = h.capacity;
  covered = h.covered;
  processed = h.processed;
  sales =
      All-imp (SoldBy t.transfers) (SoldBy transfers) t.batches
        (λ b old claims. kept b.id (old claims)) h.sales;
  totals = h.totals;
  unique_deliveries = h.unique_deliveries;
}

module _ (id now : ℕ) where
  confirmed-kept :
      (k : ℕ) (xs : List OwnershipTransfer)
      → any (confirmed_for k) xs ≡ true
      → any (confirmed_for k) (update_where (transfer_has_id id) (confirm_row now) xs) ≡ true
  confirmed-kept k [] h = h
  confirmed-kept k (x ∷ xs) h = elim (Bool-cases (transfer_has_id id x)) [
    | inl e ↦ rw e (ground (arith, confirmed-kept k xs))
    | inr e ↦ rw e (ground (arith, confirmed-kept k xs))
  ]

  -- The transfer that is confirmed counts as a sale of its batch.
  confirmed-now :
      (x : OwnershipTransfer) (xs : List OwnershipTransfer)
      → find? (transfer_has_id id) xs ≡ some x
      → any (confirmed_for x.batch_id) (update_where (transfer_has_id id) (confirm_row now) xs)
        ≡ true
  confirmed-now x [] e = cc
  confirmed-now x (y ∷ ys) e = elim (Bool-cases (transfer_has_id id y)) [
    | inl here ↦ (let same : y ≡ x = ground (arith, here) in rw here (ground (arith, same)))
    | inr there ↦ rw there (let rest = confirmed-now x ys (rw there at e) in ground (arith, rest))
  ]

module _ (env : Env) where
  -- The move to SOLD, from tables in which the sale is confirmed.
  sell-Ensures :
      (batch_id : ℕ) (t : Trade)
      → IsSound t
      → any (confirmed_for batch_id) t.transfers ≡ true
      → Ensures t IsSound (transition_batch_status env batch_id sold)
  sell-Ensures batch_id t h confirmed = record {
    at = λ w same.
        transition-Sound env batch_id sold w
          (λ _.
            subst (λ (u : Trade). any (confirmed_for batch_id) u.transfers ≡ true) (sym same)
              confirmed)
          (subst IsSound (sym same) h);
  }

  sell_and-Ensures :
      (batch_id now : ℕ) (t : Trade)
      → IsSound t
      → any (confirmed_for batch_id) t.transfers ≡ true
      → Ensures t IsSound (transition_batch_status env batch_id sold >> pure now)
  sell_and-Ensures batch_id now t h confirmed =
      Ensures-then (transition_batch_status env batch_id sold) (λ _. pure now)
        (sell-Ensures batch_id t h confirmed) (λ _. Keeps-pure now)

  module _ (t : Trade) (h : IsSound t) where
    close_sale-Ensures :
        (id : ℕ) (x : OwnershipTransfer)
        → find_transfer id t ≡ some x
        → Ensures t IsSound (close_sale env id x.batch_id)
    unfolding close_sale
    close_sale-Ensures id x found = record {
      at = λ w same.
          (sell_and-Ensures x.batch_id (env.clock w.reads)
              (confirm_transfer_row id (env.clock w.reads) t)
              (resold-IsSound t _ (λ k. confirmed-kept id (env.clock w.reads) k t.transfers) h)
              (confirmed-now id (env.clock w.reads) x t.transfers found)).at
            _ (ap (confirm_transfer_row id (env.clock w.reads)) same);
    }

    close_own-Ensures :
        (id : ℕ) (x : OwnershipTransfer)
        → find_transfer id t ≡ some x
        → Ensures t IsSound (close_sale env x.id x.batch_id)
    close_own-Ensures id x found =
        let number : x.id ≡ id =
          ground (arith, find?-passes (transfer_has_id id) t.transfers found) in
        subst (λ k. Ensures t IsSound (close_sale env k x.batch_id)) (sym number)
          (close_sale-Ensures id x found)

    confirm_transfer_in_tx-Ensures : (id : ℕ) → Ensures t IsSound (confirm_transfer_in_tx env id)
    unfolding confirm_transfer_in_tx
    confirm_transfer_in_tx-Ensures id =
        search
          (
            Ensures-read, Ensures-found, Ensures-then, close_own-Ensures, Ensures-bind, h,
            keeps_rules,
          )
          depth 12

  pub confirm_transfer_in_tx-Keeps : (id : ℕ) → Keeps Sound (confirm_transfer_in_tx env id)
  confirm_transfer_in_tx-Keeps id = record {
    at = λ w h. (confirm_transfer_in_tx-Ensures w.db.trade h id).at w refl;
  }

  pub record_transfer_confirmed_events-Keeps :
      (result : ConfirmTransferResult) → Keeps Sound (record_transfer_confirmed_events env result)
  unfolding record_transfer_confirmed_events record_sale_event
  record_transfer_confirmed_events-Keeps result =
      search (keeps_rules, record_event-Keeps, Sound-outside) depth 12

  insert-Keeps :
      (row : OwnershipTransfer)
      → Keeps Sound (modify_trade (λ t. record t { transfers = row ∷ t.transfers }))
  insert-Keeps row = record {
    at = λ w h.
        resold-IsSound w.db.trade (row ∷ w.db.trade.transfers) (λ k old. ground (arith, old)) h;
  }

  pub insert_transfer-Keeps :
      (body : TransferInput) (user_id : ℕ) → Keeps Sound (insert_transfer env body user_id)
  unfolding insert_transfer
  insert_transfer-Keeps body user_id = search (keeps_rules, insert-Keeps) depth 8

  initiate_handler-Keeps :
      (caller : Caller) (body : TransferInput) → Keeps Sound (initiate_handler env caller body)
  unfolding initiate_handler
  initiate_handler-Keeps caller body =
      search
        (
          keeps_rules, authorize-Keeps, assert_ownership-Keeps, require_user-Keeps,
          insert_transfer-Keeps, notify_transfer_initiated-Keeps, record_audit_log-Keeps,
          Sound-outside, Sound-blind,
        )
        depth 20

  confirm_handler-Keeps : (caller : Caller) (id : ℕ) → Keeps Sound (confirm_handler env caller id)
  unfolding confirm_handler
  confirm_handler-Keeps caller id =
      search
        (
          keeps_rules, authorize-Keeps, assert_ownership-Keeps, require_user-Keeps,
          confirm_transfer_in_tx-Keeps, record_transfer_confirmed_events-Keeps,
          notify_transfer_confirmed-Keeps, record_audit_log-Keeps, Sound-outside, Sound-blind,
        )
        depth 24

-- The opening of a sale keeps the coffee's tables sound, however it ends.
pub initiate_handler-Sound :
    (env : Env) (caller : Caller) (body : TransferInput) (w : World)
    → Sound w.db
    → Sound (initiate_handler env caller body w).1.db
initiate_handler-Sound env caller body w = (initiate_handler-Keeps env caller body).at w

-- The confirmation of a sale keeps the coffee's tables sound, however it ends.
pub confirm_handler-Sound :
    (env : Env) (caller : Caller) (id : ℕ) (w : World)
    → Sound w.db
    → Sound (confirm_handler env caller id w).1.db
confirm_handler-Sound env caller id w = (confirm_handler-Keeps env caller id).at w
