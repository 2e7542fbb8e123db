-- ===== src/Custody/Moves.antt =====
-- The invariants across a call of `transitionBatchStatus`.
use coffee_traceability_back.Prelude.{
  ℕ, ◌≡◌, ◌≢◌, refl, sym, subst, true, [], ◌∷◌, List, All, All-update_where, update_where,
  Bool-cases, inl, inr, arith,
}
use coffee_traceability_back.Errors.{Result, ok, err}
use coffee_traceability_back.Schema.{BatchStatus, sold, in_storage, CoffeeBatch, Trade}
use coffee_traceability_back.World.{Env, World, Db}
use coffee_traceability_back.World.Keeps.{Keeps, IsOutside, outside}
use coffee_traceability_back.Notifications.Effects.{IsBlind, blind}
use coffee_traceability_back.Batches.{has_id, with_status, transition_batch_status}
use coffee_traceability_back.Batches.Transition.{Transitions, transition_batch_status_lem}
use coffee_traceability_back.Custody.{IsSound, AtLeast, InStorage, confirmed_for}
use coffee_traceability_back.Prelude.{any}
use coffee_traceability_back.Custody.Claims.{moved-IsSound}
use coffee_traceability_back.Custody.Rows.{All-of_live}

-- The coffee's tables are sound.
abbrev pub Sound : Db → Type 0
Sound d = IsSound d.trade

pub Sound-outside : IsOutside Sound
Sound-outside = outside IsSound

pub Sound-blind : IsBlind Sound
Sound-blind = blind Sound-outside

module _ (env : Env) (id : ℕ) (s : BatchStatus) (w : World) where
  Transitions-Sound :
      (r : Result BatchStatus) (w' : World)
      → Transitions env id s w (r, w')
      → (s ≡ sold → any (confirmed_for id) w.db.trade.transfers ≡ true)
      → Sound w.db
      → Sound w'.db
  Transitions-Sound (err e) w' same sale h = subst Sound (sym same) h
  Transitions-Sound (ok previous) w' (b, found, from, outcome) sale h = elim outcome [
    | inl (_, same) ↦ subst Sound (sym same) h
    | inr (edge, guard, changed) ↦ subst Sound (sym changed) (
        moved-IsSound id s (env.clock w.reads) w.db.trade b found (rw from at edge)
          (λ claims. ground (arith, guard)) sale h)
  ]

  -- A call keeps the invariants, if a move to SOLD follows the confirmation of a transfer.
  pub transition-Sound :
      (s ≡ sold → any (confirmed_for id) w.db.trade.transfers ≡ true)
      → Sound w.db
      → Sound (transition_batch_status env id s w).1.db
  transition-Sound sale h =
      let (r, w') = transition_batch_status env id s w in
      Transitions-Sound r w' (transition_batch_status_lem env id s w) sale h

module _ (env : Env) (id : ℕ) (s : BatchStatus) where
  pub transition-Keeps : s ≢ sold → Keeps Sound (transition_batch_status env id s)
  transition-Keeps other = record {
    at = λ w h. transition-Sound env id s w (λ e. absurd (other e)) h;
  }

all_with_status :
    (id : ℕ) (batches : List CoffeeBatch)
    → InStorage (update_where (has_id id) (with_status in_storage) batches) id
all_with_status id [] = tt
all_with_status id (b ∷ bs) = elim (Bool-cases (has_id id b)) [
  | inl e ↦ rw e ((λ _. refl), all_with_status id bs)
  | inr e ↦ rw e ((λ same. absurd (ground arith)), all_with_status id bs)
]

-- After a call that moved a batch to IN_STORAGE, all rows of its number have that status; nothing
-- but statuses has changed.
pub record Entered (id : ℕ) (t t' : Trade) : Type 0 where
  pub in_storage : InStorage t'.batches id
  pub same_inventory : t'.inventory ≡ t.inventory
  pub same_warehouses : t'.warehouses ≡ t.warehouses
  pub same_weights : (k : ℕ) → All (AtLeast id k) t.batches → All (AtLeast id k) t'.batches

pub Transitions-Entered :
    (env : Env) (id : ℕ) (w w' : World) (previous : BatchStatus)
    → Transitions env id in_storage w (ok previous, w')
    → Sound w.db
    → Entered id w.db.trade w'.db.trade
Transitions-Entered env id w w' previous (b, found, from, outcome) h = elim outcome [
  | inl (here, same) ↦
      subst (λ (d : Db). Entered id w.db.trade d.trade) (sym same)
        (record {
          in_storage =
              All-of_live (λ x. x.status ≡ in_storage) id w.db.trade.batches h.unique found
                (ground arith);
          same_inventory = refl;
          same_warehouses = refl;
          same_weights = λ k all. all;
        })
  | inr (edge, guard, changed) ↦
      subst (λ (d : Db). Entered id w.db.trade d.trade) (sym changed)
        (record {
          in_storage = all_with_status id w.db.trade.batches;
          same_inventory = refl;
          same_warehouses = refl;
          same_weights = λ k.
              All-update_where (AtLeast id k) (AtLeast id k) (has_id id) (with_status in_storage) _
                (λ x hit e. e) (λ x miss e. e);
        })
]
