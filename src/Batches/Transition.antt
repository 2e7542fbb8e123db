-- ===== src/Batches/Transition.antt =====
-- What `transitionBatchStatus` has done, by how it ended.
use coffee_traceability_back.Prelude.{
  ℕ, ◌≡◌, refl, ◌⊎◌, inl, inr, true, false, not, ◌&&◌, some, Bool-cases, Option-cases,
  if◌then◌else◌,
}
use coffee_traceability_back.Errors.{Result, ok, err}
use coffee_traceability_back.Schema.{
  BatchStatus, same_status, includes, CoffeeBatch, Trade, eq_of_same_status, same_status_refl,
}
use coffee_traceability_back.World.{Env, World}
use coffee_traceability_back.Batches.{
  allowed_transitions, find_live, has_record, set_status, close_rows, claims_processing,
  leaves_storage, close_inventory, move_status, transition_batch_status,
}

-- The tables after the move of a batch to a status.
abbrev pub moved : ℕ → BatchStatus → ℕ → Trade → Trade
moved id s now t =
    let t' = set_status id s t in if leaves_storage s then close_rows id now t' else t'

abbrev pub Edge : BatchStatus → BatchStatus → Type 0
Edge s t = includes t (allowed_transitions s) ≡ true

-- A failed call has written nothing. One that returns has found the live batch and returns its
-- status; it writes nothing where that is the target, and otherwise follows an edge.
abbrev pub Transitions : Env → ℕ → BatchStatus → World → Result BatchStatus × World → Type 0
Transitions env id s w (err e, w') = w'.db ≡ w.db
Transitions env id s w (ok previous, w') =
    (b : CoffeeBatch) × (find_live id w.db.trade ≡ some b)
    × (previous ≡ b.status)
    × (((previous ≡ s) × (w'.db ≡ w.db))
        ⊎ (Edge previous s
            × (claims_processing s && not (has_record id w.db.trade) ≡ false)
            × (w'.db ≡ record w.db { trade = moved id s (env.clock w.reads) w.db.trade })))

module _ (env : Env) (id : ℕ) (s : BatchStatus) (w : World) where
  move_status_lem :
      (b : CoffeeBatch)
      → find_live id w.db.trade ≡ some b
      → Transitions env id s w (move_status env b id s w)
  unfolding move_status close_inventory
  move_status_lem b e = elim (Bool-cases (includes s (allowed_transitions b.status))) [
    | inr refused ↦ rw refused refl
    | inl edge ↦
        rw edge (elim (Bool-cases (claims_processing s && not (has_record id w.db.trade))) [
          | inl missing ↦ rw missing refl
          | inr covered ↦ rw covered (elim (Bool-cases (leaves_storage s)) [
            | inl leaves ↦ rw leaves (b, e, refl, inr (edge, covered, rw leaves))
            | inr stays ↦ rw stays (b, e, refl, inr (edge, covered, rw stays))
          ])
        ])
  ]

  -- A call of `transitionBatchStatus` for any batch and status: if it throws, it has written nothing; if
  -- it returns, it has found the live batch and returns its status, and either that is the target and
  -- nothing is written, or it is an allowed edge, a processing record backs the processing states, and
  -- the batch has the target status, with its open inventory rows closed where it leaves storage.
  pub transition_batch_status_lem : Transitions env id s w (transition_batch_status env id s w)
  unfolding transition_batch_status
  transition_batch_status_lem = elim (Option-cases (find_live id w.db.trade)) [
    | inl missing ↦ rw missing refl
    | inr (b, e) ↦ rw e (elim (Bool-cases (same_status b.status s)) [
      | inl same ↦ rw same (b, e, refl, inl (eq_of_same_status b.status s same, refl))
      | inr other ↦ rw other (move_status_lem b e)
    ])
  ]

-- For a live batch that has the status already, the call returns it and writes nothing.
pub transition-again :
    (env : Env) (id : ℕ) (s : BatchStatus) (w : World) (b : CoffeeBatch)
    → find_live id w.db.trade ≡ some b
    → b.status ≡ s
    → transition_batch_status env id s w ≡ (ok s, w)
unfolding transition_batch_status
transition-again env id s w b found here = rw (found, here, same_status_refl s) refl
