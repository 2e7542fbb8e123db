-- ===== src/Batches/Lifecycle.antt =====
-- The state machine of a batch, over any number of moves.
use coffee_traceability_back.Prelude.{
  ◌≡◌, ◌⊎◌, inl, inr, refl, arith, sym, ◌∙◌, Bool, not, true, false, [], ◌∷◌,
}
use coffee_traceability_back.Schema.{
  BatchStatus, registered, in_processing, processed, in_storage, sold, exported, includes,
}
use coffee_traceability_back.Batches.Transition.{Edge}

-- The statuses that a batch goes through from `s` to `t`, by edges of the table of allowed moves.
pub data Course (s : BatchStatus) : BatchStatus → Type 0 where
  start : Course s s
  move : {t u : BatchStatus} → Course s t → Edge t u → Course s u

-- `v` is on the course.
pub Visits : {s t : BatchStatus} → BatchStatus → Course s t → Type 0
Visits {s} v start = v ≡ s
Visits {s} {t} v (move c e) = (v ≡ t) ⊎ Visits v c

-- A set of statuses that an edge enters at `v` only is entered through `v`.
entered_at :
    (v : BatchStatus) (inside : BatchStatus → Bool)
    → ((t u : BatchStatus) → Edge t u → inside u ≡ true → (v ≡ u) ⊎ (inside t ≡ true))
    → {s t : BatchStatus} (c : Course s t) → inside s ≡ false
    → inside t ≡ true
    → Visits v c
unfolding Visits
entered_at v inside gate start out at = absurd (cc (sym out ∙ at))
entered_at v inside gate (move {t} {u} c e) out at = elim (gate t u e at) [
  | inl here ↦ inl here
  | inr before ↦ inr (entered_at v inside gate c out before)
]

-- A batch that ends up EXPORTED has been, on its way from REGISTERED, in processing, processed, stored
-- and sold, whatever other moves it has made.
pub exported-Visits :
    (c : Course registered exported)
    → Visits in_processing c × Visits processed c × Visits in_storage c × Visits sold c
exported-Visits c = (
  entered_at in_processing (λ s. not (includes s (registered ∷ BatchStatus.rejected ∷ [])))
      (λ t u e at. ground arith) c refl refl,
  entered_at processed
      (λ s. not (includes s (registered ∷ in_processing ∷ BatchStatus.rejected ∷ [])))
      (λ t u e at. ground arith) c refl refl,
  entered_at in_storage
      (λ s. not (includes s (registered ∷ in_processing ∷ processed ∷ BatchStatus.rejected ∷ [])))
      (λ t u e at. ground arith) c refl refl,
  entered_at sold (λ s. includes s (sold ∷ exported ∷ [])) (λ t u e at. ground arith) c refl refl,
)
