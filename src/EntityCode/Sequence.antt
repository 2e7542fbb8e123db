-- ===== src/EntityCode/Sequence.antt =====
-- The counters behind the codes of deliveries, batches and lots.
use coffee_traceability_back.Prelude.{
  ℕ, ◌+◌, ◌≡◌, refl, sym, subst, false, some, List, [], ◌∷◌, Bool-cases, inl, inr, or_else, arith,
}
use coffee_traceability_back.Errors.{ok}
use coffee_traceability_back.Schema.{Text}
use coffee_traceability_back.Texts.{same_text, same_text_refl, eq_of_same_text}
use coffee_traceability_back.World.{World}
use coffee_traceability_back.EntityCode.{counter_of, set_counter, next_value}

module _ (scope : Text) (n : ℕ) where
  counter_of-set_counter :
      (cs : List (Text × ℕ)) → counter_of scope (set_counter scope n cs) ≡ some n
  counter_of-set_counter [] = rw (same_text_refl scope) refl
  counter_of-set_counter (c ∷ cs) = elim (Bool-cases (same_text c.0 scope)) [
    | inl here ↦ rw (here, same_text_refl scope) refl
    | inr there ↦ rw (there, there) (counter_of-set_counter cs)
  ]

  counter_of-set_other :
      (other : Text) (cs : List (Text × ℕ))
      → same_text scope other ≡ false
      → counter_of other (set_counter scope n cs) ≡ counter_of other cs
  counter_of-set_other other [] apart = rw apart refl
  counter_of-set_other other (c ∷ cs) apart = elim (Bool-cases (same_text c.0 scope)) [
    | inl here ↦
        (let away : same_text c.0 other ≡ false =
            subst (λ s. same_text s other ≡ false) (sym (eq_of_same_text c.0 scope here)) apart in
          rw (here, apart, away) refl)
    | inr there ↦ rw there (ground (arith, counter_of-set_other other cs apart))
  ]

-- The number that a scope draws next is one higher than the one it drew before, also where another
-- scope has drawn in between.
pub next_value-next_value :
    (scope other : Text) (n : ℕ) (w : World)
    → same_text other scope ≡ false
    → (next_value scope w).0 ≡ ok n
    → (next_value scope (next_value other (next_value scope w).1).1).0 ≡ ok (n + 1)
unfolding next_value
next_value-next_value scope other n w apart drawn =
    let first = or_else (counter_of scope w.db.counters) 0 + 1 in
    let after = set_counter scope first w.db.counters in
    let second = or_else (counter_of other after) 0 + 1 in
    let kept = counter_of-set_other other second scope after apart in
    let mine = counter_of-set_counter scope first w.db.counters in rw (kept, mine) cc
