-- ===== src/Buyers/Creating.antt =====
-- How many buyers a member of the staff can register.
use coffee_traceability_back.Prelude.{
  ℕ, ◌≡◌, some, true, any, same_option, sym, ap, refl, arith, Bool-cases, inl, inr,
}
use coffee_traceability_back.Errors.{ok, err, unique_violation}
use coffee_traceability_back.Schema.{Buyer, includes_role}
use coffee_traceability_back.World.{Env, World, safely}
use coffee_traceability_back.Scope.{AuthUser, Caller, authorize, require_user, staff_roles}
use coffee_traceability_back.Audit.{record_audit_log, record_audit_entry}
use coffee_traceability_back.Buyers.{BuyerData, has_login, insert_buyer, create_handler}

same_option_refl : (n : ℕ) → same_option (some n) (some n) ≡ true
same_option_refl n = ground arith

-- The staff member who has registered one buyer cannot register another: the new row would have their
-- login too. The request is refused with a violated constraint, and nothing is written.
pub create_handler-Refused :
    (env : Env) (caller : Caller) (u : AuthUser) (first second : BuyerData) (w w' : World)
    (row : Buyer)
    → caller.user ≡ some u
    → create_handler env caller first w ≡ (ok row, w')
    → create_handler env caller second w' ≡ (err unique_violation, w')
unfolding create_handler insert_buyer authorize require_user record_audit_log record_audit_entry
    safely
create_handler-Refused env caller u first second w w' row signed created =
    elim (Bool-cases (includes_role u.role staff_roles)) [
      | inr outside ↦ ground (arith, signed, outside, created)
      | inl inside ↦ (elim (Bool-cases (any (has_login u.id) w.db.accounts.buyers)) [
        | inl taken ↦ ground (arith, signed, inside, taken, created)
        | inr free ↦
            (let same : w' ≡ (create_handler env caller first w).1 = sym (ap (λ r. r.1) created) in
              let taken' : any (has_login u.id) w'.db.accounts.buyers ≡ true =
                rw (same, signed, inside, free) (ground (arith, same_option_refl u.id)) in
              rw (signed, inside, taken') refl)
      ])
    ]
