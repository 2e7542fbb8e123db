-- ===== src/Scope/Isolation.antt =====
-- `assertOwnership` for a caller of another cooperative, `scopeCooperativeId` for a member, and
-- `farmerScopeId` for a farmer.
use coffee_traceability_back.Prelude.{ℕ, ◌≡◌, refl, Option, some, false}
use coffee_traceability_back.Errors.{err, forbidden, other_cooperative}
use coffee_traceability_back.Schema.{Trade, farmer}
use coffee_traceability_back.World.{World, M, ◌>>=◌}
use coffee_traceability_back.World.Ensures.{Ensures, Ensures-read, Ensures-found, Ensures-bind}
use coffee_traceability_back.Scope.Effects.{
  require_permission-Keeps, authorize-Keeps, assert_ownership-Keeps, require_user-Keeps,
}
use coffee_traceability_back.World.Returns.{Returns}
use coffee_traceability_back.Scope.{
  AuthUser, Caller, is_super, may_touch, scope_cooperative_id, require_user, assert_ownership,
  farmer_scope_id, profile_of,
}

-- The caller is signed in, and may not touch records of the cooperative.
abbrev pub IsForeign : Caller → ℕ → Type 0
IsForeign caller cooperative_id =
    (u : AuthUser) × (caller.user ≡ some u) × (may_touch u (some cooperative_id) ≡ false)

-- The caller is signed in as a member of the cooperative, and no SUPER_ADMIN.
abbrev pub IsMember : Caller → ℕ → Type 0
IsMember caller cooperative_id =
    (u : AuthUser) × (caller.user ≡ some u)
    × (is_super u ≡ false)
    × (u.cooperative_id ≡ some cooperative_id)

-- The coffee's tables are what they were.
abbrev pub Same : Trade → Trade → Type 0
Same t t' = t' ≡ t

module _ (caller : Caller) (cooperative_id : ℕ) (foreign : IsForeign caller cooperative_id) where
  pub refused :
      (w : World)
      → assert_ownership caller (some cooperative_id) w ≡ (err (forbidden other_cooperative), w)
  unfolding assert_ownership require_user
  refused w = rw (foreign.1, foreign.2) refl

  pub Ensures-foreign {ℓ} :
      {B : Type ℓ} (t : Trade) (f : Unit {0} → M B)
      → Ensures t (Same t) (assert_ownership caller (some cooperative_id) >>= f)
  Ensures-foreign t f = record { at = λ w same. rw (refused w) same }

-- The filter of a member's list is their cooperative, whatever they asked for.
pub scope_cooperative_id-Returns :
    (caller : Caller) (cooperative_id : ℕ) (requested : Option ℕ)
    → IsMember caller cooperative_id
    → Returns (λ scope. scope ≡ some cooperative_id) (scope_cooperative_id caller requested)
unfolding scope_cooperative_id require_user
scope_cooperative_id-Returns caller cooperative_id requested member = record {
  at = λ w. rw (member.1, member.2, member.3) refl;
}

-- The caller is signed in as the farmer.
abbrev pub IsFarmer : Caller → ℕ → Type 0
IsFarmer caller f =
    (u : AuthUser) × (caller.user ≡ some u) × (u.role ≡ farmer) × (caller.farmer_id ≡ some f)

pub farmer_scope_id-Returns :
    (caller : Caller) (f : ℕ)
    → IsFarmer caller f
    → Returns (λ own. own ≡ some f) (farmer_scope_id caller)
unfolding farmer_scope_id require_user profile_of
farmer_scope_id-Returns caller f own = record { at = λ w. rw (own.1, own.2, own.3) refl }

pub ruleset isolation_rules = (
  Ensures-foreign, Ensures-read, Ensures-found, Ensures-bind, require_permission-Keeps,
  authorize-Keeps, assert_ownership-Keeps, require_user-Keeps,
)
