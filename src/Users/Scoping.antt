-- ===== src/Users/Scoping.antt =====
-- Who may change the status and the access of a user (`assertUserInScope`).
use coffee_traceability_back.Prelude.{ℕ, ◌≡◌, refl, Bool, false, some, find?}
use coffee_traceability_back.Schema.{User, UserStatus}
use coffee_traceability_back.Errors.{Result, ok, err}
use coffee_traceability_back.World.{Env, World, M, continue, ◌>>=◌}
use coffee_traceability_back.World.Keeps.{Keeps}
use coffee_traceability_back.Scope.{Caller, AuthUser, is_super, require_user, require_permission}
use coffee_traceability_back.Scope.Effects.{require_permission-Keeps}
use coffee_traceability_back.Users.{
  is_live_user, is_colleague, assert_target, assert_user_in_scope, update_status_handler,
  maintenance_access_handler,
}

-- The request is refused, and the database is what it was.
abbrev pub IsRefused {ℓ} : {A : Type ℓ} → World → Result A × World → Type 0
IsRefused w (ok a, w') = ⊥
IsRefused w (err e, w') = w'.db ≡ w.db

module _ {ℓ} {B : Type ℓ} where
  IsRefused-after :
      (r : Result (Unit {0})) (f : Unit {0} → M B) (w w' : World)
      → w'.db ≡ w.db
      → ((x : Unit {0}) (v : World) → v.db ≡ w.db → IsRefused w (f x v))
      → IsRefused w (continue r f w')
  IsRefused-after (ok x) f w w' same k = k x w' same
  IsRefused-after (err e) f w w' same k = same

  -- A check that writes nothing, and behind it a step that refuses.
  IsRefused-behind :
      (m : M (Unit {0})) (f : Unit {0} → M B) (w : World)
      → Keeps (λ d. d ≡ w.db) m
      → ((x : Unit {0}) (v : World) → v.db ≡ w.db → IsRefused w (f x v))
      → IsRefused w ((m >>= f) w)
  IsRefused-behind m f w k rest = let (r, w') = m w in IsRefused-after r f w w' (k.at w refl) rest

module _ (env : Env) (caller : Caller) (actor : AuthUser) (id : ℕ) (target : User) (w : World)
    (known : caller.user ≡ some actor) (plain : is_super actor ≡ false)
    (found : find? (is_live_user id) w.db.accounts.users ≡ some target)
    (foreign : is_colleague target.cooperative_id actor.cooperative_id ≡ false) where
  status-IsRefused :
      (status : UserStatus) → IsRefused w (update_status_handler env caller id status w)
  unfolding update_status_handler assert_user_in_scope assert_target require_user
  status-IsRefused status =
      IsRefused-behind (require_permission env _ caller) _ w (require_permission-Keeps env _ caller)
        λ x v same. rw (known, plain, same, found, foreign) refl

  access-IsRefused :
      (allowed : Bool) → IsRefused w (maintenance_access_handler env caller id allowed w)
  unfolding maintenance_access_handler assert_user_in_scope assert_target require_user
  access-IsRefused allowed =
      IsRefused-behind (require_permission env _ caller) _ w (require_permission-Keeps env _ caller)
        λ x v same. rw (known, plain, same, found, foreign) refl

  -- A caller who is no SUPER_ADMIN changes neither the status nor the maintenance access of a user of
  -- another cooperative or of none (a SUPER_ADMIN, say): the requests are refused, and the database
  -- stays as it was.
  pub handlers-IsRefused :
      (status : UserStatus) (allowed : Bool)
      → IsRefused w (update_status_handler env caller id status w)
        × IsRefused w (maintenance_access_handler env caller id allowed w)
  handlers-IsRefused status allowed = (status-IsRefused status, access-IsRefused allowed)
