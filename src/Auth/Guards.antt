-- ===== src/Auth/Guards.antt =====
-- The guards of a protected route (`protect`).
use coffee_traceability_back.Prelude.{
  ℕ, suc, ◌≡◌, refl, false, not, ◌&&◌, Option, some, inl, inr, Bool-cases, Option-cases,
}
use coffee_traceability_back.Schema.{Text}
use coffee_traceability_back.Errors.{Result, ok, err}
use coffee_traceability_back.World.{Env, World, ◌>>◌, continue, pure}
use coffee_traceability_back.World.Returns.{IfOk}
use coffee_traceability_back.Scope.{Caller}
use coffee_traceability_back.System.{maintenance_gate}
use coffee_traceability_back.Credentials.{Crypto, AccessClaims, verify_access_token}
use coffee_traceability_back.Auth.Middleware.{
  Method, authenticate, require_password_changed, is_allowed_pending, is_pending_password, protect,
  user_of, bearer_token, profile_for,
}

-- A request that passes the guards: its token is genuine, its caller is the one of the token, and a
-- caller on a temporary password is at one of the allowed routes.
pub record IsAdmitted (crypto : Crypto) (header : Option Text) (method : Method) (url : Text)
    (now : ℕ) (caller : Caller) : Type 0 where
  pub token : Text
  pub claims : AccessClaims
  pub sent : bearer_token header ≡ some token
  pub genuine : crypto.verify_access token now ≡ some claims
  pub known : caller.user ≡ some (user_of claims)
  pub settled : (claims.must_change_password && not (is_allowed_pending method url)) ≡ false

module _ (env : Env) (crypto : Crypto) (header : Option Text) (method : Method) (url : Text) where
  behind_gate :
      (r : Result (Unit {0})) (caller : Caller) (w : World) (Q : Caller → Type 0)
      → (is_pending_password caller && not (is_allowed_pending method url) ≡ false → Q caller)
      → IfOk Q (continue r (λ _. require_password_changed caller method url >> pure caller) w).0
  unfolding require_password_changed
  behind_gate (err e) caller w Q k = tt
  behind_gate (ok x) caller w Q k =
      elim (Bool-cases (is_pending_password caller && not (is_allowed_pending method url))) [
        | inl held ↦ rw held tt
        | inr free ↦ rw free (k free)
      ]

  -- A request that the guards of a protected route admit carries a token that is genuine at the
  -- clock's reading, and its caller is the subject of the token; a caller who is on a temporary
  -- password is admitted only to the routes of the allow-list.
  pub protect-IsAdmitted :
      (w : World)
      → IfOk
          (IsAdmitted crypto header method url (env.clock w.reads))
          (protect env crypto header method url w).0
  unfolding protect authenticate verify_access_token
  protect-IsAdmitted w = elim (Option-cases (bearer_token header)) [
    | inl malformed ↦ rw malformed tt
    | inr (token, sent) ↦ elim (Option-cases (crypto.verify_access token (env.clock w.reads))) [
      | inl forged ↦ rw (sent, forged) tt
      | inr (claims, genuine) ↦
          (let caller : Caller = record {
            user = some (user_of claims);
            farmer_id = profile_for claims w.db.accounts;
          } in
            let (r, w') = maintenance_gate env caller (record w { reads = suc w.reads }) in
            rw (sent, genuine)
              (behind_gate r caller w' _ λ settled. record {
                token = token;
                claims = claims;
                sent = sent;
                genuine = genuine;
                known = refl;
                settled = settled;
              }))
    ]
  ]
