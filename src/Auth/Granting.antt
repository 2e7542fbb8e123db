-- ===== src/Auth/Granting.antt =====
-- Who may register whom (`register`).
use coffee_traceability_back.Prelude.{
  ◌≡◌, refl, Bool, true, false, not, ◌&&◌, some, List, [], ◌∷◌, inl, inr, Bool-cases, is_some,
  select, arith, find?,
}
use coffee_traceability_back.Schema.{
  User, UserRole, super_admin, cooperative_admin, buyer, auditor, same_role, includes_role, create,
  user_entity,
}
use coffee_traceability_back.World.{Env, M, pure, ◌>>◌}
use coffee_traceability_back.World.Keeps.{Keeps, Keeps-bind, keeps_rules}
use coffee_traceability_back.World.Returns.{Returns, Returns-bind, Returns-any}
use coffee_traceability_back.Scope.{Caller, AuthUser, is_super, require_user}
use coffee_traceability_back.Audit.{record_audit_log}
use coffee_traceability_back.Audit.Effects.{record_audit-Keeps}
use coffee_traceability_back.Credentials.{Crypto, hash_password}
use coffee_traceability_back.Credentials.Effects.{hash_password-Keeps}
use coffee_traceability_back.Accounts.{has_email, UserData, create_user, violates}
use coffee_traceability_back.Accounts.Effects.{OfUsers, OfUsers-unlogged, create_user-Keeps}
use coffee_traceability_back.Auth.{
  stored_phone, RegisterInput, register, register_handler, grantable_roles, cooperative_for,
}

-- The roles that administer.
abbrev pub is_privileged : User → Bool
is_privileged u = includes_role u.role (super_admin ∷ cooperative_admin ∷ auditor ∷ [])

-- The rows of administrators and auditors are these.
abbrev pub ArePrivileged : List User → List User → Type 0
ArePrivileged rows users = select is_privileged users ≡ rows

grantable_below :
    (actor role : UserRole)
    → same_role actor super_admin ≡ false
    → includes_role role (grantable_roles actor) ≡ true
    → (includes_role role (super_admin ∷ cooperative_admin ∷ auditor ∷ []) ≡ false)
      × (same_role actor cooperative_admin ≡ true)
grantable_below actor role below may = ground arith

-- What a caller who is no SUPER_ADMIN gets.
pub record IsEnrolled (actor : AuthUser) (input : RegisterInput) (u : User) : Type 0 where
  pub by_admin : same_role actor.role cooperative_admin ≡ true
  pub role : u.role ≡ input.role
  pub unprivileged : is_privileged u ≡ false
  pub member : u.cooperative_id ≡ actor.cooperative_id

pub create_user-privileged :
    (env : Env) (rows : List User) (data_ : UserData)
    → includes_role data_.role (super_admin ∷ cooperative_admin ∷ auditor ∷ []) ≡ false
    → Keeps (OfUsers (ArePrivileged rows)) (create_user env data_)
create_user-privileged env rows data_ below =
    create_user-Keeps env data_ λ users id now free h. rw below h

module _ (env : Env) (crypto : Crypto) (input : RegisterInput) where
  register-IsEnrolled :
      (actor : AuthUser)
      → is_super actor ≡ false
      → Returns (IsEnrolled actor input) (register env crypto input actor)
  unfolding register hash_password create_user
  register-IsEnrolled actor below = record {
    at = λ w.
        let c = cooperative_for input actor in
        let email_user = find? (has_email input.email) w.db.accounts.users in
        elim (Bool-cases (includes_role input.role (grantable_roles actor.role))) [
          | inr may_not ↦ rw may_not tt
          | inl may ↦ elim (Bool-cases (not (is_some c) && not (same_role input.role buyer))) [
            | inl missing ↦ rw (may, missing) tt
            | inr scoped ↦ elim (Bool-cases (is_some email_user)) [
              | inl taken ↦ rw (may, scoped, taken) tt
              | inr free ↦
                  elim (Bool-cases (
                    violates (some input.email) (stored_phone input.phone_number)
                      w.db.accounts.users)) [
                        | inl clash ↦ rw (may, scoped, free, clash) tt
                        | inr new ↦
                            (let (unprivileged, admin) =
                                grantable_below actor.role input.role below may in
                              rw (may, scoped, free, new)
                                (record {
                                  by_admin = admin;
                                  role = refl;
                                  unprivileged = unprivileged;
                                  member = rw below refl;
                                }))
                      ]
            ]
          ]
        ];
  }

  register-privileged :
      (rows : List User) (actor : AuthUser)
      → is_super actor ≡ false
      → Keeps (OfUsers (ArePrivileged rows)) (register env crypto input actor)
  unfolding register
  register-privileged rows actor below =
      elim (Bool-cases (includes_role input.role (grantable_roles actor.role))) [
        | inr may_not ↦ record { at = λ w h. rw may_not h }
        | inl may ↦
            (let (unprivileged, admin) = grantable_below actor.role input.role below may in
              search (keeps_rules, hash_password-Keeps, create_user-privileged, unprivileged) depth
                14)
      ]

  -- What the handler does behind the registration.
  abbrev log_user : Caller → User → M User
  log_user caller user = record_audit_log caller create user_entity user.id >> pure user

  -- A caller who is no SUPER_ADMIN registers accounts only as a COOPERATIVE_ADMIN, only of staff,
  -- farmers and buyers, and only in their own cooperative, whatever the request asks for; the rows of
  -- administrators and auditors stay as they were.
  pub register_handler-IsEnrolled :
      (caller : Caller) (actor : AuthUser) (rows : List User)
      → caller.user ≡ some actor
      → is_super actor ≡ false
      → Returns (IsEnrolled actor input) (register_handler env crypto caller input)
        × Keeps (OfUsers (ArePrivileged rows)) (register_handler env crypto caller input)
  unfolding register_handler require_user
  register_handler-IsEnrolled caller actor rows known below =
      let signed : Caller = record { user = some actor; farmer_id = caller.farmer_id } in
      rw known (
        Returns-bind (register env crypto input actor) (log_user signed)
            (register-IsEnrolled actor below)
            (λ u enrolled.
              Returns-bind (record_audit_log signed create user_entity u.id) (λ _. pure u)
                (Returns-any _) λ _ _. record { at = λ w. enrolled }),
        Keeps-bind (register env crypto input actor) (log_user signed)
            (register-privileged rows actor below)
            (λ u. search (keeps_rules, record_audit-Keeps, OfUsers-unlogged) depth 8),
      )
