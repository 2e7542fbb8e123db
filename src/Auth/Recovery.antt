-- ===== src/Auth/Recovery.antt =====
-- A login after the lock is over (`login`).
use coffee_traceability_back.Prelude.{
  ℕ, suc, ◌≡◌, refl, sym, subst, true, false, ◌||◌, ltb, Option, none, some, find?, inl, inr,
  Bool-cases, Option-cases, ==_iff, find?-passes, arith,
}
use coffee_traceability_back.Schema.{Text, User, super_admin, same_role}
use coffee_traceability_back.Errors.{Result, ok, err}
use coffee_traceability_back.World.{Env, World, SystemStatus, ◌>>◌}
use coffee_traceability_back.Credentials.{Crypto, sign_access_token, sign_refresh_token}
use coffee_traceability_back.Accounts.{has_id}
use coffee_traceability_back.Accounts.Lookup.{KeepsKeys}
use coffee_traceability_back.System.{get_status}
use coffee_traceability_back.System.Effects.{get_status-Keeps}
use coffee_traceability_back.Auth.{
  Session, signed_in, may_sign_in, is_future, refuse_expired, refuse_under_maintenance,
  open_session, login_to, login,
}
use coffee_traceability_back.Auth.Lockout.{login-named}
use coffee_traceability_back.Auth.Naming.{
  account_of, rewritten, account_by-IsThere, update_user_lem,
}
use coffee_traceability_back.Auth.Rotation.{row-rewritten}

signed_in-KeepsKeys : (now : ℕ) (hash : Text) → KeepsKeys (signed_in now hash)
signed_in-KeepsKeys now hash = record {
  id = λ u. refl;
  email = λ u. refl;
  phone_number = λ u. refl;
}

module _ (env : Env) (crypto : Crypto) where
  -- The session is open: the account's row is unlocked, and has the hash of the token of the answer.
  abbrev pub IsSignedIn : User → Result Session × World → Type 0
  IsSignedIn u (err e, w') = ⊥
  IsSignedIn u (ok s, w') =
      (v : User) × (find? (has_id u.id) w'.db.accounts.users ≡ some v)
      × (v.failed_login_count ≡ 0)
      × (v.locked_until ≡ none)
      × (v.refresh_token_hash ≡ some (env.sha256 s.refresh_token))

  open_session-IsSignedIn :
      (u v : User) (w : World)
      → find? (has_id u.id) w.db.accounts.users ≡ some v
      → v.id ≡ u.id
      → IsSignedIn u (open_session env crypto u w)
  unfolding open_session sign_access_token sign_refresh_token
  open_session-IsSignedIn u v w row same =
      let token = crypto.sign_refresh u.id (env.uuid w.drawn) (env.clock (suc w.reads)) in
      let f = signed_in (env.clock (suc (suc w.reads))) (env.sha256 token) in
      let w2 : World = record w { reads = suc (suc (suc w.reads)); drawn = suc w.drawn } in
      rw (update_user_lem u.id f w2 v row) (
        f v,
        subst (λ k. find? (has_id u.id) (rewritten k f w.db.accounts).users ≡ some (f v)) same
            (row-rewritten u.id f (signed_in-KeepsKeys _ _) w.db.accounts v row),
        refl,
        refl,
        refl,
      )

  past_maintenance :
      (u : User) (w : World) (s : SystemStatus) (Q : Result Session × World → Type 0)
      → (get_status env w).0 ≡ ok s
      → s.maintenance_mode ≡ false
      → ((w' : World) → w'.db ≡ w.db → Q (open_session env crypto u w'))
      → Q ((refuse_under_maintenance env u >> open_session env crypto u) w)
  unfolding refuse_under_maintenance
  past_maintenance u w s Q status off k =
      elim (Bool-cases (same_role u.role super_admin || u.maintenance_allowed)) [
        | inl spared ↦ rw spared (k w refl)
        | inr held ↦
            rw (held, status, off)
              (k (get_status env w).1 ((get_status-Keeps env {P = λ d. d ≡ w.db}).at w refl))
      ]

  -- The account is not deleted, its status admits a sign-in (a suspended one does not), it is not under
  -- a temporary password, its lock is over or was never set, and the maintenance switch, read behind
  -- the lock, is off. Then a login with the right password opens a session, which unlocks the account
  -- and clears its count of failures.
  pub login-IsSignedIn :
      (identifier password : Text) (w : World) (u : User) (s : SystemStatus)
      → account_of identifier w.db.accounts ≡ some u
      → u.is_deleted ≡ false
      → (is_future env u.locked_until w).0 ≡ ok false
      → may_sign_in u.status ≡ true
      → u.must_change_password ≡ false
      → crypto.compare password u.password_hash ≡ true
      → (get_status env (is_future env u.locked_until w).1).0 ≡ ok s
      → s.maintenance_mode ≡ false
      → IsSignedIn u (login env crypto identifier password w)
  unfolding login_to is_future refuse_expired
  login-IsSignedIn identifier password w u s named there unlocked may own right status off =
      let (v, row) = account_by-IsThere _ _ w.db.accounts u named in
      let same : v.id ≡ u.id =
        (==_iff v.id u.id).0 (find?-passes (has_id u.id) w.db.accounts.users row) in
      let opens = λ (until : Option ℕ) (w' : World) (kept : w'.db ≡ w.db).
        open_session-IsSignedIn (record u { locked_until = until; must_change_password = false }) v
          w' (subst (λ d. find? (has_id u.id) d.accounts.users ≡ some v) (sym kept) row) same in
      subst (IsSignedIn u) (sym (login-named env crypto identifier password w u named there))
        (elim (Option-cases u.locked_until) [
          | inl never ↦
              rw (never, may, right, own)
                (past_maintenance (record u { locked_until = none; must_change_password = false }) w
                  s (IsSignedIn (record u { locked_until = none; must_change_password = false }))
                  (rw never at status) off (opens none))
          | inr (until, locked) ↦
              (let free : ltb (env.clock w.reads) until ≡ false = ground arith in
                rw (locked, free, may, right, own)
                  (past_maintenance
                    (record u { locked_until = some until; must_change_password = false })
                    (record w { reads = suc w.reads }) s
                    (IsSignedIn
                      (record u { locked_until = some until; must_change_password = false }))
                    (rw locked at status) off (opens (some until))))
        ])
