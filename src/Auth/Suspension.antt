-- ===== src/Auth/Suspension.antt =====
-- A session whose account changes its status (`refresh`, `updateUserStatus`).
use coffee_traceability_back.Prelude.{
  ℕ, suc, ◌≡◌, refl, sym, subst, ap, ◌∙◌, Bool, not, ◌||◌, Option, none, some, find?, if◌then◌else◌,
  inl, inr, Bool-cases, Option-cases, arith,
}
use coffee_traceability_back.Schema.{Text, User, UserStatus}
use coffee_traceability_back.Errors.{ok, err, Result}
use coffee_traceability_back.World.{Env, World}
use coffee_traceability_back.Credentials.{
  Crypto, verify_refresh_token, sign_access_token, sign_refresh_token,
}
use coffee_traceability_back.Texts.{same_text_option}
use coffee_traceability_back.Accounts.{has_id}
use coffee_traceability_back.Accounts.Lookup.{KeepsKeys, written, find_id-written}
use coffee_traceability_back.Auth.{Session, refresh, holds_token, with_token}
use coffee_traceability_back.Auth.Naming.{rewritten, update_user_lem, update_user-missing}
use coffee_traceability_back.Auth.Rotation.{holds_token-cases, own_row}
use coffee_traceability_back.Users.{update_user_status, is_live_user}

abbrev with_status : UserStatus → User → User
with_status status u = record u { status = status }

status-KeepsKeys : (status : UserStatus) → KeepsKeys (with_status status)
status-KeepsKeys status = record { id = λ u. refl; email = λ u. refl; phone_number = λ u. refl }

module _ (env : Env) (crypto : Crypto) where
  abbrev is_stale : Text → User → Bool
  is_stale token u =
      u.is_deleted || not (same_text_option u.refresh_token_hash (some (env.sha256 token)))

  holds_token-written :
      (token : Text) (id : ℕ) (status : UserStatus) (o : Option User)
      → holds_token env crypto token (written id (with_status status) o)
        ≡ written id (with_status status) (holds_token env crypto token o)
  holds_token-written token id status none = refl
  holds_token-written token id status (some u) = elim (Bool-cases (has_id id u)) [
    | inl hit ↦ elim (Bool-cases (is_stale token u)) [
      | inl stale ↦ rw (hit, stale) refl
      | inr fresh ↦ ground (arith, hit, fresh)
    ]
    | inr miss ↦ elim (Bool-cases (is_stale token u)) [
      | inl stale ↦ rw (miss, stale) refl
      | inr fresh ↦ ground (arith, miss, fresh)
    ]
  ]

  -- The answer to a renewal, by the row of the account.
  renewed : Text → World → User → Session
  renewed token w u = record {
    access_token =
        crypto.sign_access
          (record {
            sub = u.id;
            role = u.role;
            cooperative_id = u.cooperative_id;
            must_change_password = u.must_change_password;
          })
          (env.clock (suc w.reads));
    refresh_token = crypto.sign_refresh u.id (env.uuid w.drawn) (env.clock (suc (suc w.reads)));
    must_change_password = u.must_change_password;
    user = none;
  }

  refresh-holding :
      (token : Text) (w : World) (sub : ℕ) (u : User)
      → crypto.verify_refresh token (env.clock w.reads) ≡ some sub
      → holds_token env crypto token (find? (has_id sub) w.db.accounts.users) ≡ some u
      → (refresh env crypto token w).0 ≡ ok (renewed token w u)
  unfolding refresh verify_refresh_token sign_access_token sign_refresh_token renewed
  refresh-holding token w sub u good held =
      let row = (holds_token-cases env crypto token _ u held).0 in
      let f = with_token (some (env.sha256 (renewed token w u).refresh_token)) in
      let w2 : World = record w { reads = suc (suc (suc w.reads)); drawn = suc w.drawn } in
      rw (good, held, update_user_lem u.id f w2 u (own_row sub w.db.accounts.users u row)) refl

  -- What an accepted token has passed.
  abbrev Accepts : Text → World → Result Session → Type 0
  Accepts token w (err e) = Unit
  Accepts token w (ok s) =
      (sub : ℕ) × (u : User) × (crypto.verify_refresh token (env.clock w.reads) ≡ some sub)
      × (holds_token env crypto token (find? (has_id sub) w.db.accounts.users) ≡ some u)

  refresh-Accepts : (token : Text) (w : World) → Accepts token w (refresh env crypto token w).0
  unfolding refresh verify_refresh_token
  refresh-Accepts token w = elim (Option-cases (crypto.verify_refresh token (env.clock w.reads))) [
    | inl bad ↦ rw bad tt
    | inr (sub, good) ↦
        elim (Option-cases
          (holds_token env crypto token (find? (has_id sub) w.db.accounts.users))) [
            | inl stale ↦ rw (good, stale) tt
            | inr (u, held) ↦
                subst (Accepts token w) (sym (refresh-holding token w sub u good held))
                  (sub, u, good, held)
          ]
  ]

  -- The same row but for its status gives the same session.
  renewed-written :
      (token : Text) (w : World) (id : ℕ) (status : UserStatus) (u : User)
      → renewed token w (if has_id id u then with_status status u else u) ≡ renewed token w u
  unfolding renewed
  renewed-written token w id status u = elim (Bool-cases (has_id id u)) [
    | inl hit ↦ rw hit refl
    | inr miss ↦ rw miss refl
  ]

  refresh-rewritten :
      (token : Text) (w : World) (s : Session) (id : ℕ) (status : UserStatus)
      → (refresh env crypto token w).0 ≡ ok s
      → (refresh env crypto token (record w {
        db = record w.db { accounts = rewritten id (with_status status) w.db.accounts };
      })).0
        ≡ ok s
  unfolding renewed
  refresh-rewritten token w s id status run =
      let (sub, u, good, held) = subst (Accepts token w) run (refresh-Accepts token w) in
      let w' : World = record w {
        db = record w.db { accounts = rewritten id (with_status status) w.db.accounts };
      } in
      let u' = if has_id id u then with_status status u else u in
      let held' : holds_token env crypto token (find? (has_id sub) w'.db.accounts.users) ≡ some u' =
        rw
          (find_id-written id (with_status status) (status-KeepsKeys status) sub
            w.db.accounts.users)
          (holds_token-written token id status (find? (has_id sub) w.db.accounts.users)
            ∙ ap (written id (with_status status)) held) in
      refresh-holding token w' sub u' good held'
      ∙ ap ok (renewed-written token w id status u)
      ∙ sym (refresh-holding token w sub u good held)
      ∙ run

  -- A renewal does not look at the status: where a token is renewed, it is renewed with the same answer
  -- after the status of any account has been changed, that of its own account to SUSPENDED, say.
  pub refresh-update_user_status :
      (token : Text) (w w' : World) (s : Session) (id : ℕ) (status : UserStatus) (v : User)
      → (refresh env crypto token w).0 ≡ ok s
      → update_user_status id status w ≡ (ok v, w')
      → (refresh env crypto token w').0 ≡ ok s
  unfolding update_user_status
  refresh-update_user_status token w w' s id status v run change =
      elim (Option-cases (find? (is_live_user id) w.db.accounts.users)) [
        | inl missing ↦ (let c = rw missing at change in let c0 = ap (λ p. p.0) c in absurd cc)
        | inr (t, live) ↦ elim (Option-cases (find? (has_id id) w.db.accounts.users)) [
          | inl absent ↦
              (let c = rw (live, update_user-missing id (with_status status) w absent) at change in
                let c0 = ap (λ p. p.0) c in absurd cc)
          | inr (u, row) ↦
              (let c = rw (live, update_user_lem id (with_status status) w u row) at change in
                subst (λ x. (refresh env crypto token x).0 ≡ ok s) (ap (λ p. p.1) c)
                  (refresh-rewritten token w s id status run))
        ]
      ]
