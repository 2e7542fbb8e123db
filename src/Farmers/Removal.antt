-- ===== src/Farmers/Removal.antt =====
-- A farmer who is removed loses the login (`softDeleteFarmer`).
use coffee_traceability_back.Prelude.{
  ℕ, ◌≡◌, ◌≢◌, refl, sym, ◌∙◌, subst, false, ltb, Option, none, some, List, [], ◌∷◌, inl, inr,
  Bool-cases, Option-cases, find?, update_where, All, All-find?, find?-passes, ==_iff, arith,
}
use coffee_traceability_back.Schema.{Text, User, Farmer, Accounts, deactivated}
use coffee_traceability_back.Errors.{Result, ok, err}
use coffee_traceability_back.World.{Env, World, with_transaction, when_some}
use coffee_traceability_back.Identifiers.{
  IdentifierKind, email, phone, farmer_code, normalize_phone,
}
use coffee_traceability_back.Texts.Chars.{lower, upper}
use coffee_traceability_back.Credentials.{Crypto}
use coffee_traceability_back.Accounts.{
  has_id, has_email, has_phone, update_farmer_row, is_farmer_row,
}
use coffee_traceability_back.Auth.{
  Session, login, login_to, refresh, find_by_identifier, is_future, account_by, by_farmer, by_phone,
  linked_user, has_code,
}
use coffee_traceability_back.Auth.Naming.{account_of, update_user_lem, update_user-missing}
use coffee_traceability_back.Auth.Rotation.{Renewal, refresh-Renewal}
use coffee_traceability_back.Farmers.{
  soft_delete_farmer, get_farmer_by_id, is_live_farmer, locked_out,
}

some_injective : {m n : ℕ} → some m ≡ some n → m ≡ n
some_injective e = ground arith

-- A row under this identifier is deactivated and holds no refresh token.
abbrev IsOut : ℕ → User → Type 0
IsOut k u = u.id ≡ k → (u.status ≡ deactivated) × (u.refresh_token_hash ≡ none)

IsOut-rows : (k : ℕ) (users : List User) → All (IsOut k) (update_where (has_id k) locked_out users)
IsOut-rows k [] = tt
IsOut-rows k (u ∷ us) = (
  elim (Bool-cases (has_id k u)) [
    | inl hit ↦ rw hit (λ same. (refl, refl))
    | inr miss ↦ rw miss (λ same. absurd (ground (arith, same)))
  ],
  IsOut-rows k us,
)

module _ (P : User → Type 0) (users : List User) (all : All P users) (u : User) where
  linked_user-All : (k : Option ℕ) → linked_user k users ≡ some u → P u
  linked_user-All none e = absurd cc
  linked_user-All (some k) e = All-find? P (has_id k) users all e

  by_farmer-All : (row : Option Farmer) → by_farmer row users ≡ some u → P u
  by_farmer-All none e = absurd cc
  by_farmer-All (some row) e = elim (Bool-cases row.is_deleted) [
    | inl gone ↦ (let e2 = rw gone at e in absurd cc)
    | inr there ↦ linked_user-All row.user_id (rw there at e)
  ]

  by_phone-All : (p : Option Text) → by_phone p users ≡ some u → P u
  by_phone-All none e = absurd cc
  by_phone-All (some p) e = All-find? P (has_phone p) users all e

-- The account that an identifier names is a row of the table.
account_by-All :
    (P : User → Type 0) (kind : IdentifierKind) (value : Text) (a : Accounts) (u : User)
    → All P a.users
    → account_by kind value a ≡ some u
    → P u
account_by-All P email value a u all e = All-find? P (has_email (lower value)) a.users all e
account_by-All P phone value a u all e = by_phone-All P a.users all u (normalize_phone value) e
account_by-All P farmer_code value a u all e =
    by_farmer-All P a.users all u (find? (has_code (upper value)) a.farmers) e

module _ (env : Env) (crypto : Crypto) where
  login_to-deactivated :
      (u : User) (password : Text) (w : World) (s : Session)
      → u.status ≡ deactivated
      → (login_to env crypto u password w).0 ≢ ok s
  unfolding login_to is_future
  login_to-deactivated u password w s out run = elim (Option-cases u.locked_until) [
    | inl unlocked ↦ (let r = rw (unlocked, out) at run in absurd cc)
    | inr (until, locked) ↦ elim (Bool-cases (ltb (env.clock w.reads) until)) [
      | inl early ↦ (let r = rw (locked, early) at run in absurd cc)
      | inr late ↦ (let r = rw (locked, late, out) at run in absurd cc)
    ]
  ]

  login-deactivated :
      (identifier password : Text) (w : World) (u : User) (s : Session)
      → account_of identifier w.db.accounts ≡ some u
      → u.status ≡ deactivated
      → (login env crypto identifier password w).0 ≢ ok s
  unfolding login find_by_identifier
  login-deactivated identifier password w u s named out run = elim (Bool-cases u.is_deleted) [
    | inl gone ↦ (let r = rw (named, gone) at run in absurd cc)
    | inr there ↦
        login_to-deactivated (record u { is_deleted = false }) password w s out
          (rw (named, there) at run)
  ]

-- What a removal that succeeds leaves.
abbrev Removal : ℕ → World → Result Farmer × World → Type 0
Removal k w (err e, w') = Unit
Removal k w (ok row, w') = All (IsOut k) w'.db.accounts.users

soft_delete-Removal :
    (id k : ℕ) (f : Farmer) (w : World)
    → find? (is_live_farmer id) w.db.accounts.farmers ≡ some f
    → f.user_id ≡ some k
    → Removal k w (soft_delete_farmer id w)
unfolding soft_delete_farmer get_farmer_by_id with_transaction when_some update_farmer_row
soft_delete-Removal id k f w found linked =
    elim (Option-cases (find? (has_id k) w.db.accounts.users)) [
      | inl missing ↦ rw (found, linked, update_user-missing k locked_out w missing) tt
      | inr (u, row) ↦ elim (Option-cases (find? (is_farmer_row id) w.db.accounts.farmers)) [
        | inl absent ↦ rw (found, linked, update_user_lem k locked_out w u row, absent) tt
        | inr (g, there) ↦
            rw (found, linked, update_user_lem k locked_out w u row, there)
              (IsOut-rows k w.db.accounts.users)
      ]
    ]

module _ (env : Env) (crypto : Crypto) (id k : ℕ) (f row : Farmer) (w w' : World) where
  -- After the removal of a farmer with a login succeeds, nobody signs in to that account, by any
  -- identifier that names it and with any password.
  pub soft_delete-login :
      (identifier password : Text) (u : User) (s : Session)
      → find? (is_live_farmer id) w.db.accounts.farmers ≡ some f
      → f.user_id ≡ some k
      → soft_delete_farmer id w ≡ (ok row, w')
      → account_of identifier w'.db.accounts ≡ some u
      → u.id ≡ k
      → (login env crypto identifier password w').0 ≢ ok s
  soft_delete-login identifier password u s found linked run named same =
      let all = subst (Removal k w) run (soft_delete-Removal id k f w found linked) in
      login-deactivated env crypto identifier password w' u s named
        (account_by-All (IsOut k) _ _ w'.db.accounts u all named same).0

  -- After the removal of a farmer with a login succeeds, no refresh token of that account is renewed.
  pub soft_delete-refresh :
      (token : Text) (s : Session) (w'' : World)
      → find? (is_live_farmer id) w.db.accounts.farmers ≡ some f
      → f.user_id ≡ some k
      → soft_delete_farmer id w ≡ (ok row, w')
      → crypto.verify_refresh token (env.clock w'.reads) ≡ some k
      → refresh env crypto token w' ≢ (ok s, w'')
  soft_delete-refresh token s w'' found linked run mine again =
      let all = subst (Removal k w) run (soft_delete-Removal id k f w found linked) in
      let (sub, good, (u, at, hash), left) =
        subst (Renewal env crypto token w') again (refresh-Renewal env crypto token w') in
      let same : sub ≡ k = some_injective (sym good ∙ mine) in
      let own : u.id ≡ sub =
        (==_iff u.id sub).0 (find?-passes (has_id sub) w'.db.accounts.users at) in
      let (out, gone) = All-find? (IsOut k) (has_id sub) w'.db.accounts.users all at (own ∙ same) in
      absurd cc
