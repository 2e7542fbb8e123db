-- ===== src/Auth/Lockout.antt =====
-- Wrong passwords and the lock (`login`).
use coffee_traceability_back.Prelude.{
  ℕ, suc, ◌+◌, ◌*◌, ◌<◌, ◌≡◌, refl, ap, ◌∙◌, true, false, ltb, leb, Option, none, some, List, [],
  ◌∷◌, find?, length, All, arith, ==_refl, if◌then◌else◌,
}
use coffee_traceability_back.Schema.{Text, User, Accounts}
use coffee_traceability_back.Errors.{
  err, forbidden, unauthorized, account_locked, invalid_credentials,
}
use coffee_traceability_back.World.{Env, World}
use coffee_traceability_back.Credentials.{Crypto}
use coffee_traceability_back.Accounts.{has_id}
use coffee_traceability_back.Accounts.Lookup.{KeepsKeys}
use coffee_traceability_back.Auth.{
  find_by_identifier, may_sign_in, is_future, reject_password, failed_attempt, login_to, login,
  lockout_minutes,
}
use coffee_traceability_back.Auth.Naming.{
  account_of, rewritten, account_by-written, account_by-IsThere, update_user_lem,
}

-- A write of other columns of the row that the identifier names.
pub named-after :
    (identifier : Text) (f : User → User) (keys : KeepsKeys f) (a : Accounts) (u : User)
    → account_of identifier a ≡ some u
    → account_of identifier (rewritten u.id f a) ≡ some (f u)
named-after identifier f keys a u named =
    account_by-written u.id f keys _ _ a
    ∙ rw named (ap (λ b. some (if b then f u else u)) (==_refl u.id))

failure-KeepsKeys : (count : ℕ) (until : Option ℕ) → KeepsKeys (failed_attempt count until)
failure-KeepsKeys count until = record {
  id = λ u. refl;
  email = λ u. refl;
  phone_number = λ u. refl;
}

-- The world after a wrong password has been noted.
abbrev noted : User → ℕ → Option ℕ → ℕ → World → World
noted u count until reads w = record w {
  db = record w.db { accounts = rewritten u.id (failed_attempt count until) w.db.accounts };
  reads = reads;
}

module _ (env : Env) (u v : User) (w : World)
    (row : find? (has_id u.id) w.db.accounts.users ≡ some v) where
  reject-counts :
      u.failed_login_count + 1 < 5
      → reject_password env u w ≡ (
        err (unauthorized invalid_credentials),
        noted u (u.failed_login_count + 1) none w.reads w,
      )
  unfolding reject_password
  reject-counts few =
      let open_ : leb 5 (u.failed_login_count + 1) ≡ false = ground arith in
      rw (open_, update_user_lem u.id (failed_attempt (u.failed_login_count + 1) none) w v row) refl

  reject-locks :
      u.failed_login_count + 1 ≡ 5
      → reject_password env u w ≡ (
        err (unauthorized invalid_credentials),
        noted u 0 (some (env.clock w.reads + lockout_minutes * 60_000)) (suc w.reads) w,
      )
  unfolding reject_password
  reject-locks full =
      let lock : leb 5 (u.failed_login_count + 1) ≡ true = ground arith in
      let until = some (env.clock w.reads + lockout_minutes * 60_000) in
      rw
        (
          lock,
          update_user_lem u.id (failed_attempt 0 until) (record w { reads = suc w.reads }) v row,
        )
        refl

module _ (env : Env) (crypto : Crypto) (identifier : Text) where
  -- A live account.
  pub login-named :
      (password : Text) (w : World) (u : User)
      → account_of identifier w.db.accounts ≡ some u
      → u.is_deleted ≡ false
      → login env crypto identifier password w ≡ login_to env crypto u password w
  unfolding login find_by_identifier
  login-named password w u named there = rw (named, there) refl

  -- While an account is locked, a login with any password is refused, and nothing is written.
  pub login-locked :
      (password : Text) (w : World) (u : User) (until : ℕ)
      → account_of identifier w.db.accounts ≡ some u
      → u.is_deleted ≡ false
      → u.locked_until ≡ some until
      → env.clock w.reads < until
      → login env crypto identifier password w
        ≡ (err (forbidden account_locked), record w { reads = suc w.reads })
  unfolding login_to is_future
  login-locked password w u until named there locked early =
      let held : ltb (env.clock w.reads) until ≡ true = ground arith in
      rw (login-named password w u named there, locked, held) refl

  -- An account that takes a password now.
  pub record IsOpen (u : User) (w : World) : Type 0 where
    pub named : account_of identifier w.db.accounts ≡ some u
    pub there : u.is_deleted ≡ false
    pub unlocked : u.locked_until ≡ none
    pub may : may_sign_in u.status ≡ true

  login-wrong :
      (password : Text) (w : World) (u : User)
      → IsOpen u w
      → crypto.compare password u.password_hash ≡ false
      → login env crypto identifier password w ≡ reject_password env u w
  unfolding login_to is_future
  login-wrong password w u o wrong =
      rw (login-named password w u o.named o.there, o.unlocked, o.may, wrong) refl

  -- Logins with one password after another.
  abbrev pub try_all : List Text → World → World
  try_all [] w = w
  try_all (p ∷ ps) w = try_all ps (login env crypto identifier p w).1

  -- The account is locked until that time.
  abbrev IsLockedUntil : ℕ → World → Type 0
  IsLockedUntil until w =
      (u : User) × (account_of identifier w.db.accounts ≡ some u)
      × (u.is_deleted ≡ false)
      × (u.locked_until ≡ some until)

  failures-lock :
      (ps : List Text) (w : World) (u : User)
      → IsOpen u w
      → All (λ p. crypto.compare p u.password_hash ≡ false) ps
      → u.failed_login_count < 5
      → length ps + u.failed_login_count ≡ 5
      → IsLockedUntil (env.clock w.reads + lockout_minutes * 60_000) (try_all ps w)
        × ((try_all ps w).reads ≡ suc w.reads)
  failures-lock [] w u o wrong few five = absurd (omega arith)
  failures-lock (p ∷ []) w u o wrong few five =
      let (v, row) = account_by-IsThere _ _ w.db.accounts u o.named in
      let until = some (env.clock w.reads + lockout_minutes * 60_000) in
      rw (login-wrong p w u o wrong.0 ∙ reject-locks env u v w row (omega arith), try_all)
        (
          (
            failed_attempt 0 until u,
            named-after identifier _ (failure-KeepsKeys 0 until) w.db.accounts u o.named,
            o.there,
            refl,
          ),
          refl,
        )
  failures-lock (p ∷ q ∷ ps) w u o wrong few five =
      let (v, row) = account_by-IsThere _ _ w.db.accounts u o.named in
      let count = u.failed_login_count + 1 in
      rw (login-wrong p w u o wrong.0 ∙ reject-counts env u v w row (omega arith), try_all)
        (failures-lock (q ∷ ps) (noted u count none w.reads w) (failed_attempt count none u)
          (record {
            named = named-after identifier _ (failure-KeepsKeys count none) w.db.accounts u o.named;
            there = o.there;
            unlocked = refl;
            may = o.may;
          })
          wrong.1 (omega arith) (omega arith))

  -- After as many wrong passwords in a row as bring the count of an open account to five, a login
  -- before the lock of 15 minutes is over is refused, whatever its password, even the right one.
  pub login-failures :
      (ps : List Text) (password : Text) (w : World) (u : User)
      → IsOpen u w
      → All (λ p. crypto.compare p u.password_hash ≡ false) ps
      → u.failed_login_count < 5
      → length ps + u.failed_login_count ≡ 5
      → env.clock (suc w.reads) < env.clock w.reads + lockout_minutes * 60_000
      → (login env crypto identifier password (try_all ps w)).0 ≡ err (forbidden account_locked)
  login-failures ps password w u o wrong few five early =
      let ((x, named, there, locked), reads) = failures-lock ps w u o wrong few five in
      ap (λ r. r.0) (login-locked password (try_all ps w) x _ named there locked (rw reads early))
