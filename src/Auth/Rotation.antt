-- ===== src/Auth/Rotation.antt =====
-- One refresh token at a time (`refresh`, `changePassword`, `logout`).
use coffee_traceability_back.Prelude.{
  ℕ, suc, ◌≡◌, ◌≢◌, refl, sym, ap, subst, ◌∙◌, true, false, not, ◌||◌, Option, none, some, List,
  find?, if◌then◌else◌, inl, inr, Bool-cases, Option-cases, arith, ==_refl, find?-passes,
}
use coffee_traceability_back.Schema.{Text, User, UserStatus, Accounts}
use coffee_traceability_back.Errors.{ok, err, Result}
use coffee_traceability_back.World.{Env, World}
use coffee_traceability_back.Texts.{same_text_option, eq_of_same_text_option}
use coffee_traceability_back.Credentials.{
  Crypto, verify_refresh_token, sign_access_token, sign_refresh_token, hash_password,
}
use coffee_traceability_back.Accounts.{has_id}
use coffee_traceability_back.Accounts.Lookup.{KeepsKeys, find_id-written}
use coffee_traceability_back.Auth.{
  Session, live, with_token, refresh, holds_token, change_password, with_password,
}
use coffee_traceability_back.Auth.Naming.{rewritten, update_user_lem}

-- The user's row has that hash of a refresh token.
abbrev pub Holds : ℕ → Option Text → Accounts → Type 0
Holds id h a = (u : User) × (find? (has_id id) a.users ≡ some u) × (u.refresh_token_hash ≡ h)

some_injective : {s t : Text} → some s ≡ some t → s ≡ t
some_injective e = ground arith

pub own_row :
    (id : ℕ) (users : List User) (u : User)
    → find? (has_id id) users ≡ some u
    → find? (has_id u.id) users ≡ some u
own_row id users u row =
    let same : u.id ≡ id = ground (arith, find?-passes (has_id id) users row) in
    subst (λ k. find? (has_id k) users ≡ some u) (sym same) row

-- The row of the user after a write of it.
pub row-rewritten :
    (id : ℕ) (f : User → User) (keys : KeepsKeys f) (a : Accounts) (u : User)
    → find? (has_id id) a.users ≡ some u
    → find? (has_id id) (rewritten u.id f a).users ≡ some (f u)
row-rewritten id f keys a u row =
    find_id-written u.id f keys id a.users
    ∙ rw row (ap (λ b. some (if b then f u else u)) (==_refl u.id))

-- A row has one hash.
Holds-once : (id : ℕ) (h k : Option Text) (a : Accounts) → Holds id h a → Holds id k a → h ≡ k
Holds-once id h k a (u, row, hash) (v, row', hash') = ground arith

pub with_token-KeepsKeys : (hash : Option Text) → KeepsKeys (with_token hash)
with_token-KeepsKeys hash = record { id = λ u. refl; email = λ u. refl; phone_number = λ u. refl }

with_password-KeepsKeys :
    (now : ℕ) (password_hash token_hash : Text) (status : UserStatus)
    → KeepsKeys (with_password now password_hash token_hash status)
with_password-KeepsKeys now password_hash token_hash status = record {
  id = λ u. refl;
  email = λ u. refl;
  phone_number = λ u. refl;
}

live_row : (o : Option User) (u : User) → live o ≡ some u → o ≡ some u
live_row none u e = absurd cc
live_row (some v) u e = elim (Bool-cases v.is_deleted) [
  | inl gone ↦ (let e2 = rw gone at e in absurd cc)
  | inr there ↦ ground (arith, there)
]

module _ (env : Env) (crypto : Crypto) where
  pub holds_token-cases :
      (token : Text) (o : Option User) (u : User)
      → holds_token env crypto token o ≡ some u
      → (o ≡ some u) × (u.refresh_token_hash ≡ some (env.sha256 token))
  holds_token-cases token none u e = absurd cc
  holds_token-cases token (some v) u e =
      elim (Bool-cases
        (v.is_deleted || not (same_text_option v.refresh_token_hash (some (env.sha256 token))))) [
          | inl refused ↦ (let e2 = rw refused at e in absurd cc)
          | inr accepted ↦
              (let same : v ≡ u = ground (arith, accepted) in
                let equal : same_text_option v.refresh_token_hash (some (env.sha256 token)) ≡ true =
                  ground (arith, accepted) in
                (
                  ap some same,
                  ap (λ (x : User). x.refresh_token_hash) (sym same)
                      ∙ eq_of_same_text_option _ _ equal,
                ))
        ]

  -- What a renewal that succeeds has found and what it leaves.
  abbrev pub Renewal : Text → World → Result Session × World → Type 0
  Renewal token w (err e, w') = Unit
  Renewal token w (ok s, w') =
      (sub : ℕ) × (crypto.verify_refresh token (env.clock w.reads) ≡ some sub)
      × Holds sub (some (env.sha256 token)) w.db.accounts
      × Holds sub (some (env.sha256 s.refresh_token)) w'.db.accounts

  pub refresh-Renewal : (token : Text) (w : World) → Renewal token w (refresh env crypto token w)
  unfolding refresh verify_refresh_token sign_access_token sign_refresh_token
  refresh-Renewal token w = elim (Option-cases (crypto.verify_refresh token (env.clock w.reads))) [
    | inl bad ↦ rw bad tt
    | inr (sub, good) ↦
        elim (Option-cases
          (holds_token env crypto token (find? (has_id sub) w.db.accounts.users))) [
            | inl stale ↦ rw (good, stale) tt
            | inr (u, held) ↦
                (let (row, hash) = holds_token-cases token _ u held in
                  let token2 =
                    crypto.sign_refresh u.id (env.uuid w.drawn) (env.clock (suc (suc w.reads))) in
                  let f = with_token (some (env.sha256 token2)) in
                  let w2 : World = record w {
                    reads = suc (suc (suc w.reads));
                    drawn = suc w.drawn;
                  } in
                  rw
                    (
                      good,
                      held,
                      update_user_lem u.id f w2 u (own_row sub w.db.accounts.users u row),
                    )
                    (
                      sub,
                      good,
                      (u, row, hash),
                      (f u, row-rewritten sub f (with_token-KeepsKeys _) w.db.accounts u row, refl),
                    ))
          ]
  ]

  -- Only the token whose hash the row has is renewed.
  pub refresh-needs :
      (token : Text) (w w' : World) (s : Session) (id : ℕ) (h : Option Text)
      → Holds id h w.db.accounts
      → crypto.verify_refresh token (env.clock w.reads) ≡ some id
      → refresh env crypto token w ≡ (ok s, w')
      → h ≡ some (env.sha256 token)
  refresh-needs token w w' s id h held mine run =
      let (sub, good, found, left) = subst (Renewal token w) run (refresh-Renewal token w) in
      let same : sub ≡ id = ground arith in
      Holds-once id h (some (env.sha256 token)) w.db.accounts held
        (subst (λ k. Holds k (some (env.sha256 token)) w.db.accounts) same found)

  -- After a renewal, the only token of that user that is renewed is the one that it has issued: a
  -- token of the same user that is accepted next has the hash of the issued one.
  pub refresh-rotates :
      (t t' : Text) (w w' w'' : World) (s s' : Session)
      → refresh env crypto t w ≡ (ok s, w')
      → crypto.verify_refresh t' (env.clock w'.reads) ≡ crypto.verify_refresh t (env.clock w.reads)
      → refresh env crypto t' w' ≡ (ok s', w'')
      → env.sha256 t' ≡ env.sha256 s.refresh_token
  refresh-rotates t t' w w' w'' s s' run same_user again =
      let (sub, good, found, left) = subst (Renewal t w) run (refresh-Renewal t w) in
      some_injective (
        sym (
          refresh-needs t' w' w'' s' sub (some (env.sha256 s.refresh_token)) left (same_user ∙ good)
            again))

  -- The row of a user who has just chosen a password.
  pub record IsSettled (new : Text) (s : Session) (u : User) : Type 0 where
    pub chosen : crypto.compare new u.password_hash ≡ true
    pub own : u.must_change_password ≡ false
    pub unexpiring : u.temporary_password_expires_at ≡ none
    pub unlocked : u.locked_until ≡ none
    pub session : u.refresh_token_hash ≡ some (env.sha256 s.refresh_token)

  -- What a change of password that succeeds leaves.
  abbrev Change : ℕ → Text → Result Session × World → Type 0
  Change id new (err e, w') = Unit
  Change id new (ok s, w') =
      (u : User) × (find? (has_id id) w'.db.accounts.users ≡ some u) × IsSettled new s u

  module _
      (verifies : (plain : Text) (salt : ℕ)
        → crypto.compare plain (crypto.hash plain salt) ≡ true) where
    change_password-Change :
        (id : ℕ) (old new : Text) (w : World)
        → Change id new (change_password env crypto id old new w)
    unfolding change_password hash_password sign_access_token sign_refresh_token
    change_password-Change id old new w =
        elim (Option-cases (live (find? (has_id id) w.db.accounts.users))) [
          | inl missing ↦ rw missing tt
          | inr (u, found) ↦ elim (Bool-cases (crypto.compare old u.password_hash)) [
            | inr wrong ↦ rw (found, wrong) tt
            | inl right ↦ elim (Bool-cases (crypto.compare new u.password_hash)) [
              | inl same ↦ rw (found, right, same) tt
              | inr other ↦
                  (let row = live_row (find? (has_id id) w.db.accounts.users) u found in
                    let f =
                      with_password (env.clock (suc w.reads)) (crypto.hash new w.drawn)
                        (env.sha256
                          (crypto.sign_refresh u.id (env.uuid (suc w.drawn)) (env.clock w.reads)))
                        u.status in
                    let w2 : World = record w {
                      reads = suc (suc w.reads);
                      drawn = suc (suc w.drawn);
                    } in
                    let at =
                      row-rewritten id f (with_password-KeepsKeys _ _ _ _) w.db.accounts u row in
                    rw
                      (
                        found,
                        right,
                        other,
                        update_user_lem u.id f w2 u (own_row id w.db.accounts.users u row),
                      )
                      (
                        f u,
                        at,
                        record {
                          chosen = verifies new w.drawn;
                          own = refl;
                          unexpiring = refl;
                          unlocked = refl;
                          session = refl;
                        },
                      ))
            ]
          ]
        ]

    -- After a change of password that succeeds, the hash of the user's row is one of the new password,
    -- the row is neither locked nor under a temporary password, and its token is the issued one; and
    -- no token of the user with another hash than the issued one is renewed next.
    pub change_password-settles :
        (id : ℕ) (old new : Text) (w w' : World) (s : Session)
        → change_password env crypto id old new w ≡ (ok s, w')
        → ((u : User) × (find? (has_id id) w'.db.accounts.users ≡ some u) × IsSettled new s u)
          × ¬ (
              (t' : Text) × (s' : Session) × (w'' : World) × (crypto.verify_refresh t'
                  (env.clock w'.reads)
                ≡ some id)
              × (refresh env crypto t' w' ≡ (ok s', w''))
              × (env.sha256 t' ≢ env.sha256 s.refresh_token))
    change_password-settles id old new w w' s run =
        let (u, row, settled) = subst (Change id new) run (change_password-Change id old new w) in
        (
          (u, row, settled),
          λ (t', s', w'', mine, again, other). other (
              some_injective (
                sym (
                  refresh-needs t' w' w'' s' id (some (env.sha256 s.refresh_token))
                    (u, row, settled.session) mine again))),
        )
