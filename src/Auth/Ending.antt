-- ===== src/Auth/Ending.antt =====
-- No session outlives a logout (`logout`, `refresh`).
use coffee_traceability_back.Prelude.{
  ℕ, suc, ◌≡◌, ◌≢◌, ◌==◌, refl, sym, ap, subst, ◌∙◌, Option, none, some, List, [], ◌∷◌, find?, inl,
  inr, Bool-cases, Option-cases, arith, find?-passes, ==_iff,
}
use coffee_traceability_back.Schema.{Text, User, Accounts}
use coffee_traceability_back.Errors.{ok, err, Result}
use coffee_traceability_back.World.{Env, World}
use coffee_traceability_back.Credentials.{
  Crypto, verify_refresh_token, sign_access_token, sign_refresh_token,
}
use coffee_traceability_back.Accounts.{has_id}
use coffee_traceability_back.Accounts.Lookup.{find_id-written}
use coffee_traceability_back.Auth.{Session, with_token, refresh, holds_token, logout}
use coffee_traceability_back.Auth.Naming.{rewritten, update_user_lem, update_user-missing}
use coffee_traceability_back.Auth.Rotation.{
  Holds, own_row, row-rewritten, holds_token-cases, with_token-KeepsKeys, refresh-needs,
}

module _ (env : Env) (crypto : Crypto) where
  -- What a logout that succeeds leaves.
  abbrev Ended : ℕ → Result (Unit {0}) × World → Type 0
  Ended id (err e, w') = Unit
  Ended id (ok x, w') = Holds id none w'.db.accounts

  logout-Ended : (id : ℕ) (w : World) → Ended id (logout id w)
  unfolding logout
  logout-Ended id w = elim (Option-cases (find? (has_id id) w.db.accounts.users)) [
    | inl missing ↦ rw (update_user-missing id (with_token none) w missing) tt
    | inr (u, row) ↦
        (let same : u.id ≡ id = ground (arith, find?-passes (has_id id) w.db.accounts.users row) in
          rw (update_user_lem id (with_token none) w u row) (
            with_token none u,
            subst
                (λ k.
                  find? (has_id id) (rewritten k (with_token none) w.db.accounts).users
                  ≡ some (with_token none u))
                same
                (row-rewritten id (with_token none) (with_token-KeepsKeys none) w.db.accounts u
                  row),
            refl,
          ))
  ]

  -- A write of the token of one user leaves the row of another.
  Holds-beside :
      (id sub : ℕ) (token : Text) (hash : Option Text) (a : Accounts) (u : User)
      → Holds id none a
      → find? (has_id sub) a.users ≡ some u
      → u.refresh_token_hash ≡ some token
      → Holds id none (rewritten u.id (with_token hash) a)
  Holds-beside id sub token hash a u (v, row, ended) found held = elim (Bool-cases (v.id == u.id)) [
    | inl here ↦
        (let here2 : v.id ≡ u.id = (==_iff v.id u.id).0 here in
          let mine : v.id ≡ id = (==_iff v.id id).0 (find?-passes (has_id id) a.users row) in
          let theirs : u.id ≡ sub = (==_iff u.id sub).0 (find?-passes (has_id sub) a.users found) in
          let same : sub ≡ id = sym theirs ∙ sym here2 ∙ mine in
          let twice : find? (has_id id) a.users ≡ some u =
            subst (λ k. find? (has_id k) a.users ≡ some u) same found in
          let equal : v ≡ u = ground (arith, row, twice) in
          absurd (cc (sym ended ∙ ap (λ (x : User). x.refresh_token_hash) equal ∙ held)))
    | inr other ↦ (
      v,
      find_id-written u.id (with_token hash) (with_token-KeepsKeys hash) id a.users
          ∙ rw (row, other) refl,
      ended,
    )
  ]

  -- A renewal, answered or refused, gives a user without a token none.
  refresh-Holds :
      (id : ℕ) (token : Text) (w : World)
      → Holds id none w.db.accounts
      → Holds id none (refresh env crypto token w).1.db.accounts
  unfolding refresh verify_refresh_token sign_access_token sign_refresh_token
  refresh-Holds id token w ended =
      elim (Option-cases (crypto.verify_refresh token (env.clock w.reads))) [
        | inl bad ↦ rw bad ended
        | inr (sub, good) ↦
            elim (Option-cases
              (holds_token env crypto token (find? (has_id sub) w.db.accounts.users))) [
                | inl stale ↦ rw (good, stale) ended
                | inr (u, held) ↦
                    (let (row, hash) = holds_token-cases env crypto token _ u held in
                      let token2 =
                        crypto.sign_refresh u.id (env.uuid w.drawn)
                          (env.clock (suc (suc w.reads))) in
                      let f = with_token (some (env.sha256 token2)) in
                      let w2 : World = record w {
                        reads = suc (suc (suc w.reads));
                        drawn = suc w.drawn;
                      } in
                      rw
                        (
                          good,
                          held,
                          update_user_lem u.id f w2 u (own_row sub w.db.accounts.users u row),
                        )
                        (Holds-beside id sub (env.sha256 token) _ w.db.accounts u ended row hash))
              ]
      ]

  -- Any number of attempts to renew a token, one after another.
  abbrev pub renew_all : List Text → World → World
  renew_all [] w = w
  renew_all (token ∷ tokens) w = renew_all tokens (refresh env crypto token w).1

  renew_all-Holds :
      (id : ℕ) (tokens : List Text) (w : World)
      → Holds id none w.db.accounts
      → Holds id none (renew_all tokens w).db.accounts
  renew_all-Holds id [] w ended = ended
  renew_all-Holds id (token ∷ tokens) w ended =
      renew_all-Holds id tokens (refresh env crypto token w).1 (refresh-Holds id token w ended)

  -- After a logout, and after whatever attempts to renew whatever tokens, of the user or of others, no
  -- token of the user is renewed.
  pub logout-ends :
      (id : ℕ) (tokens : List Text) (t' : Text) (w w' w'' : World) (s' : Session)
      → logout id w ≡ (ok tt, w')
      → crypto.verify_refresh t' (env.clock (renew_all tokens w').reads) ≡ some id
      → refresh env crypto t' (renew_all tokens w') ≢ (ok s', w'')
  logout-ends id tokens t' w w' w'' s' run mine again =
      let held = subst (Ended id) run (logout-Ended id w) in
      let clash =
        refresh-needs env crypto t' (renew_all tokens w') w'' s' id none
          (renew_all-Holds id tokens w' held) mine again in
      absurd cc
