-- ===== src/Farmers/Issuing.antt =====
-- The steps before the insert of a farmer's login.
use coffee_traceability_back.Prelude.{
  ℕ, zero, suc, ◌≡◌, refl, Option, none, some, List, [], ◌∷◌, ◌++◌, ◌⊎◌, inl, inr, Bool-cases,
  is_some, find?, length, ◌∙◌,
}
use coffee_traceability_back.Schema.{Text}
use coffee_traceability_back.Texts.{join}
use coffee_traceability_back.Errors.{Failure, ok, err, conflict, email_taken, phone_taken}
use coffee_traceability_back.World.{Env, World, when_some}
use coffee_traceability_back.Credentials.{
  Crypto, draw, random_group, random_groups, generate_temporary_password, hash_password, groups,
  group_size, alphabet, glyph_at, temporary_password_expiry,
}
use coffee_traceability_back.Accounts.{has_email, has_phone}
use coffee_traceability_back.Farmers.{new_credential, assert_identifiers_free}

module _ (crypto : Crypto) where
  random_group-run :
      (n : ℕ) (w : World)
      → (t : Text) × (w' : World) × (random_group crypto n w ≡ (ok t, w')) × (w'.db ≡ w.db)
  unfolding random_group draw
  random_group-run zero w = ([], w, refl, refl)
  random_group-run (suc n) w =
      let (t, w', run, same) = random_group-run n (record w { drawn = suc w.drawn }) in
      (glyph_at (crypto.random_int (length alphabet) w.drawn) alphabet ++ t, w', rw run refl, same)

  random_groups-run :
      (n : ℕ) (w : World)
      → (ts : List Text) × (w' : World) × (random_groups crypto n w ≡ (ok ts, w')) × (w'.db ≡ w.db)
  unfolding random_groups
  random_groups-run zero w = ([], w, refl, refl)
  random_groups-run (suc n) w =
      let (t, w1, run1, same1) = random_group-run group_size w in
      let (ts, w2, run2, same2) = random_groups-run n w1 in
      (t ∷ ts, w2, rw (run1, run2) refl, same2 ∙ same1)

  -- A temporary password with its hash.
  pub new_credential-run :
      (env : Env) (w : World)
      → (p : Text) × (salt expires : ℕ) × (w' : World) × (new_credential env crypto w
          ≡ (ok (p, crypto.hash p salt, expires), w'))
        × (w'.db ≡ w.db)
  unfolding new_credential generate_temporary_password hash_password
  new_credential-run env w =
      let (ts, w1, run, same) = random_groups-run groups w in
      let p = join b'-' ts in
      (
        p,
        w1.drawn,
        temporary_password_expiry (env.clock w1.reads),
        record w1 { drawn = suc w1.drawn; reads = suc w1.reads },
        rw run refl,
        same,
      )

-- The identifiers are free, or the request is refused; nothing is written.
pub identifiers-cases :
    (email phone : Option Text) (w : World)
    → (assert_identifiers_free email phone w ≡ (ok tt, w))
      ⊎ ((e : Failure) × (assert_identifiers_free email phone w ≡ (err e, w)))
unfolding assert_identifiers_free when_some
identifiers-cases none none w = inl refl
identifiers-cases (some e) none w =
    elim (Bool-cases (is_some (find? (has_email e) w.db.accounts.users))) [
      | inl taken ↦ inr (conflict email_taken, rw taken refl)
      | inr free ↦ inl (rw free refl)
    ]
identifiers-cases none (some p) w =
    elim (Bool-cases (is_some (find? (has_phone p) w.db.accounts.users))) [
      | inl taken ↦ inr (conflict phone_taken, rw taken refl)
      | inr free ↦ inl (rw free refl)
    ]
identifiers-cases (some e) (some p) w =
    elim (Bool-cases (is_some (find? (has_email e) w.db.accounts.users))) [
      | inl taken ↦ inr (conflict email_taken, rw taken refl)
      | inr free ↦ elim (Bool-cases (is_some (find? (has_phone p) w.db.accounts.users))) [
        | inl taken ↦ inr (conflict phone_taken, rw (free, taken) refl)
        | inr both ↦ inl (rw (free, both) refl)
      ]
    ]
