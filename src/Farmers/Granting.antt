-- ===== src/Farmers/Granting.antt =====
-- A farmer registered with a login (`createFarmerWithAccount`).
use coffee_traceability_back.Prelude.{
  ℕ, suc, ◌≡◌, refl, ◌∙◌, ap, true, Option, some, ◌∷◌, ◌==◌, inl, inr, Bool-cases, is_some, find?,
  any,
}
use coffee_traceability_back.Schema.{Text, User, Farmer, Cooperative, Accounts, farmer}
use coffee_traceability_back.Errors.{Result, ok, err}
use coffee_traceability_back.World.{Env, World, with_transaction}
use coffee_traceability_back.Texts.{codes}
use coffee_traceability_back.EntityCode.Effects.{next_entity_code-run}
use coffee_traceability_back.Credentials.{Crypto}
use coffee_traceability_back.Accounts.{
  FarmerData, new_user, new_farmer, violates, clashes, create_user, create_farmer_row,
}
use coffee_traceability_back.Farmers.{
  IssuedCredentials, phone_or_null, normalize_email, build_farmer_user, assert_cooperative,
  generate_farmer_code, create_farmer_with_account,
}
use coffee_traceability_back.Farmers.Issuing.{new_credential-run, identifiers-cases}

module _ (env : Env) (crypto : Crypto) (data_ : FarmerData) where
  -- The one new farmer and the one new user, linked to each other, and the slip that was handed out.
  pub record IsIssued (row : Farmer) (slip : IssuedCredentials) (a a' : Accounts) : Type 0 where
    pub user : User
    pub users : a'.users ≡ user ∷ a.users
    pub farmers : a'.farmers ≡ row ∷ a.farmers
    pub linked : row.user_id ≡ some user.id
    pub at_home : row.cooperative_id ≡ data_.cooperative_id
    pub role : user.role ≡ farmer
    pub member : user.cooperative_id ≡ some data_.cooperative_id
    pub temporary : user.must_change_password ≡ true
    pub expires : user.temporary_password_expires_at ≡ some slip.expires_at
    pub opens : crypto.compare slip.temporary_password user.password_hash ≡ true
    pub named : slip.identifier ≡ row.farmer_code

  abbrev pub Issue : World → Result (Farmer × IssuedCredentials) × World → Type 0
  Issue w (err e, w') = w'.db.accounts ≡ w.db.accounts
  Issue w (ok made, w') = IsIssued made.0 made.1 w.db.accounts w'.db.accounts

  -- The hash of a password is one that the password passes. Then a registration with a login either
  -- is refused and leaves the tables of people as they are, or adds one farmer and one user who is
  -- linked to the farmer, in the farmer's cooperative, with the role FARMER and a temporary password
  -- that is the one on the slip.
  pub create_farmer_with_account-Issue :
      ((plain : Text) (salt : ℕ) → crypto.compare plain (crypto.hash plain salt) ≡ true)
      → (email : Option Text) (w : World)
      → Issue w (create_farmer_with_account env crypto data_ email w)
  unfolding create_farmer_with_account assert_cooperative generate_farmer_code with_transaction
      create_user create_farmer_row
  create_farmer_with_account-Issue verifies email w =
      elim (Bool-cases (
        is_some
          (find? (λ (c : Cooperative). c.id == data_.cooperative_id) w.db.accounts.cooperatives))) [
            | inr unknown ↦ rw unknown refl
            | inl known ↦
                elim (identifiers-cases (normalize_email email) (phone_or_null data_.phone_number)
                  w) [
                    | inr (e, taken) ↦ rw (known, taken) refl
                    | inl free ↦
                        (let (p, salt, expires, w1, run, same) = new_credential-run crypto env w in
                          let (code, w2, draw, kept) =
                            next_entity_code-run env (codes "farmer") (codes "FARM") 5 w1 in
                          let e = normalize_email email in
                          let ph = phone_or_null data_.phone_number in
                          let u = new_user (env.uuid w2.drawn) (env.clock w2.reads) (
                            build_farmer_user e ph data_.first_name data_.last_name
                              data_.cooperative_id (crypto.hash p salt) expires) in
                          let kept1 : w1.db.accounts ≡ w.db.accounts = ap (λ d. d.accounts) same in
                          elim (Bool-cases (violates e ph w2.db.accounts.users)) [
                            | inl clash ↦ rw (known, free, run, draw, clash) kept1
                            | inr fresh ↦
                                elim (Bool-cases (
                                  any (clashes code (some u.id) data_.national_id)
                                    w2.db.accounts.farmers)) [
                                      | inl clash ↦ rw (known, free, run, draw, fresh, clash) kept1
                                      | inr single ↦
                                          rw (known, free, run, draw, fresh, single)
                                            (record {
                                              user = u;
                                              users = ap (λ a. u ∷ a.users) (kept ∙ kept1);
                                              farmers =
                                                  ap
                                                    (λ a.
                                                      new_farmer (env.uuid (suc w2.drawn))
                                                        (env.clock (suc w2.reads)) code (some u.id)
                                                        ph data_
                                                      ∷ a.farmers)
                                                    (kept ∙ kept1);
                                              linked = refl;
                                              at_home = refl;
                                              role = refl;
                                              member = refl;
                                              temporary = refl;
                                              expires = refl;
                                              opens = verifies p salt;
                                              named = refl;
                                            })
                                    ]
                          ])
                  ]
          ]
