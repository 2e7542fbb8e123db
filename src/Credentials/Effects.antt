-- ===== src/Credentials/Effects.antt =====
-- What the credentials leave as it is: the whole database.
use coffee_traceability_back.Prelude.{ℕ, zero, suc, ◌∷◌, ◌++◌, length}
use coffee_traceability_back.Schema.{Text}
use coffee_traceability_back.World.{Env, Db}
use coffee_traceability_back.World.Keeps.{Keeps, Keeps-bind, Keeps-pure, keeps_rules}
use coffee_traceability_back.Credentials.{
  Crypto, AccessClaims, alphabet, glyph_at, group_size, draw, random_group, random_groups,
  generate_temporary_password, hash_password, sign_access_token, sign_refresh_token,
  verify_refresh_token, verify_access_token,
}

module _ (crypto : Crypto) {P : Db → Type 0} where
  draw-Keeps : (max : ℕ) → Keeps P (draw crypto max)
  unfolding draw
  draw-Keeps max = record { at = λ w h. h }

  random_group-Keeps : (n : ℕ) → Keeps P (random_group crypto n)
  unfolding random_group
  random_group-Keeps zero = search keeps_rules
  random_group-Keeps (suc n) =
      Keeps-bind _ _ (draw-Keeps (length alphabet))
        λ i. Keeps-bind _ _ (random_group-Keeps n) λ rest. Keeps-pure (glyph_at i alphabet ++ rest)

  random_groups-Keeps : (n : ℕ) → Keeps P (random_groups crypto n)
  unfolding random_groups
  random_groups-Keeps zero = search keeps_rules
  random_groups-Keeps (suc n) =
      Keeps-bind _ _ (random_group-Keeps group_size)
        λ group. Keeps-bind _ _ (random_groups-Keeps n) λ rest. Keeps-pure (group ∷ rest)

  pub generate-Keeps : Keeps P (generate_temporary_password crypto)
  unfolding generate_temporary_password
  generate-Keeps = search (keeps_rules, random_groups-Keeps) depth 8

  pub hash_password-Keeps : (plain : Text) → Keeps P (hash_password crypto plain)
  unfolding hash_password
  hash_password-Keeps plain = record { at = λ w h. h }

module _ (crypto : Crypto) (env : Env) {P : Db → Type 0} where
  pub sign_access_token-Keeps :
      (claims : AccessClaims) → Keeps P (sign_access_token crypto env claims)
  unfolding sign_access_token
  sign_access_token-Keeps claims = search keeps_rules depth 8

  pub sign_refresh_token-Keeps : (id : ℕ) → Keeps P (sign_refresh_token crypto env id)
  unfolding sign_refresh_token
  sign_refresh_token-Keeps id = search keeps_rules depth 8

  pub verify_refresh_token-Keeps : (token : Text) → Keeps P (verify_refresh_token crypto env token)
  unfolding verify_refresh_token
  verify_refresh_token-Keeps token = search keeps_rules depth 8

  pub verify_access_token-Keeps : (token : Text) → Keeps P (verify_access_token crypto env token)
  unfolding verify_access_token
  verify_access_token-Keeps token = search keeps_rules depth 8
