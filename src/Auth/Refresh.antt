-- ===== src/Auth/Refresh.antt =====
-- `refreshAccessToken` of src/domain/services/auth/auth.service.ts.
use be.Prelude.{
  String, true, some, List, [], ◌∷◌, ◌≡◌, ◌≢◌, refl, arith, replace, suc, str_eq_iff, All, All-Memᴰ,
  Option-cases, inl, inr, Bool-cases,
}
use be.Store.{Uuid, Time, RefreshToken, World, ok, err, Platform, TokenPayload, unauthorized}
use be.Auth.TokenRepository.{is_of}
use be.Auth.Service.{
  Tokens, refresh_access_token, check_valid_refresh_token, generate_tokens, generate_token,
}

-- Every token stored for a device of a user is this one.
abbrev pub HasOnly : Uuid → String → String → World → Type 0
HasOnly user device token w =
    All (λ t. is_of user device t ≡ true → t.token ≡ token) w.refresh_tokens

abbrev pub renewed : String → Time → RefreshToken → RefreshToken
renewed token t row = record row { token = token; updated_at = t }

pub renewed-HasOnly :
    (user : Uuid) (device token : String) (t : Time) (table : List RefreshToken)
    → All
        (λ s. is_of user device s ≡ true → s.token ≡ token)
        (replace (is_of user device) (renewed token t) table)
renewed-HasOnly user device token t [] = tt
renewed-HasOnly user device token t (row ∷ table) = (
  elim (Bool-cases (is_of user device row)) [
    | inl fit ↦ rw fit (λ _. refl)
    | inr unfit ↦ λ e. ground arith
  ],
  renewed-HasOnly user device token t table,
)

module _ ⦃p : Platform⦄ where
  -- After a refresh that returned tokens, every token stored for the device of the token's user is
  -- the new refresh token.
  pub refresh_access_token-HasOnly :
      (token device : String) (payload : TokenPayload) (tokens : Tokens) (w : World)
      → p.verify token (p.clock w.ticks) ≡ some payload
      → (refresh_access_token (some token) (some device) w).0 ≡ ok tokens
      → HasOnly payload.user_id device tokens.refresh_token
          (refresh_access_token (some token) (some device) w).1
  unfolding refresh_access_token generate_tokens generate_token check_valid_refresh_token
  refresh_access_token-HasOnly token device payload tokens w v e =
      let t = p.clock (suc (suc (suc w.ticks))) in
      let new =
        p.sign (record { user_id = payload.user_id; device_id = device }) p.refresh_token_expiration
          (p.clock (suc (suc w.ticks))) in
      let only = renewed-HasOnly payload.user_id device new t w.refresh_tokens in
      ground
        (arith, p.update_lem (is_of payload.user_id device) (renewed new t) w.refresh_tokens, only)

  -- A refresh with a verified and non-empty token other than the one stored for the device of its
  -- user is refused as unauthorized.
  pub refresh_access_token-other :
      (token other device : String) (payload : TokenPayload) (w : World)
      → p.verify other (p.clock w.ticks) ≡ some payload
      → HasOnly payload.user_id device token w
      → other ≢ token
      → other ≢ ""
      → (refresh_access_token (some other) (some device) w).0 ≡ err unauthorized
  unfolding refresh_access_token check_valid_refresh_token
  refresh_access_token-other token other device payload w v only ne nonempty =
      elim (Option-cases (p.find_first (is_of payload.user_id device) w.refresh_tokens)) [
        | inl missing ↦ ground (arith, str_eq_iff other "")
        | inr (row, found) ↦
            let (m, fits) =
              p.find_first_some (is_of payload.user_id device) w.refresh_tokens row found in
            let same =
              All-Memᴰ (λ t. is_of payload.user_id device t ≡ true → t.token ≡ token)
                w.refresh_tokens only m fits in
            ground (arith, str_eq_iff other "", str_eq_iff row.token other, same)
      ]
