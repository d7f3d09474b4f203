-- ===== src/Auth/Login.antt =====
-- `login` of src/domain/services/auth/auth.service.ts.
use be.Prelude.{
  String, Bool, true, false, Option, none, some, List, [], ◌∷◌, ◌≡◌, refl, arith, ◌==◌,
  if◌then◌else◌, replace, suc, str_eq, All, ap, is_some, All-of_Memᴰ, Option-cases, inl, inr,
}
use mathlib.Core.List.{Memᴰ}
use mathlib.Core.Path.{subst}
use be.Store.{
  Uuid, Time, User, RefreshToken, Provider, UserInfo, World, Error, Result, ok, err, Platform,
  TokenPayload, ⊤, Result-cases, transactional-eq, rolled_back, takes_key,
}
use be.Dates.Limits.{calc_date_diff-is_below}
use be.Users.Repository.{user_clash}
use be.Users.Keys.{takes_key-active}
use be.Users.AccountIds.{is_kept}
use be.Auth.TokenRepository.{is_of, token_clash}
use be.Auth.Refresh.{HasOnly, renewed, renewed-HasOnly}
use be.Auth.Service.{
  LoginInput, LoginSession, login, same_provider, handle_store_refresh_token, store_refresh_token,
  restore_user, restore_body, get_validated_user_by_email, refresh_token_entity, generate_tokens,
  generate_token, is_recent, is_gone,
}

-- The account of a user who may log in with this provider: with the email that the provider tells,
-- of this provider, and active or withdrawn less than 30 days ago.
abbrev pub IsAdmitted : UserInfo → Provider → Time → World → User → Type 0
IsAdmitted info provider today w u =
    Memᴰ u w.users
    × (str_eq u.email info.email ≡ true)
    × (same_provider u.provider provider ≡ true)
    × (is_kept today u.deleted_at ≡ true)

abbrev restored : User → User
restored u = record u { deleted_at = none }

-- An account that is restored takes no key of another.
untaken :
    (user : Uuid) (t : List User) → takes_key user_clash (λ u. u.id == user) restored t ≡ false
untaken user t = takes_key-active user restored t (All-of_Memᴰ t λ u m e. (refl, refl))

module _ ⦃p : Platform⦄ where
  kept_if :
      (today : Time) (deleted_at : Option Time)
      → is_gone today deleted_at ≡ false
      → is_kept today deleted_at ≡ true
  unfolding is_gone is_recent
  kept_if today none e = refl
  kept_if today (some t) e = ground (arith, calc_date_diff-is_below today t 30)

  absent-HasOnly :
      (user : Uuid) (device token : String) (t : List RefreshToken)
      → All (λ r. is_of user device r ≡ false) t
      → All (λ r. is_of user device r ≡ true → r.token ≡ token) t
  absent-HasOnly user device token [] h = tt
  absent-HasOnly user device token (r ∷ t) (h, hs) =
      (λ e. ground arith, absent-HasOnly user device token t hs)

  pub handle_store_refresh_token-HasOnly :
      (user : Uuid) (device token : String) (w : World)
      → (handle_store_refresh_token user device token w).0 ≡ ok tt
      → HasOnly user device token (handle_store_refresh_token user device token w).1
  unfolding handle_store_refresh_token store_refresh_token
  handle_store_refresh_token-HasOnly user device token w e =
      elim (Option-cases (p.find_first (is_of user device) w.refresh_tokens)) [
        | inl missing ↦
            let absent = p.find_first_none (is_of user device) w.refresh_tokens missing in
            let only = absent-HasOnly user device token w.refresh_tokens absent in
            ground (
              arith,
              p.create_lem token_clash (refresh_token_entity user device token (p.clock w.ticks))
                  w.refresh_tokens,
              only,
            )
        | inr (r, found) ↦
            let only = renewed-HasOnly user device token (p.clock w.ticks) w.refresh_tokens in
            ground (
              arith,
              p.update_lem (is_of user device) (renewed token (p.clock w.ticks)) w.refresh_tokens,
              only,
            )
      ]

  restore_user-HasOnly :
      (user : Uuid) (device token : String) (w : World)
      → (restore_user user device token w).0 ≡ ok tt
      → HasOnly user device token (restore_user user device token w).1
  unfolding restore_user restore_body
  restore_user-HasOnly user device token w e =
      let reset : World = record w { users = replace (λ u. u.id == user) restored w.users } in
      let stored = handle_store_refresh_token-HasOnly user device token reset in
      ground (
        arith,
        transactional-eq (restore_body user device token) w,
        p.update_unique_lem user_clash (λ u. u.id == user) restored w.users,
        untaken user w.users,
        stored,
      )

  get_validated_user_by_email-IsAdmitted :
      (provider : Provider) (info : UserInfo) (today : Time) (w : World) (u : User)
      → (get_validated_user_by_email provider info today w).0 ≡ ok u
      → IsAdmitted info provider today w u
  unfolding get_validated_user_by_email is_recent
  get_validated_user_by_email-IsAdmitted provider info today w u e =
      elim (Option-cases
        (p.find_latest (λ u. str_eq u.email info.email) (λ u. u.deleted_at) w.users)) [
          | inl missing ↦ ground arith
          | inr (v, found) ↦
              let (m, fits, last) =
                p.find_latest_some (λ u. str_eq u.email info.email) (λ u. u.deleted_at) w.users v
                  found in
              let same : v ≡ u = ground (arith, Option-cases v.deleted_at) in
              let provided : same_provider v.provider provider ≡ true =
                ground (arith, Option-cases v.deleted_at) in
              let kept : is_kept today v.deleted_at ≡ true =
                kept_if today v.deleted_at (ground arith) in
              subst (IsAdmitted info provider today w) same (m, fits, provided, kept)
        ]

  validated-state :
      (provider : Provider) (info : UserInfo) (today : Time) (w : World)
      → (get_validated_user_by_email provider info today w).1 ≡ w
  unfolding get_validated_user_by_email
  validated-state provider info today w = ground arith

  -- What a login does with the new token, for an account that is withdrawn or not.
  abbrev stores : Bool → Uuid → String → String → World → Result ⊤ × World
  stores withdrawn user device token =
      if withdrawn
      then restore_user user device token
      else handle_store_refresh_token user device token

  stores-HasOnly :
      (withdrawn : Bool) (user : Uuid) (device token : String) (w w' : World)
      → stores withdrawn user device token w ≡ (ok tt, w')
      → HasOnly user device token w'
  stores-HasOnly true user device token w w' e =
      subst (HasOnly user device token) (ap (λ o. o.1) e)
        (restore_user-HasOnly user device token w (ap (λ o. o.0) e))
  stores-HasOnly false user device token w w' e =
      subst (HasOnly user device token) (ap (λ o. o.1) e)
        (handle_store_refresh_token-HasOnly user device token w (ap (λ o. o.0) e))

  handle_store_failed :
      (user : Uuid) (device token : String) (w w' : World) (x : Error)
      → handle_store_refresh_token user device token w ≡ (err x, w')
      → (w'.users ≡ w.users) × (w'.refresh_tokens ≡ w.refresh_tokens)
  unfolding handle_store_refresh_token store_refresh_token
  handle_store_failed user device token w w' x e = ground arith

  stores_failed :
      (withdrawn : Bool) (user : Uuid) (device token : String) (w w' : World) (x : Error)
      → stores withdrawn user device token w ≡ (err x, w')
      → (w'.users ≡ w.users) × (w'.refresh_tokens ≡ w.refresh_tokens)
  unfolding restore_user restore_body rolled_back
  stores_failed true user device token w w' x e =
      let reset : World = record w { users = replace (λ u. u.id == user) restored w.users } in
      let failed = handle_store_failed user device token reset in
      ground (
        arith,
        transactional-eq (restore_body user device token) w,
        p.update_unique_lem user_clash (λ u. u.id == user) restored w.users,
        untaken user w.users,
        Result-cases (handle_store_refresh_token user device token reset),
        failed,
      )
  stores_failed false user device token w w' x e = handle_store_failed user device token w w' x e

  -- Who was logged in, and which token the device then has.
  abbrev pub LoggedIn : LoginInput → Time → World → Result LoginSession × World → Type 0
  LoggedIn input today w (ok s, w') =
      (device : String) × (info : UserInfo) × (u : User) × (input.device_id ≡ some device)
      × (p.oauth_user_info input.provider input.provider_access_token ≡ some info)
      × IsAdmitted info input.provider today w u
      × (s.id ≡ u.id)
      × HasOnly u.id device s.tokens.refresh_token w'
  LoggedIn input today w (err _, w') = (w'.users ≡ w.users) × (w'.refresh_tokens ≡ w.refresh_tokens)

  -- A login that returns was given a device and a token that the OAuth provider answers for,
  -- logged in an account with the email of that answer and of that provider that is active or was
  -- withdrawn less than 30 days before, and every token stored for the device of the account is
  -- the refresh token it returned; one that throws leaves accounts and tokens as they were.
  pub login-LoggedIn :
      (input : LoginInput) (today : Time) (w : World) → LoggedIn input today w (login input today w)
  unfolding login generate_tokens generate_token
  login-LoggedIn input today w = elim (Option-cases input.device_id) [
    | inl missing ↦ ground arith
    | inr (device, given) ↦
        elim (Option-cases (p.oauth_user_info input.provider input.provider_access_token)) [
          | inl refused ↦ ground arith
          | inr (info, told) ↦
              elim (Result-cases (get_validated_user_by_email input.provider info today w)) [
                | inr (x, w1, e) ↦ ground (arith, validated-state input.provider info today w)
                | inl (u, w1, e) ↦
                    let admitted =
                      get_validated_user_by_email-IsAdmitted input.provider info today w u
                        (ground arith) in
                    let w2 : World = record w { ticks = suc (suc w.ticks) } in
                    let payload : TokenPayload = record { user_id = u.id; device_id = device } in
                    let new = p.sign payload p.refresh_token_expiration (p.clock (suc w.ticks)) in
                    elim (Result-cases (stores (is_some u.deleted_at) u.id device new w2)) [
                      | inr (x, w3, failed) ↦ ground (
                        arith,
                        validated-state input.provider info today w,
                        stores_failed (is_some u.deleted_at) u.id device new w2 w3 x failed,
                      )
                      | inl (done, w3, stored) ↦
                          let s : LoginSession = record {
                            id = u.id;
                            tokens = record {
                              access_token =
                                  p.sign payload p.access_token_expiration (p.clock w.ticks);
                              refresh_token = new;
                            };
                            account_id = u.account_id;
                            profile_image_url = u.profile_image_url;
                          } in
                          let eq : login input today w ≡ (ok s, w3) =
                            ground (arith, validated-state input.provider info today w) in
                          let only =
                            stores-HasOnly (is_some u.deleted_at) u.id device new w2 w3 stored in
                          rw eq (device, info, u, given, told, admitted, refl, only)
                    ]
              ]
        ]
  ]
