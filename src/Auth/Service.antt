-- ===== src/Auth/Service.antt =====
-- src/domain/services/auth/auth.service.ts, with the entities of users and refresh tokens.
use be.Prelude.{String, Bool, true, false, not, Option, none, some, if◌then◌else◌, str_eq, is_some}
use be.Store.{
  Uuid, Time, User, RefreshToken, Provider, UserInfo, Error, Action, Platform, TokenPayload, ⊤,
  ◌>>=◌, ◌>>◌, pure, throw, throw_if, try_catch, or_throw, now, v4, is_user_not_found, bad_request,
  not_found, unauthorized, oauth_failed, duplicate_email, duplicate_account_id, user_not_registered,
  registerd_other_platform,
}
use be.Dates.{calc_date_diff, TimeUnit, is_below}
use be.Users.Reader as UsersReader
use be.Users.Writer as UsersWriter
use be.Auth.TokenRepository
use be.Notifications.Entities.{if_truthy}

pub record LoginInput : Type 0 where
  pub provider : Provider
  pub provider_access_token : String
  pub device_id : Option String

pub record UserPrototype : Type 0 where
  pub email : String
  pub name : String
  pub account_id : String
  pub profile_image_url : Option String
  pub provider : Provider
  pub terms_of_service_consent : Bool
  pub privacy_policy_consent : Bool

pub record Tokens : Type 0 where
  pub access_token : String
  pub refresh_token : String

-- What `register` returns of the user, with the tokens.
pub record Session : Type 0 where
  pub id : Uuid
  pub tokens : Tokens
  pub account_id : String

-- What `login` returns of the user, with the tokens.
pub record LoginSession : Type 0 where
  pub id : Uuid
  pub tokens : Tokens
  pub account_id : String
  pub profile_image_url : Option String

-- `UserEntity.create`, at the id that the generator gave.
abbrev pub user_entity : UserPrototype → Uuid → Time → User
user_entity input id std_date = record {
  id = id;
  email = input.email;
  name = input.name;
  account_id = input.account_id;
  provider = input.provider;
  profile_image_url = input.profile_image_url;
  terms_of_service_consent = input.terms_of_service_consent;
  privacy_policy_consent = input.privacy_policy_consent;
  notification_token = none;
  created_at = std_date;
  updated_at = std_date;
  deleted_at = none;
  service_notification_consent = false;
  marketing_notification_consent = false;
}

-- `RefreshTokenEntity.create`
abbrev pub refresh_token_entity : Uuid → String → String → Time → RefreshToken
refresh_token_entity user_id device_id token std_date = record {
  user_id = user_id;
  device_id = device_id;
  token = token;
  created_at = std_date;
  updated_at = std_date;
}

abbrev pub same_provider : Provider → Provider → Bool
same_provider Provider.google Provider.google = true
same_provider Provider.kakao Provider.kakao = true
same_provider Provider.apple Provider.apple = true
same_provider _ _ = false

module _ ⦃p : Platform⦄ where
  unfoldable pub validate_device_id : Option String → Action String
  validate_device_id device_id = or_throw device_id bad_request

  -- The withdrawal is too recent to give the email or the account id to somebody else.
  unfoldable pub is_recent : Time → Time → Bool
  unfolding calc_date_diff
  is_recent today deleted_at = is_below (calc_date_diff today deleted_at TimeUnit.d) 30

  refuse_recent : Time → Error → Option Time → Action ⊤
  unfolding is_recent
  refuse_recent today e none = pure tt
  refuse_recent today e (some deleted_at) = throw_if (is_recent today deleted_at) e

  unfoldable pub check_duplicate_email : String → Time → Action ⊤
  unfolding UsersReader.read_deleted_by_email refuse_recent
  check_duplicate_email email today =
      try_catch
        (do
          user ← UsersReader.read_deleted_by_email email
          refuse_recent today duplicate_email user.deleted_at)
        (λ e. if is_user_not_found e then pure tt else throw e)

  refuse_taken : Time → Option Time → Action ⊤
  unfolding is_recent
  refuse_taken today none = throw duplicate_account_id
  refuse_taken today (some deleted_at) = throw_if (is_recent today deleted_at) duplicate_account_id

  unfoldable pub check_duplicate_account_id : String → Time → Action ⊤
  unfolding UsersReader.read_one_by_account_id refuse_taken
  check_duplicate_account_id account_id today =
      try_catch
        (do
          user ← UsersReader.read_one_by_account_id account_id
          refuse_taken today user.deleted_at)
        (λ e. if is_user_not_found e then pure tt else throw e)

  unfoldable pub generate_token : TokenPayload → String → Action String
  unfolding now
  generate_token payload expires_in = do iat ← now; pure (p.sign payload expires_in iat)

  unfoldable pub generate_tokens : TokenPayload → Action Tokens
  unfolding generate_token
  generate_tokens payload = do
    access_token ← generate_token payload p.access_token_expiration
    refresh_token ← generate_token payload p.refresh_token_expiration
    pure (record { access_token = access_token; refresh_token = refresh_token })

  unfoldable pub store_refresh_token : Uuid → String → String → Action ⊤
  unfolding now TokenRepository.save
  store_refresh_token user_id device_id token = do
    std_date ← now
    TokenRepository.save (refresh_token_entity user_id device_id token std_date)

  unfoldable pub handle_store_refresh_token : Uuid → String → String → Action ⊤
  unfolding TokenRepository.find_one_by_user_id_and_device_id TokenRepository.update
      store_refresh_token
  handle_store_refresh_token user_id device_id new_token = do
    token ← TokenRepository.find_one_by_user_id_and_device_id user_id device_id
    if is_some token
        then TokenRepository.update user_id device_id new_token
        else store_refresh_token user_id device_id new_token

  unfoldable pub restore_body : Uuid → String → String → Action ⊤
  unfolding UsersWriter.reset_deleted_at handle_store_refresh_token
  restore_body user_id device_id token = do
    UsersWriter.reset_deleted_at user_id
    handle_store_refresh_token user_id device_id token

  unfoldable pub restore_user : Uuid → String → String → Action ⊤
  restore_user user_id device_id token = p.transactional (restore_body user_id device_id token)

  -- The account was withdrawn too long ago to be restored.
  unfoldable pub is_gone : Time → Option Time → Bool
  unfolding is_recent
  is_gone today none = false
  is_gone today (some deleted_at) = not (is_recent today deleted_at)

  unfoldable pub get_validated_user_by_email : Provider → UserInfo → Time → Action User
  unfolding UsersReader.read_one_by_email is_gone
  get_validated_user_by_email provider info today =
      try_catch
        (do
          user ← UsersReader.read_one_by_email info.email
          throw_if (is_gone today user.deleted_at) (user_not_registered info)
          throw_if (not (same_provider user.provider provider))
              (registerd_other_platform (record info { provider = user.provider }))
          pure user)
        (λ e. if is_user_not_found e then throw (user_not_registered info) else throw e)

  unfoldable pub login : LoginInput → Time → Action LoginSession
  unfolding validate_device_id get_validated_user_by_email generate_tokens restore_user
      handle_store_refresh_token
  login input today = do
    device_id ← validate_device_id input.device_id
    info ← or_throw (p.oauth_user_info input.provider input.provider_access_token) oauth_failed
    user ← get_validated_user_by_email input.provider info today
    tokens ← generate_tokens (record { user_id = user.id; device_id = device_id })
    (if is_some user.deleted_at
        then restore_user user.id device_id tokens.refresh_token
        else handle_store_refresh_token user.id device_id tokens.refresh_token)
    pure (record {
      id = user.id;
      tokens = tokens;
      account_id = user.account_id;
      profile_image_url = user.profile_image_url;
    })

  unfoldable pub create_user : UserPrototype → Action User
  unfolding now v4 UsersWriter.create
  create_user prototype = do
    std_date ← now
    id ← v4
    UsersWriter.create (user_entity prototype id std_date)
    pure (user_entity prototype id std_date)

  unfoldable pub register : UserPrototype → Option String → Action Session
  unfolding validate_device_id now check_duplicate_email check_duplicate_account_id create_user
      generate_tokens store_refresh_token
  register prototype device_id = do
    device_id' ← validate_device_id device_id
    today ← now
    check_duplicate_email prototype.email today
    today' ← now
    check_duplicate_account_id prototype.account_id today'
    user ← create_user prototype
    tokens ← generate_tokens (record { user_id = user.id; device_id = device_id' })
    store_refresh_token user.id device_id' tokens.refresh_token
    pure (record { id = user.id; tokens = tokens; account_id = user.account_id })

  has_token : String → Option RefreshToken → Bool
  has_token token none = false
  has_token token (some stored) = str_eq stored.token token

  unfoldable pub check_valid_refresh_token : Uuid → String → String → Action ⊤
  unfolding TokenRepository.find_one_by_user_id_and_device_id has_token
  check_valid_refresh_token user_id device_id token = do
    stored_token ← TokenRepository.find_one_by_user_id_and_device_id user_id device_id
    throw_if (not (has_token token stored_token)) unauthorized

  unfoldable pub refresh_access_token : Option String → Option String → Action Tokens
  unfolding validate_device_id now check_valid_refresh_token generate_tokens TokenRepository.update
  refresh_access_token refresh_token device_id = do
    device_id' ← validate_device_id device_id
    token ← or_throw (if_truthy refresh_token) not_found
    time ← now
    decoded ← or_throw (p.verify token time) unauthorized
    check_valid_refresh_token decoded.user_id device_id' token
    tokens ← generate_tokens (record { user_id = decoded.user_id; device_id = device_id' })
    TokenRepository.update decoded.user_id device_id' tokens.refresh_token
    pure tokens

  unfoldable pub logout_body : Uuid → String → Action ⊤
  unfolding TokenRepository.delete UsersWriter.clear_notification_token
  logout_body user_id device_id = do
    TokenRepository.delete user_id device_id
    UsersWriter.clear_notification_token user_id

  unfoldable pub logout_transaction : Uuid → String → Action ⊤
  logout_transaction user_id device_id = p.transactional (logout_body user_id device_id)

  unfoldable pub logout : Uuid → Option String → Action ⊤
  unfolding validate_device_id logout_transaction
  logout user_id device_id = do
    device_id' ← validate_device_id device_id
    logout_transaction user_id device_id'
