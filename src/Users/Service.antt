-- ===== src/Users/Service.antt =====
-- src/domain/services/user/users.service.ts. The call to Apple is a parameter; the client secret
-- that goes with it is not modelled.
use be.Prelude.{String, Bool, not, ◌&&◌, Option, none, some, ◌==◌, if◌then◌else◌}
use be.Store.{
  Uuid, Time, User, Action, Platform, ⊤, ◌>>=◌, ◌>>◌, pure, throw, throw_if, try_catch, now,
  is_user_not_found, duplicate_account_id, unprocessable_entity, revoke_failed,
}
use be.Dates.{calc_date_diff, TimeUnit, is_below}
use be.Users.Reader
use be.Users.Writer
use be.Auth.TokenRepository
use be.Notifications.Entities.{if_truthy}

module _ ⦃p : Platform⦄ where
  unfoldable pub change_profile_image : Uuid → String → Action ⊤
  unfolding Writer.update_profile_image
  change_profile_image user_id url = Writer.update_profile_image user_id url

  -- The account id was changed less than 30 days ago, and not only set at the registration.
  cools_down : Time → User → Bool
  unfolding calc_date_diff
  cools_down today user =
      not (user.created_at == user.updated_at)
      && is_below (calc_date_diff today user.updated_at TimeUnit.d) 30

  unfoldable pub check_account_id_change_cooldown : Uuid → Time → Action ⊤
  unfolding Reader.read_one cools_down
  check_account_id_change_cooldown user_id today = do
    user ← Reader.read_one user_id
    throw_if (cools_down today user) unprocessable_entity

  refuse_taken : Time → Option Time → Action ⊤
  unfolding calc_date_diff
  refuse_taken today none = throw duplicate_account_id
  refuse_taken today (some deleted_at) =
      throw_if (is_below (calc_date_diff today deleted_at TimeUnit.d) 30) duplicate_account_id

  unfoldable pub check_duplicate_account_id : String → Time → Action ⊤
  unfolding Reader.read_one_by_account_id refuse_taken
  check_duplicate_account_id account_id today =
      try_catch
        (do user ← Reader.read_one_by_account_id account_id; refuse_taken today user.deleted_at)
        (λ e. if is_user_not_found e then pure tt else throw e)

  unfoldable pub change_account_id : Uuid → String → Time → Action ⊤
  unfolding check_account_id_change_cooldown now check_duplicate_account_id Writer.update_account_id
  change_account_id user_id account_id today = do
    check_account_id_change_cooldown user_id today
    today' ← now
    check_duplicate_account_id account_id today'
    Writer.update_account_id user_id account_id

  unfoldable pub withdraw_body : Uuid → Action ⊤
  unfolding Writer.delete TokenRepository.delete_all
  withdraw_body user_id = do Writer.delete user_id; TokenRepository.delete_all user_id

  unfoldable pub withdraw_transaction : Uuid → Action ⊤
  withdraw_transaction user_id = p.transactional (withdraw_body user_id)

  revoke : Option String → Action ⊤
  revoke none = pure tt
  revoke (some code) = throw_if (not (p.revokes code)) revoke_failed

  unfoldable pub withdraw : Uuid → Option String → Action ⊤
  unfolding revoke withdraw_transaction
  withdraw user_id authorization_code = do
    revoke (if_truthy authorization_code)
    withdraw_transaction user_id
