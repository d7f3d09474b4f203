-- ===== src/Users/Writer.antt =====
-- src/domain/components/user/users-writer.ts
use be.Prelude.{String, true, none, some}
use be.Store.{Uuid, User, Action, Platform, ⊤, ◌>>=◌, now}
use be.Users.Repository

module _ ⦃p : Platform⦄ where
  unfoldable pub create : User → Action ⊤
  unfolding Repository.save
  create user = Repository.save user

  unfoldable pub update_profile_image : Uuid → String → Action ⊤
  unfolding Repository.update
  update_profile_image user_id url =
      Repository.update user_id (λ u. record u { profile_image_url = some url })

  unfoldable pub update_account_id : Uuid → String → Action ⊤
  unfolding Repository.update_key now
  update_account_id user_id account_id = do
    updated_at ← now
    Repository.update_key user_id
        (λ u. record u { updated_at = updated_at; account_id = account_id })

  unfoldable pub update_notification_token : String → Uuid → Action ⊤
  unfolding Repository.update
  update_notification_token token user_id =
      Repository.update user_id
        (λ u. record u { notification_token = some token; service_notification_consent = true })

  unfoldable pub reset_deleted_at : Uuid → Action ⊤
  unfolding Repository.update_key
  reset_deleted_at id = Repository.update_key id (λ u. record u { deleted_at = none })

  unfoldable pub clear_notification_token : Uuid → Action ⊤
  unfolding Repository.update
  clear_notification_token id = Repository.update id (λ u. record u { notification_token = none })

  unfoldable pub delete : Uuid → Action ⊤
  unfolding Repository.delete
  delete id = Repository.delete id
