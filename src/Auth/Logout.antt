-- ===== src/Auth/Logout.antt =====
-- `logout` of src/domain/services/auth/auth.service.ts.
use be.Prelude.{String, not, none, some, ◌≡◌, arith, ◌==◌, if◌then◌else◌, some_of, keep, replace}
use be.Store.{Uuid, World, ok, err, Platform, record_not_found, rolled_back, transactional-eq}
use be.Auth.TokenRepository.{is_of}
use be.Auth.Service.{logout, logout_transaction, logout_body}

module _ ⦃p : Platform⦄ where
  -- Logging out of a device without a stored token meets the error of the missing row and changes
  -- nothing; with one it removes the token, also where the call then throws since there is no
  -- account, whose notification token it clears otherwise.
  pub logout-verdict :
      (user : Uuid) (device : String) (w : World)
      → logout user (some device) w ≡ (
          if not (some_of (is_of user device) w.refresh_tokens)
          then (err record_not_found, w)
          else if some_of (λ u. u.id == user) w.users
          then (
            ok tt,
            record w {
              refresh_tokens = keep (λ t. not (is_of user device t)) w.refresh_tokens;
              users =
                  replace (λ u. u.id == user) (λ u. record u { notification_token = none }) w.users;
            },
          )
          else (
            err record_not_found,
            record w { refresh_tokens = keep (λ t. not (is_of user device t)) w.refresh_tokens },
          ))
  unfolding logout logout_transaction logout_body rolled_back
  logout-verdict user device w = ground (
    arith,
    transactional-eq (logout_body user device) w,
    p.delete_lem (is_of user device) w.refresh_tokens,
    p.update_lem (λ u. u.id == user) (λ u. record u { notification_token = none }) w.users,
  )
