-- ===== src/Users/Withdrawal.antt =====
-- `withdraw` of src/domain/services/user/users.service.ts.
use be.Prelude.{
  String, Bool, false, not, Option, none, some, ◌≡◌, arith, ◌==◌, if◌then◌else◌, some_of, keep,
  replace, suc,
}
use be.Store.{
  Uuid, World, ok, err, Platform, revoke_failed, record_not_found, unique_violation, rolled_back,
  transactional-eq,
}
use be.Notifications.Entities.{if_truthy}
use be.Users.Repository.{user_clash}
use be.Users.Keys.{is_taken, withdrawn, takes_key-is_taken}
use be.Users.Service.{withdraw, withdraw_transaction, withdraw_body}

-- The authorization is to be revoked, and Apple refuses.
abbrev pub is_refused : (String → Bool) → Option String → Bool
is_refused revokes none = false
is_refused revokes (some code) = not (revokes code)

module _ ⦃p : Platform⦄ where
  -- A withdrawal is refused if Apple refuses a given code, meets the error of the missing row if
  -- there is no account and that of the unique key if another account with its email or account id
  -- is withdrawn at the very time, and otherwise marks the account as deleted, clears its
  -- notification token and removes all its refresh tokens; what throws leaves accounts and tokens
  -- as they were.
  pub withdraw-verdict :
      (user : Uuid) (code : Option String) (w : World)
      → withdraw user code w ≡ (
          if is_refused p.revokes (if_truthy code)
          then (err revoke_failed, w)
          else if not (some_of (λ u. u.id == user) w.users)
          then (err record_not_found, record w { ticks = suc w.ticks })
          else if is_taken user (p.clock w.ticks) w.users
          then (err unique_violation, record w { ticks = suc w.ticks })
          else (
            ok tt,
            record w {
              users = replace (λ u. u.id == user) (withdrawn (p.clock w.ticks)) w.users;
              refresh_tokens = keep (λ t. not (t.user_id == user)) w.refresh_tokens;
              ticks = suc w.ticks;
            },
          ))
  unfolding withdraw withdraw_transaction withdraw_body rolled_back
  withdraw-verdict user code w = ground (
    arith,
    transactional-eq (withdraw_body user) w,
    p.delete_many_lem (λ t. t.user_id == user) w.refresh_tokens,
    p.update_unique_lem user_clash (λ u. u.id == user) (withdrawn (p.clock w.ticks)) w.users,
    takes_key-is_taken user (p.clock w.ticks) w.users,
  )
