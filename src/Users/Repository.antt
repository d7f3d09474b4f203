-- ===== src/Users/Repository.antt =====
-- src/infrastructure/repositories/user/users-prisma.repository.ts: the lookups and the writes.
use be.Prelude.{
  String, Bool, false, not, ◌&&◌, ◌||◌, Option, none, some, List, ◌==◌, str_eq, is_some, one_of,
}
use be.Store.{
  Uuid, Time, User, Action, Platform, ⊤, gets, or_throw, or_rethrow, modify, ◌>>=◌, now,
  unique_violation, record_not_found,
}

-- The unique keys of the table: the id, and (email, deletedAt) and (accountId, deletedAt), which do
-- not bind where `deletedAt` is null.
unfoldable pub same_deletion : Option Time → Option Time → Bool
same_deletion (some s) (some t) = s == t
same_deletion _ _ = false

unfoldable pub user_clash : User → User → Bool
unfolding same_deletion
user_clash u v =
    u.id == v.id
    || (str_eq u.email v.email || str_eq u.account_id v.account_id)
      && same_deletion u.deleted_at v.deleted_at

-- The rows of the view `active_user`.
abbrev pub is_active : Uuid → User → Bool
is_active id u = u.id == id && not (is_some u.deleted_at)

module _ ⦃p : Platform⦄ where
  unfoldable pub save : User → Action ⊤
  unfolding user_clash
  save user = do
    table ← gets (λ w. w.users)
    table' ← or_throw (p.create user_clash user table) unique_violation
    modify (λ w. record w { users = table' })

  -- `orderBy: { deletedAt: 'desc' }`: an active account before the withdrawn ones, and of those the
  -- last.
  unfoldable pub find_one_by_email : String → Action (Option User)
  find_one_by_email email =
      gets (λ w. p.find_latest (λ u. str_eq u.email email) (λ u. u.deleted_at) w.users)

  unfoldable pub find_one_by_account_id : String → Action (Option User)
  find_one_by_account_id account_id =
      gets (λ w. p.find_first (λ u. str_eq u.account_id account_id) w.users)

  unfoldable pub find_one_by_id : Uuid → Action (Option User)
  find_one_by_id id = gets (λ w. p.find_first (is_active id) w.users)

  unfoldable pub find_users_by_ids : List Uuid → Action (List User)
  find_users_by_ids ids =
      gets (λ w. p.find_many (λ u. not (is_some u.deleted_at) && one_of ids u.id) w.users)

  unfoldable pub find_deleted_by_email : String → Action (Option User)
  find_deleted_by_email email =
      gets (λ w. p.find_first (λ u. str_eq u.email email && is_some u.deleted_at) w.users)

  unfoldable pub update : Uuid → (User → User) → Action ⊤
  update id change = do
    table ← gets (λ w. w.users)
    table' ← or_throw (p.update (λ u. u.id == id) change table) record_not_found
    modify (λ w. record w { users = table' })

  -- The same method, where it is given the account id or `deletedAt`, of which the keys consist.
  unfoldable pub update_key : Uuid → (User → User) → Action ⊤
  unfolding user_clash
  update_key id change = do
    table ← gets (λ w. w.users)
    table' ← or_rethrow (p.update_unique user_clash (λ u. u.id == id) change table)
    modify (λ w. record w { users = table' })

  unfoldable pub delete : Uuid → Action ⊤
  unfolding update_key now
  delete id = do
    deleted_at ← now
    update_key id (λ u. record u { deleted_at = some deleted_at; notification_token = none })
