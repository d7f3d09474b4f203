-- ===== src/Users/Reader.antt =====
-- src/domain/components/user/users-reader.ts
use be.Prelude.{String, List}
use be.Store.{Uuid, User, Action, Platform, ◌>>=◌, pure, or_throw, user_not_found}
use be.Paging.{Page, UserCursor}
use be.Cursors.{get_searched_cursor}
use be.Users.Types.{SearchedUser, SearchInput, UserDetail, Profile}
use be.Users.Repository
use be.Users.Queries

module _ ⦃p : Platform⦄ where
  unfoldable pub search : Uuid → SearchInput → Action (Page SearchedUser UserCursor)
  unfolding Queries.find_by_account_id_containing
  search user_id input = do
    users ← Queries.find_by_account_id_containing user_id input
    pure (record {
      items = users;
      next_cursor = get_searched_cursor users input.pagination_input.limit;
    })

  unfoldable pub read_detail : Uuid → Action UserDetail
  unfolding Queries.find_detail_by_id
  read_detail id = do or_throw (← Queries.find_detail_by_id id) user_not_found

  unfoldable pub read_profile : Uuid → Action Profile
  unfolding Queries.find_profile_by_id
  read_profile id = do or_throw (← Queries.find_profile_by_id id) user_not_found

  unfoldable pub read_one : Uuid → Action User
  unfolding Repository.find_one_by_id
  read_one user_id = do or_throw (← Repository.find_one_by_id user_id) user_not_found

  unfoldable pub read_one_by_email : String → Action User
  unfolding Repository.find_one_by_email
  read_one_by_email email = do or_throw (← Repository.find_one_by_email email) user_not_found

  unfoldable pub read_deleted_by_email : String → Action User
  unfolding Repository.find_deleted_by_email
  read_deleted_by_email email = do
    or_throw (← Repository.find_deleted_by_email email) user_not_found

  unfoldable pub read_one_by_account_id : String → Action User
  unfolding Repository.find_one_by_account_id
  read_one_by_account_id account_id = do
    or_throw (← Repository.find_one_by_account_id account_id) user_not_found

  unfoldable pub read_multi : List Uuid → Action (List User)
  unfolding Repository.find_users_by_ids
  read_multi user_ids = Repository.find_users_by_ids user_ids
