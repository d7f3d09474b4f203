-- ===== src/Groups/Reader.antt =====
-- src/domain/components/group/groups-reader.ts
use be.Store.{Uuid, Group, Action, Platform, ◌>>=◌, pure, or_throw, group_not_found}
use be.Prelude.{String}
use be.Paging.{Page, PaginationInput}
use be.Cursors.{get_group_cursor}
use be.Groups.Types.{ListedGroup}
use be.Groups.Repository
use be.Groups.Queries

module _ ⦃p : Platform⦄ where
  unfoldable pub read : Uuid → PaginationInput → Action (Page ListedGroup String)
  unfolding Queries.find_groups_by_user_id
  read user_id input = do
    groups ← Queries.find_groups_by_user_id user_id input
    pure (record { items = groups; next_cursor = get_group_cursor groups input.limit })

  unfoldable pub read_detail : Uuid → Action ListedGroup
  unfolding Queries.find_detail_by_id
  read_detail id = do or_throw (← Queries.find_detail_by_id id) group_not_found

  unfoldable pub read_one : Uuid → Uuid → Action Group
  unfolding Repository.find_one_by_group_and_owner_id
  read_one group_id owner_id = do
    or_throw (← Repository.find_one_by_group_and_owner_id group_id owner_id) group_not_found

  unfoldable pub read_one_by_id : Uuid → Action Group
  unfolding Repository.find_one_by_id
  read_one_by_id id = do or_throw (← Repository.find_one_by_id id) group_not_found
