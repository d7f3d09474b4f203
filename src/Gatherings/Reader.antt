-- ===== src/Gatherings/Reader.antt =====
-- src/domain/components/gathering/gatherings-reader.ts
use be.Store.{Uuid, Gathering, Action, Platform, ◌>>=◌, pure, or_throw, gathering_not_found}
use be.Paging.{Page, DateIdCursor, DateIdPaginationInput, PaginatedDateRangeInput}
use be.Cursors.{get_gathering_cursor, get_ended_gathering_cursor}
use be.Gatherings.Types.{ListedGathering, EndedGathering, GatheringDetail}
use be.Gatherings.Repository
use be.Gatherings.Queries

module _ ⦃p : Platform⦄ where
  unfoldable pub read_unwritten_feed :
      Uuid → DateIdPaginationInput → Action (Page ListedGathering DateIdCursor)
  unfolding Queries.find_gatherings_without_feed_by_user_id
  read_unwritten_feed user_id input = do
    gatherings ← Queries.find_gatherings_without_feed_by_user_id user_id input
    pure (record { items = gatherings; next_cursor = get_gathering_cursor gatherings input.limit })

  unfoldable pub read : Uuid → PaginatedDateRangeInput → Action (Page ListedGathering DateIdCursor)
  unfolding Queries.find_by_user_id
  read user_id input = do
    gatherings ← Queries.find_by_user_id user_id input
    pure (record { items = gatherings; next_cursor = get_gathering_cursor gatherings input.limit })

  unfoldable pub read_all :
      Uuid → PaginatedDateRangeInput → Action (Page ListedGathering DateIdCursor)
  unfolding Queries.find_all_by_user_id
  read_all user_id input = do
    gatherings ← Queries.find_all_by_user_id user_id input
    pure (record { items = gatherings; next_cursor = get_gathering_cursor gatherings input.limit })

  unfoldable pub read_ended :
      Uuid → PaginatedDateRangeInput → Action (Page EndedGathering DateIdCursor)
  unfolding Queries.find_ended_gatherings_by_user_id
  read_ended user_id input = do
    gatherings ← Queries.find_ended_gatherings_by_user_id user_id input
    pure (record {
      items = gatherings;
      next_cursor = get_ended_gathering_cursor gatherings input.limit;
    })

  unfoldable pub read_detail : Uuid → Action GatheringDetail
  unfolding Queries.find_detail_by_id
  read_detail gathering_id = do
    or_throw (← Queries.find_detail_by_id gathering_id) gathering_not_found

  unfoldable pub read_one : Uuid → Action Gathering
  unfolding Repository.find_one_by_id
  read_one id = do or_throw (← Repository.find_one_by_id id) gathering_not_found

  unfoldable pub read_one_by_id_and_host_id : Uuid → Uuid → Action Gathering
  unfolding Repository.find_one_by_id_and_host_id
  read_one_by_id_and_host_id id host_id = do
    or_throw (← Repository.find_one_by_id_and_host_id id host_id) gathering_not_found
