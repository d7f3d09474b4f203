-- ===== src/Feeds/Queries.antt =====
-- src/infrastructure/repositories/feed: the paginated lists of feeds, the detail of a feed and the
-- users who see a feed.
use be.Prelude.{
  String, Bool, true, false, not, ◌&&◌, ◌||◌, Option, none, some, List, [], ◌∷◌, ◌++◌, map, ◌==◌,
  ltb, leb, asc, is_some, keep, take, join, left_join, group_by, one_of, get, put, map_option,
  then_by,
}
use be.Store.{
  Uuid, Time, User, Feed, Gathering, GatheringParticipationStatus, FriendFeedVisibility, World,
  Action, Platform, gets, active_users, active_feeds, active_gatherings,
}
use be.Paging.{Order, DateIdCursor, DateIdPaginationInput, before_date_id, last_first}
use be.Users.Types.{MinimalUser, minimal}
use be.Feeds.Types.{ListedFeed, FeedDetail, FeedPaginationInput}
use be.Feeds.Repository.{is_id}
use be.Feeds.Rows.{find_feeds}

abbrev pub is_accepted : GatheringParticipationStatus → Bool
is_accepted GatheringParticipationStatus.accepted = true
is_accepted _ = false

abbrev pub in_some : List Uuid → Option Uuid → Bool
in_some ids none = false
in_some ids (some id) = one_of ids id

abbrev pub hosted_by : Uuid → Option Gathering → Bool
hosted_by user_id none = false
hosted_by user_id (some g) = g.host_user_id == user_id

abbrev pub blocked_ids : Uuid → World → List Uuid
blocked_ids user_id w = map (λ bf. bf.feed_id) (keep (λ bf. bf.user_id == user_id) w.blocked_feeds)

abbrev pub joined_ids : Uuid → World → List Uuid
joined_ids user_id w =
    map (λ gp. gp.gathering_id)
      (keep (λ gp. gp.participant_id == user_id && is_accepted gp.status)
        w.gathering_participations)

-- The feeds without a gathering that are shown to a user, of active writers.
abbrev pub visible_ids : Uuid → World → List Uuid
visible_ids user_id w =
    map (λ row. row.0.0.feed_id)
      (keep (λ row. row.0.0.user_id == user_id)
        (join (λ row u. u.id == row.1.writer_id)
          (join (λ fv f. f.id == fv.feed_id) w.friend_feed_visibilities (active_feeds w))
          (active_users w)))

-- What a user may see: the feeds of gatherings that the user hosts or takes part in, the user's own,
-- and those that are shown to the user.
abbrev pub may_see : Uuid → World → Feed → Option Gathering → Bool
may_see user_id w f g =
    hosted_by user_id g
    || f.writer_id == user_id
    || in_some (joined_ids user_id w) f.gathering_id
    || (not (is_some f.gathering_id) && one_of (visible_ids user_id w) f.id)

module _ ⦃p : Platform⦄ where
  -- `created_at > / < cursor.createdAt OR (created_at = cursor.createdAt AND id > cursor.id)`
  unfoldable pub past_cursor : Order → DateIdCursor → Time → Uuid → Bool
  unfolding before_date_id
  past_cursor Order.desc cursor created_at id = before_date_id cursor created_at id
  past_cursor Order.asc cursor created_at id =
      ltb (p.date cursor.created_at) created_at
      || (created_at == p.date cursor.created_at && ltb cursor.id id)

  unfoldable pub feed_order : {A : Type 0} → Order → (A → Feed) → A → A → Bool
  unfolding last_first
  feed_order Order.desc feed = last_first (λ x. (feed x).created_at) (λ x. (feed x).id)
  feed_order Order.asc feed = then_by (asc (λ x. (feed x).created_at)) (asc (λ x. (feed x).id))

  abbrev pub in_range : String → String → Time → Bool
  in_range min_date max_date time = leb (p.date min_date) time && leb time (p.date max_date)

  unfoldable pub find_all_by_user_id : Uuid → FeedPaginationInput → Action (List ListedFeed)
  unfolding find_feeds past_cursor feed_order
  find_all_by_user_id user_id input = find_feeds user_id input.order (λ w.
      map (λ row. row.0.id)
        (take input.limit (
          p.order_by (feed_order input.order (λ row. row.0)) (
            keep
              (λ row.
                not (one_of (blocked_ids user_id w) row.0.id)
                && may_see user_id w row.0 row.1
                && in_range input.min_date input.max_date row.0.created_at
                && past_cursor input.order input.cursor row.0.created_at row.0.id)
              (left_join (λ f g. is_id f.gathering_id g.id) (active_feeds w)
                (active_gatherings w))))))

  unfoldable pub find_by_user_id : Uuid → FeedPaginationInput → Action (List ListedFeed)
  unfolding find_feeds past_cursor feed_order
  find_by_user_id user_id input = find_feeds user_id input.order (λ w.
      map (λ f. f.id)
        (take input.limit (
          p.order_by (feed_order input.order (λ f. f)) (
            group_by (λ f g. f.id == g.id && f.created_at == g.created_at)
              (keep
                (λ f.
                  not (one_of (blocked_ids user_id w) f.id)
                  && f.writer_id == user_id
                  && in_range input.min_date input.max_date f.created_at
                  && past_cursor input.order input.cursor f.created_at f.id)
                (active_feeds w))))))

  unfoldable pub find_blocked_feeds_by_user_id :
      Uuid → DateIdPaginationInput → Action (List ListedFeed)
  unfolding find_feeds before_date_id last_first
  find_blocked_feeds_by_user_id user_id input = find_feeds user_id Order.desc (λ w.
      map (λ row. row.1.id)
        (take input.limit (
          p.order_by (last_first (λ row. row.1.created_at) (λ row. row.1.id)) (
            keep
              (λ row.
                row.0.user_id == user_id && before_date_id input.cursor row.1.created_at row.1.id)
              (join (λ bf f. bf.feed_id == f.id) w.blocked_feeds (active_feeds w))))))

  -- The comments are counted with those that are deleted.
  abbrev pub detail_of : Uuid → World → Feed × User → FeedDetail
  detail_of id w row = record {
    id = row.0.id;
    content = row.0.content;
    created_at = row.0.created_at;
    gathering_id = row.0.gathering_id;
    writer = minimal row.1;
    images =
        map (λ i. i.url)
          (p.order_by (asc (λ i. i.index)) (keep (λ i. i.feed_id == id) w.feed_images));
    gathering =
        map_option
          (λ g. record {
            id = g.id;
            name = g.name;
            gathering_date = g.gathering_date;
            description = g.description;
            invitation_image_url = g.invitation_image_url;
          })
          (p.find_first (λ g. is_id row.0.gathering_id g.id) (active_gatherings w));
    comment_count = p.count (λ c. c.feed_id == id) w.feed_comments;
  }

  unfoldable pub find_detail_by_id : Uuid → Action (Option FeedDetail)
  find_detail_by_id id = gets (λ w. map_option (detail_of id w) (
      p.find_first (λ row. row.0.id == id && not (is_some row.0.deleted_at))
        (join (λ f u. f.writer_id == u.id) w.feeds w.users)))

  -- friend-feed-visibilities-prisma.repository.ts: the users who see each of the feeds.
  add_user :
      FriendFeedVisibility × User → List (Uuid × List MinimalUser) → List (Uuid × List MinimalUser)
  add_user (fv, u) result =
      let users : List MinimalUser = elim (get fv.feed_id result) [
        | none ↦ []
        | some users ↦ users
      ] in
      put fv.feed_id (users ++ minimal u ∷ []) result

  add_users :
      List (FriendFeedVisibility × User)
      → List (Uuid × List MinimalUser)
      → List (Uuid × List MinimalUser)
  unfolding add_user
  add_users [] result = result
  add_users (row ∷ rows) result = add_users rows (add_user row result)

  unfoldable pub find_visible_users_by_feed_ids :
      List Uuid → Action (List (Uuid × List MinimalUser))
  unfolding add_users
  find_visible_users_by_feed_ids feed_ids = gets (λ w.
      add_users
        (keep (λ row. one_of feed_ids row.0.feed_id)
          (join (λ fv u. u.id == fv.user_id) w.friend_feed_visibilities (active_users w)))
        [])

  unfoldable pub find_visible_users_by_feed_id : Uuid → Action (List MinimalUser)
  find_visible_users_by_feed_id feed_id = gets (λ w.
      map (λ row. minimal row.1)
        (join (λ fv u. u.id == fv.user_id)
          (p.find_many (λ fv. fv.feed_id == feed_id) w.friend_feed_visibilities) w.users))
