-- ===== src/Comments/Repository.antt =====
-- feed-comment-prisma.repository.ts and blocked-feed-comment-prisma.repository.ts: the lookup of one
-- comment and the writes.
use be.Prelude.{
  Bool, false, not, ◌&&◌, Option, none, some, List, ◌==◌, is_some, map, map_option, keep, join,
  one_of,
}
use be.Paging.{last_first}
use be.Users.Types.{minimal}
use be.Comments.Types.{ListedComment}
use be.Store.{
  Uuid, User, FeedComment, BlockedFeedComment, World, Action, Platform, ⊤, gets, or_throw, modify,
  ◌>>=◌, now, unique_violation, record_not_found,
}

abbrev pub comment_clash : FeedComment → FeedComment → Bool
comment_clash c d = c.id == d.id

abbrev pub blocked_clash : BlockedFeedComment → BlockedFeedComment → Bool
blocked_clash c d = c.user_id == d.user_id && c.comment_id == d.comment_id

-- The rows of the view `active_feed_comment`.
abbrev pub is_active : Uuid → FeedComment → Bool
is_active id c = c.id == id && not (is_some c.deleted_at)

abbrev is_mentioned : FeedComment → User → Bool
is_mentioned c u = elim c.mentioned_user_id [ none ↦ false | some id ↦ id == u.id ]

module _ ⦃p : Platform⦄ where
  unfoldable pub save : FeedComment → Action ⊤
  save comment = do
    table ← gets (λ w. w.feed_comments)
    table' ← or_throw (p.create comment_clash comment table) unique_violation
    modify (λ w. record w { feed_comments = table' })

  abbrev pub listed : World → FeedComment × User → ListedComment
  listed w row = record {
    id = row.0.id;
    content = row.0.content;
    created_at = row.0.created_at;
    writer = minimal row.1;
    mentioned_user = map_option minimal (p.find_first (is_mentioned row.0) w.users);
  }

  unfoldable pub find_by_feed_id : Uuid → Uuid → Action (List ListedComment)
  unfolding last_first
  find_by_feed_id feed_id user_id = gets (λ w.
      let blocked_comment_ids =
        map (λ bc. bc.comment_id)
          (p.find_many (λ bc. bc.user_id == user_id) w.blocked_feed_comments) in
      map (listed w) (
        p.order_by (last_first (λ row. row.0.created_at) (λ row. row.0.id)) (
          keep
            (λ row.
              row.0.feed_id == feed_id
              && not (is_some row.0.deleted_at)
              && not (is_some row.1.deleted_at)
              && not (one_of blocked_comment_ids row.0.id))
            (join (λ c u. c.writer_id == u.id) w.feed_comments w.users))))

  unfoldable pub find_one_by_id : Uuid → Action (Option FeedComment)
  find_one_by_id id = gets (λ w. p.find_first (is_active id) w.feed_comments)

  unfoldable pub delete : Uuid → Action ⊤
  unfolding now
  delete id = do
    deleted_at ← now
    table ← gets (λ w. w.feed_comments)
    table' ←
        or_throw (p.update (λ c. c.id == id) (λ c. record c { deleted_at = some deleted_at }) table)
          record_not_found
    modify (λ w. record w { feed_comments = table' })

  unfoldable pub save_blocked : BlockedFeedComment → Action ⊤
  save_blocked row = do
    table ← gets (λ w. w.blocked_feed_comments)
    table' ← or_throw (p.create blocked_clash row table) unique_violation
    modify (λ w. record w { blocked_feed_comments = table' })
