-- ===== src/Store/Views.antt =====
-- The views of prisma/migrations/20250301162118_create_view: the rows that are not deleted.
use be.Prelude.{not, is_some, keep, List}
use be.Store.Rows.{User, Feed, FeedComment, Gathering}
use be.Store.State.{World}

abbrev pub active_users : World → List User
active_users w = keep (λ u. not (is_some u.deleted_at)) w.users

abbrev pub active_feeds : World → List Feed
active_feeds w = keep (λ f. not (is_some f.deleted_at)) w.feeds

abbrev pub active_feed_comments : World → List FeedComment
active_feed_comments w = keep (λ c. not (is_some c.deleted_at)) w.feed_comments

abbrev pub active_gatherings : World → List Gathering
active_gatherings w = keep (λ g. not (is_some g.deleted_at)) w.gatherings
