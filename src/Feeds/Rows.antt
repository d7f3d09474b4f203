-- ===== src/Feeds/Rows.antt =====
-- `findFeeds` of src/infrastructure/repositories/feed/feeds-prisma.repository.ts: the joined rows of
-- the feeds that a subquery selects, and the feeds that are collected from them.
use be.Prelude.{
  ℕ, String, Bool, true, false, not, ◌&&◌, Option, none, some, List, [], ◌∷◌, ◌++◌, map, ◌==◌, ltb,
  asc, desc, str_eq, is_some, if◌then◌else◌, keep, some_of, flat_map, or_null, then_by, one_of,
  collect_by, values,
}
use be.Store.{
  Uuid, User, Feed, FeedImage, Gathering, GatheringParticipation, World, Action, Platform, gets,
  active_users, active_feeds, active_gatherings, active_feed_comments,
}
use be.Paging.{Order}
use be.Users.Types.{minimal}
use be.Feeds.Types.{ListedFeed, FeedGathering}
use be.Feeds.Repository.{is_id}

pub record FeedRow : Type 0 where
  pub feed : Feed
  pub writer : User
  pub image : Option FeedImage
  pub gathering : Option Gathering
  pub member : Option User
  pub comment_count : ℕ

-- A text that is not empty is true in a condition.
abbrev pub truthy : String → Bool
truthy s = not (str_eq s "")

-- The conditions of the joins, which no row of nulls fits.
abbrev pub in_gathering : Option Gathering → GatheringParticipation → Bool
in_gathering none gp = false
in_gathering (some g) gp = g.id == gp.gathering_id

abbrev pub is_participant : Option GatheringParticipation → User → Bool
is_participant none u = false
is_participant (some gp) u = gp.participant_id == u.id

abbrev comes_before : {A : Type 0} → (A → A → Bool) → Option A → Option A → Bool
comes_before before none y = false
comes_before before (some x) none = true
comes_before before (some x) (some y) = before x y

module _ ⦃p : Platform⦄ where
  -- The rows of the joins, table by table.
  abbrev pub member_rows :
      World
      → Feed
      → User
      → Option FeedImage
      → Option Gathering
      → Option GatheringParticipation
      → List FeedRow
  member_rows w f u fi g gp =
      map
        (λ gm. record {
          feed = f;
          writer = u;
          image = fi;
          gathering = g;
          member = gm;
          comment_count =
              p.count (λ fc. fc.feed_id == f.id && not (is_some fc.deleted_at))
                (active_feed_comments w);
        })
        (or_null (keep (is_participant gp) (active_users w)))

  abbrev pub participation_rows :
      World → Feed → User → Option FeedImage → Option Gathering → List FeedRow
  participation_rows w f u fi g =
      flat_map (member_rows w f u fi g) (or_null (keep (in_gathering g) w.gathering_participations))

  abbrev pub gathering_rows : World → Feed → User → Option FeedImage → List FeedRow
  gathering_rows w f u fi =
      flat_map (participation_rows w f u fi)
        (or_null (keep (λ g. is_id f.gathering_id g.id) (active_gatherings w)))

  abbrev pub image_rows : World → Feed → User → List FeedRow
  image_rows w f u =
      flat_map (gathering_rows w f u) (or_null (keep (λ fi. f.id == fi.feed_id) w.feed_images))

  abbrev pub writer_rows : World → Feed → List FeedRow
  writer_rows w f = flat_map (image_rows w f) (keep (λ u. f.writer_id == u.id) (active_users w))

  unfoldable pub feed_rows : World → List FeedRow
  feed_rows w = flat_map (writer_rows w) (active_feeds w)

  unfoldable pub by_created_at : {A : Type 0} → Order → (A → ℕ) → A → A → Bool
  by_created_at Order.desc created_at = desc created_at
  by_created_at Order.asc created_at = asc created_at

  unfoldable pub row_order : Order → FeedRow → FeedRow → Bool
  unfolding by_created_at
  row_order order = then_by (by_created_at order (λ row. row.feed.created_at)) (
      then_by (asc (λ row. row.feed.id)) (
        then_by (λ r s. comes_before (λ i j. ltb i.index j.index) r.image s.image)
          (λ r s. comes_before (λ m n. p.text_before m.name n.name) r.member s.member)))

abbrev gathering_of : FeedRow → Option FeedGathering
gathering_of row = elim row.gathering [
  | none ↦ none
  | some g ↦
      if truthy g.name
      then some (record { id = g.id; name = g.name; gathering_date = g.gathering_date })
      else none
]

abbrev pub listed : FeedRow → ListedFeed
listed row = record {
  id = row.feed.id;
  comment_count = row.comment_count;
  content = row.feed.content;
  created_at = row.feed.created_at;
  writer = minimal row.writer;
  gathering = gathering_of row;
  images = [];
  with_members = [];
}

-- An image is shown once.
abbrev pub with_image : FeedRow → ListedFeed → ListedFeed
with_image row feed = elim row.image [
  | none ↦ feed
  | some i ↦
      if truthy i.url && not (some_of (λ url. str_eq url i.url) feed.images)
      then record feed { images = feed.images ++ i.url ∷ [] }
      else feed
]

-- A member is shown once, and the writer is not.
abbrev pub with_member : FeedRow → ListedFeed → ListedFeed
with_member row feed = elim row.member [
  | none ↦ feed
  | some m ↦
      if truthy m.account_id
        && truthy m.name
        && not (row.writer.id == m.id)
        && not (some_of (λ other. other.id == m.id) feed.with_members)
      then record feed { with_members = feed.with_members ++ minimal m ∷ [] }
      else feed
]

abbrev pub add_row : FeedRow → ListedFeed → ListedFeed
add_row row feed = with_member row (with_image row feed)

module _ ⦃p : Platform⦄ where
  unfoldable pub find_feeds : Uuid → Order → (World → List Uuid) → Action (List ListedFeed)
  unfolding feed_rows row_order
  find_feeds user_id order subquery = gets (λ w. values (
      collect_by (λ row. row.feed.id) listed add_row
        (p.order_by (row_order order) (keep (λ row. one_of (subquery w) row.feed.id) (feed_rows w)))
        []))
