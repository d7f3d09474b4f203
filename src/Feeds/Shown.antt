-- ===== src/Feeds/Shown.antt =====
-- Which feeds the list of all feeds shows (`readAll` of src/domain/components/feed/feeds-reader.ts).
use be.Prelude.{
  Bool, true, not, ◌&&◌, Option, List, [], map, ◌==◌, is_some, keep, take, length, ◌≡◌, refl, sym,
  ◌∙◌, ap, arith, All-Memᴰ, All-map, All-of_Memᴰ, values, length-map, length-take_le, one_of,
  one_of-map, left_join, Memᴰ-take, Memᴰ-perm, Memᴰ-keep, Memᴰ-left_join, Bool-cases, inl, inr, ltb,
}
use be.Store.{
  Uuid, Feed, Gathering, World, ok, Platform, active_feeds, active_gatherings, some_of-Memᴰ,
}
use be.Paging.{Page, IsPage, DateIdCursor}
use be.Users.Types.{MinimalUser}
use be.Feeds.Types.{ListedFeed, FeedPaginationInput}
use be.Feeds.Repository.{is_id}
use be.Feeds.Rows.{find_feeds, listed}
use be.Feeds.Queries.{
  find_all_by_user_id, blocked_ids, may_see, find_visible_users_by_feed_ids, past_cursor,
  feed_order, in_range,
}
use be.Feeds.Visibility.{
  IsShown, blocked_ids-has_blocked, joined_ids-takes_part, visible_ids-is_shown_to,
}
use be.Cursors.{get_feed_cursor}
use be.Feeds.Reader.{
  read_all, with_visible, get_feeds, find_of_type, FeedsType, get_common_feed_with_member,
}
use be.Feeds.Collected.{found, found-Holds, found-length, comments_on}

module _ ⦃p : Platform⦄ where
  -- What the query of the ids demands of a feed and its gathering.
  abbrev demanded : Uuid → FeedPaginationInput → World → Feed × Option Gathering → Bool
  demanded user input w row =
      not (one_of (blocked_ids user w) row.0.id)
      && may_see user w row.0 row.1
      && in_range input.min_date input.max_date row.0.created_at
      && past_cursor input.order input.cursor row.0.created_at row.0.id

  abbrev joined : World → List (Feed × Option Gathering)
  joined w = left_join (λ f g. is_id f.gathering_id g.id) (active_feeds w) (active_gatherings w)

  abbrev page_of : Uuid → FeedPaginationInput → World → List (Feed × Option Gathering)
  page_of user input w =
      take input.limit (
        p.order_by (feed_order input.order (λ row. row.0))
          (keep (demanded user input w) (joined w)))

  abbrev ids_of : Uuid → FeedPaginationInput → World → List Uuid
  ids_of user input w = map (λ row. row.0.id) (page_of user input w)

  ids_of-IsShown :
      (user : Uuid) (input : FeedPaginationInput) (w : World) (feed : ListedFeed)
      → one_of (ids_of user input w) feed.id ≡ true
      → IsShown user w feed
  ids_of-IsShown user input w feed e =
      let ((f, g), m, same) = one_of-map (λ row. row.0.id) (page_of user input w) feed.id e in
      let (n, fits) =
        Memᴰ-keep (demanded user input w) (joined w) (f, g)
          (Memᴰ-perm (p.order_by_perm (feed_order input.order (λ row. row.0)) _)
            (Memᴰ-take input.limit _ (f, g) m)) in
      let (k, host) =
        Memᴰ-left_join (λ f g. is_id f.gathering_id g.id) (active_feeds w) (active_gatherings w) f g
          n in
      let (l, active) = Memᴰ-keep (λ f. not (is_some f.deleted_at)) w.feeds f k in
      let unblocked = blocked_ids-has_blocked user w f.id in
      let known = joined_ids-takes_part user w f.gathering_id in
      let visible = visible_ids-is_shown_to user w f.id in
      (
        f,
        l,
        same,
        ground arith,
        ground (arith, unblocked),
        elim host [
          | inl (e, _) ↦ ground (arith, known, visible)
          | inr (h, e, i, of) ↦ ground (
            arith,
            known,
            visible,
            some_of-Memᴰ (λ h. is_id f.gathering_id h.id && h.host_user_id == user)
                (active_gatherings w) h i,
          )
        ],
      )

  members_run :
      (feeds : List ListedFeed) (w : World)
      → (ms : List (Uuid × List MinimalUser)) × (get_common_feed_with_member feeds w ≡ (ok ms, w))
  unfolding get_common_feed_with_member find_visible_users_by_feed_ids
  members_run feeds w =
      elim (Bool-cases (ltb 0 (length (keep (λ feed. not (is_some feed.gathering)) feeds)))) [
        | inl e ↦ rw e (_, refl)
        | inr e ↦ rw e ([], refl)
      ]

  get_feeds-ok :
      (user : Uuid) (input : FeedPaginationInput) (type : FeedsType) (w : World)
      (feeds : List ListedFeed)
      → find_of_type type user input w ≡ (ok feeds, w)
      → (page : Page ListedFeed DateIdCursor) × (get_feeds user input type w ≡ (ok page, w))
        × ((ms : List (Uuid × List MinimalUser)) × (page.items ≡ map (with_visible ms) feeds))
  unfolding get_feeds
  get_feeds-ok user input type w feeds e =
      let (ms, f) = members_run feeds w in
      (
        record {
          items = map (with_visible ms) feeds;
          next_cursor = get_feed_cursor feeds input.limit;
        },
        ground (arith, e, f),
        (ms, refl),
      )

  -- Reading all feeds returns and changes nothing. Every feed on the page is stored, is neither
  -- deleted nor blocked by the user, and is one that the user wrote, that has no gathering and is
  -- shown to the user, or whose gathering the user hosts or takes part in; its number of comments
  -- is that of the comments that are not deleted; and there are no more feeds than the limit.
  pub read_all-IsShown :
      (user : Uuid) (input : FeedPaginationInput) (w : World)
      → IsPage
          (λ v. IsShown user w v × (v.comment_count ≡ comments_on w v.id))
          input.limit
          w
          (read_all user input w)
  unfolding read_all find_all_by_user_id find_feeds find_of_type
  read_all-IsShown user input w =
      let ids = ids_of user input w in
      let feeds = values (found input.order ids w) in
      let (page, ran, (ms, shown)) = get_feeds-ok user input FeedsType.all w feeds refl in
      (
        page,
        ran,
        rw shown (
            All-map _ (with_visible ms) feeds (
              All-map _ (λ e. e.1) (found input.order ids w)
                (All-of_Memᴰ (found input.order ids w) λ e m.
                  let (same, listed, counted) =
                    All-Memᴰ _ (found input.order ids w) (found-Holds input.order ids w) m in
                  (
                    ids_of-IsShown user input w (with_visible ms e.1)
                        (ap (one_of ids) same ∙ listed),
                    counted ∙ ap (comments_on w) (sym same),
                  )))),
        rw shown (
            omega (
              arith,
              length-map (with_visible ms) feeds,
              found-length input.order ids w,
              length-map (λ row. row.0.id) (page_of user input w),
              length-take_le input.limit (
                  p.order_by (feed_order input.order (λ row. row.0))
                    (keep (demanded user input w) (joined w))),
            )),
      )
