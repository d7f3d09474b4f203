-- ===== src/Feeds/Counts.antt =====
-- The numbers of comments that the list (`readAll`) and the detail (`readDetail`) of
-- src/domain/components/feed/feeds-reader.ts show of a feed.
use be.Prelude.{
  ℕ, ◌+◌, not, ◌&&◌, ◌==◌, ◌≡◌, refl, sym, ◌∙◌, ap, arith, List, [], ◌∷◌, is_some, keep, how_many,
  All, All-Memᴰ, All-of_Memᴰ,
}
use mathlib.Core.Path.{subst}
use be.Store.{
  Uuid, FeedComment, World, ok, or_throw_ok, feed_not_found, Platform, active_feed_comments,
}
use be.Paging.{Page, DateIdCursor}
use be.Feeds.Types.{ListedFeed, FeedDetail, FeedPaginationInput}
use be.Feeds.Queries.{find_detail_by_id, detail_of}
use be.Feeds.Reader.{read_all, read_detail}
use be.Feeds.Collected.{comments_on}
use be.Feeds.Shown.{read_all-IsShown}

abbrev pub deleted_on : World → Uuid → ℕ
deleted_on w id = how_many (λ c. c.feed_id == id && is_some c.deleted_at) w.feed_comments

counted :
    (id : Uuid) (cs : List FeedComment)
    → how_many (λ c. c.feed_id == id) cs
      ≡ how_many
          (λ c. c.feed_id == id && not (is_some c.deleted_at))
          (keep (λ c. not (is_some c.deleted_at)) cs)
        + how_many (λ c. c.feed_id == id && is_some c.deleted_at) cs
counted id [] = refl
counted id (c ∷ cs) = ground (arith, counted id cs)

module _ ⦃p : Platform⦄ where
  detail_count :
      (id : Uuid) (w : World) (detail : FeedDetail)
      → read_detail id w ≡ (ok detail, w)
      → detail.comment_count ≡ comments_on w id + deleted_on w id
  unfolding read_detail find_detail_by_id
  detail_count id w detail e =
      let (row, found, same) = or_throw_ok (detail_of id w) _ feed_not_found w detail e in
      sym (ap (λ d. d.comment_count) same)
      ∙ p.count_lem (λ c. c.feed_id == id) w.feed_comments
      ∙ counted id w.feed_comments
      ∙ ap (λ n. n + deleted_on w id) (sym (p.count_lem _ (active_feed_comments w)))

  -- Where the detail of a feed and a page of all feeds are read in one state, the number of
  -- comments in the detail is that of the same feed on the page and the number of its deleted
  -- comments.
  pub read_detail-comment_count :
      (user id : Uuid) (input : FeedPaginationInput) (w : World) (detail : FeedDetail)
      (page : Page ListedFeed DateIdCursor)
      → read_detail id w ≡ (ok detail, w)
      → read_all user input w ≡ (ok page, w)
      → All (λ v. v.id ≡ id → detail.comment_count ≡ v.comment_count + deleted_on w id) page.items
  read_detail-comment_count user id input w detail page e f =
      let (listed, ran, shown, short) = read_all-IsShown user input w in
      let same : listed ≡ page = cc in
      subst
        (λ q.
          All (λ v. v.id ≡ id → detail.comment_count ≡ v.comment_count + deleted_on w id) q.items)
        same
        (All-of_Memᴰ listed.items λ v m of.
          let (_, count) = All-Memᴰ _ listed.items shown m in
          detail_count id w detail e
          ∙ ap (λ n. n + deleted_on w id) (sym (count ∙ ap (comments_on w) of)))
