-- ===== src/Feeds/Collected.antt =====
-- What the rows of the query of feeds are collected to, in the list of
-- src/domain/components/feed/feeds-reader.ts: each feed once, with its comments counted.
use be.Prelude.{
  ℕ, true, not, ◌&&◌, List, [], ◌==◌, is_some, keep, length, ◌≤◌, ◌≡◌, refl, ◌∙◌, arith, All,
  All-Memᴰ, All-map, All-of_Memᴰ, Holds, keys, values, collect_by, collect_by-Holds,
  collect_by-IsDistinct, length-IsDistinct, length-map, one_of, Memᴰ-perm, Memᴰ-keep, All-flat_map,
  or_null, Option-cases, inl, inr,
}
use mathlib.Core.List.{Memᴰ}
use be.Store.{Uuid, World, Platform, active_feeds, active_feed_comments}
use be.Paging.{Order}
use be.Feeds.Types.{ListedFeed}
use be.Feeds.Rows.{
  FeedRow, feed_rows, row_order, writer_rows, image_rows, gathering_rows, participation_rows,
  member_rows, listed, add_row, with_image, with_member,
}

with_image-id : (row : FeedRow) (v : ListedFeed) → (with_image row v).id ≡ v.id
with_image-id row v = elim (Option-cases row.image) [
  | inl e ↦ ground arith
  | inr (i, e) ↦ ground arith
]

with_member-id : (row : FeedRow) (v : ListedFeed) → (with_member row v).id ≡ v.id
with_member-id row v = elim (Option-cases row.member) [
  | inl e ↦ ground arith
  | inr (m, e) ↦ ground arith
]

with_image-comment_count :
    (row : FeedRow) (v : ListedFeed) → (with_image row v).comment_count ≡ v.comment_count
with_image-comment_count row v = elim (Option-cases row.image) [
  | inl e ↦ ground arith
  | inr (i, e) ↦ ground arith
]

with_member-comment_count :
    (row : FeedRow) (v : ListedFeed) → (with_member row v).comment_count ≡ v.comment_count
with_member-comment_count row v = elim (Option-cases row.member) [
  | inl e ↦ ground arith
  | inr (m, e) ↦ ground arith
]

add_row-id : (row : FeedRow) (v : ListedFeed) → (add_row row v).id ≡ v.id
add_row-id row v = with_member-id row (with_image row v) ∙ with_image-id row v

module _ ⦃p : Platform⦄ where
  abbrev pub selected : Order → List Uuid → World → List FeedRow
  selected order ids w =
      p.order_by (row_order order) (keep (λ row. one_of ids row.feed.id) (feed_rows w))

  abbrev pub found : Order → List Uuid → World → List (Uuid × ListedFeed)
  found order ids w = collect_by (λ row. row.feed.id) listed add_row (selected order ids w) []

  -- The comments on a feed that are not deleted.
  abbrev pub comments_on : World → Uuid → ℕ
  comments_on w id =
      p.count (λ fc. fc.feed_id == id && not (is_some fc.deleted_at)) (active_feed_comments w)

  abbrev IsCounted : World → FeedRow → Type 0
  IsCounted w row = row.comment_count ≡ comments_on w row.feed.id

  feed_rows-IsCounted : (w : World) → All (IsCounted w) (feed_rows w)
  unfolding feed_rows
  feed_rows-IsCounted w = All-flat_map (IsCounted w) (writer_rows w) (active_feeds w) λ f.
      All-flat_map (IsCounted w) (image_rows w f) _ λ u.
        All-flat_map (IsCounted w) (gathering_rows w f u) (or_null _) λ fi.
          All-flat_map (IsCounted w) (participation_rows w f u fi) (or_null _) λ g.
            All-flat_map (IsCounted w) (member_rows w f u fi g) (or_null _)
              λ gp. All-map (IsCounted w) _ (or_null _) (All-of_Memᴰ (or_null _) λ gm m. refl)

  -- The feeds that are collected are those of the subquery, each once.
  pub found-Holds :
      (order : Order) (ids : List Uuid) (w : World)
      → Holds
          (λ k v. (v.id ≡ k) × (one_of ids k ≡ true) × (v.comment_count ≡ comments_on w k))
          (found order ids w)
  found-Holds order ids w =
      collect_by-Holds (λ row. row.feed.id) listed add_row _ (selected order ids w) []
        (All-of_Memᴰ (selected order ids w) λ row m.
          ((
            refl,
            (fits row m).1,
            All-Memᴰ (IsCounted w) (feed_rows w) (feed_rows-IsCounted w) (fits row m).0,
          )))
        (All-of_Memᴰ (selected order ids w) λ row m v h. (
          add_row-id row v ∙ h.0,
          h.1,
          with_member-comment_count row (with_image row v) ∙ with_image-comment_count row v ∙ h.2,
        ))
        tt
    where
      fits :
          (row : FeedRow)
          → Memᴰ row (selected order ids w)
          → Memᴰ row (feed_rows w) × (one_of ids row.feed.id ≡ true)
      fits row m =
          Memᴰ-keep (λ r. one_of ids r.feed.id) (feed_rows w) row
            (Memᴰ-perm (p.order_by_perm (row_order order) _) m)

  pub found-length :
      (order : Order) (ids : List Uuid) (w : World)
      → length (values (found order ids w)) ≤ length ids
  found-length order ids w = omega (
    arith,
    length-map (λ e. e.1) (found order ids w),
    length-map (λ e. e.0) (found order ids w),
    length-IsDistinct (keys (found order ids w)) ids
        (collect_by-IsDistinct (λ row. row.feed.id) listed add_row (selected order ids w) [] tt)
        (All-map (λ k. one_of ids k ≡ true) (λ e. e.0) (found order ids w)
          (All-of_Memᴰ (found order ids w)
            λ e m. (All-Memᴰ _ (found order ids w) (found-Holds order ids w) m).1)),
  )
