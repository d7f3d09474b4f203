-- ===== src/Comments/Listing.antt =====
-- Which comments of a feed a user is shown (`readAll` of
-- src/domain/components/feed-comment/feed-comment-reader.ts).
use be.Prelude.{
  Bool, false, not, ◌&&◌, ◌≡◌, refl, arith, List, map, ◌==◌, is_some, keep, join, one_of, All,
  All-map, All-of_Memᴰ, Memᴰ-keep, keep-Memᴰ, Memᴰ-perm, perm_sym, Memᴰ-join, join-Memᴰ, map-Memᴰ,
}
use mathlib.Core.List.{Memᴰ}
use be.Store.{Uuid, User, FeedComment, World, Result, ok, Platform}
use be.Comments.Types.{ListedComment}
use be.Comments.Repository.{find_by_feed_id, listed}
use be.Comments.Reader.{read_all}

abbrev pub blocked_comment_ids : Uuid → World → List Uuid
blocked_comment_ids user w =
    map (λ bc. bc.comment_id) (keep (λ bc. bc.user_id == user) w.blocked_feed_comments)

-- A comment on the feed with its writer, neither deleted, and not blocked by the user.
abbrev pub IsVisible : Uuid → Uuid → World → FeedComment → User → Type 0
IsVisible feed user w c u =
    Memᴰ c w.feed_comments
    × Memᴰ u w.users
    × (c.writer_id ≡ u.id)
    × (c.feed_id ≡ feed)
    × (is_some c.deleted_at ≡ false)
    × (is_some u.deleted_at ≡ false)
    × (one_of (blocked_comment_ids user w) c.id ≡ false)

module _ ⦃p : Platform⦄ where
  abbrev fits : Uuid → Uuid → World → FeedComment × User → Bool
  fits feed user w row =
      row.0.feed_id == feed
      && not (is_some row.0.deleted_at)
      && not (is_some row.1.deleted_at)
      && not (
          one_of
            (map (λ bc. bc.comment_id)
              (p.find_many (λ bc. bc.user_id == user) w.blocked_feed_comments))
            row.0.id)

  abbrev rows : World → List (FeedComment × User)
  rows w = join (λ c u. c.writer_id == u.id) w.feed_comments w.users

  -- The list returned holds these comments and no other, and nothing changed.
  abbrev pub ListsVisible : Uuid → Uuid → World → Result (List ListedComment) × World → Type 0
  ListsVisible feed user w result =
      (cs : List ListedComment) × (result ≡ (ok cs, w))
      × All
          (λ c.
            (row : FeedComment) × (u : User) × IsVisible feed user w row u
            × (c ≡ listed w (row, u)))
          cs
      × ((row : FeedComment) (u : User) → IsVisible feed user w row u → Memᴰ (listed w (row, u)) cs)

  -- Reading the comments of a feed returns and changes nothing. The list holds the comments on the
  -- feed that are not deleted, whose writer is active and that the user has not blocked, and no
  -- others.
  pub read_all-IsVisible :
      (feed user : Uuid) (w : World) → ListsVisible feed user w (read_all feed user w)
  unfolding read_all find_by_feed_id
  read_all-IsVisible feed user w = (
    _,
    refl,
    All-map _ (listed w) _ (
        All-of_Memᴰ _ λ row m.
          let (n, e) =
            Memᴰ-keep (fits feed user w) (rows w) row (Memᴰ-perm (p.order_by_perm _ _) m) in
          let (k, l, f) = Memᴰ-join (λ c u. c.writer_id == u.id) w.feed_comments w.users row n in
          let many = p.find_many_lem (λ bc. bc.user_id == user) w.blocked_feed_comments in
          (
            row.0,
            row.1,
            (k, l, ground arith, ground arith, ground arith, ground arith, ground (arith, many)),
            refl,
          )),
    λ row u (m, n, writer, of, kept, active, unblocked).
        map-Memᴰ (listed w) _ (row, u)
          (Memᴰ-perm (perm_sym (p.order_by_perm _ _)) (
            keep-Memᴰ (fits feed user w) (rows w) (row, u)
              (join-Memᴰ (λ c u. c.writer_id == u.id) w.feed_comments w.users row u m n
                (ground arith))
              (let many = p.find_many_lem (λ bc. bc.user_id == user) w.blocked_feed_comments in
                ground (arith, many)))),
  )
