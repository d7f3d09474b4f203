-- ===== src/Comments/Authorship.antt =====
-- `delete` of src/domain/services/feed-comments/feed-comments.service.ts.
use be.Prelude.{true, some, ◌≡◌, arith, ◌==◌, if◌then◌else◌, replace, how_many, ◌≤◌, suc}
use mathlib.Core.List.{Memᴰ}
use be.Store.{
  Uuid, FeedComment, World, ok, err, Platform, forbidden, find_first_unique, some_of-Memᴰ,
}
use be.Comments.Repository.{is_active}
use be.Comments.Service.{delete}

comment_exists : (id : Uuid) (c : FeedComment) → is_active id c ≡ true → (c.id == id) ≡ true
comment_exists id c e = ground arith

module _ ⦃p : Platform⦄ where
  -- For the only active comment with the id, deleting it is refused and changes nothing unless the
  -- user wrote it, and otherwise marks it as deleted.
  pub delete_comment-verdict :
      (id user : Uuid) (c : FeedComment) (w : World)
      → how_many (is_active id) w.feed_comments ≤ 1
      → Memᴰ c w.feed_comments
      → is_active id c ≡ true
      → delete id user w ≡ (
          if c.writer_id == user
          then (
            ok tt,
            record w {
              feed_comments =
                  replace
                    (λ c. c.id == id)
                    (λ c. record c { deleted_at = some (p.clock w.ticks) })
                    w.feed_comments;
              ticks = suc w.ticks;
            },
          )
          else (err forbidden, w))
  unfolding delete
  delete_comment-verdict id user c w one m e = ground (
    arith,
    find_first_unique (is_active id) w.feed_comments c one m e,
    some_of-Memᴰ (λ c. c.id == id) w.feed_comments c m (comment_exists id c e),
    p.update_lem (λ c. c.id == id) (λ c. record c { deleted_at = some (p.clock w.ticks) })
        w.feed_comments,
  )
