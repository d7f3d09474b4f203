-- ===== src/Feeds/Ownership.antt =====
-- `updateContent` and `delete` of src/domain/components/feed/feeds-writer.ts.
use be.Prelude.{
  String, Bool, true, ◌&&◌, some, List, [], ◌∷◌, ◌≡◌, arith, ◌==◌, if◌then◌else◌, some_of, replace,
  suc,
}
use be.Store.{Uuid, Feed, World, ok, err, Platform, forbidden, some_of-find_first}
use be.Feeds.Repository.{is_active}
use be.Feeds.Writer.{update_content, delete}

abbrev pub is_written_by : Uuid → Uuid → Feed → Bool
is_written_by id user f = f.id == id && f.writer_id == user && is_active f

feed_exists :
    (id user : Uuid) (t : List Feed)
    → some_of (is_written_by id user) t ≡ true
    → some_of (λ f. f.id == id) t ≡ true
feed_exists id user [] h = cc
feed_exists id user (f ∷ t) h = ground (arith, feed_exists id user t)

module _ ⦃p : Platform⦄ where
  -- Changing a feed is refused and changes nothing unless the user wrote an active feed with the
  -- id, and otherwise replaces its content.
  pub update_content-verdict :
      (content : String) (id user : Uuid) (w : World)
      → update_content content id user w ≡ (
          if some_of (is_written_by id user) w.feeds
          then (
            ok tt,
            record w {
              feeds = replace (λ f. f.id == id) (λ f. record f { content = content }) w.feeds;
            },
          )
          else (err forbidden, w))
  unfolding update_content
  update_content-verdict content id user w = ground (
    arith,
    some_of-find_first (is_written_by id user) w.feeds,
    feed_exists id user w.feeds,
    p.update_lem (λ f. f.id == id) (λ f. record f { content = content }) w.feeds,
  )

  -- Deleting a feed is refused and changes nothing unless the user wrote an active feed with the
  -- id, and otherwise marks it as deleted.
  pub delete_feed-verdict :
      (id user : Uuid) (w : World)
      → delete id user w ≡ (
          if some_of (is_written_by id user) w.feeds
          then (
            ok tt,
            record w {
              feeds =
                  replace
                    (λ f. f.id == id)
                    (λ f. record f { deleted_at = some (p.clock w.ticks) })
                    w.feeds;
              ticks = suc w.ticks;
            },
          )
          else (err forbidden, w))
  unfolding delete
  delete_feed-verdict id user w = ground (
    arith,
    some_of-find_first (is_written_by id user) w.feeds,
    feed_exists id user w.feeds,
    p.update_lem (λ f. f.id == id) (λ f. record f { deleted_at = some (p.clock w.ticks) }) w.feeds,
  )
