-- ===== src/Feeds/Hiding.antt =====
-- Hiding a feed and showing it again (`block` and `unblock` of
-- src/domain/components/feed/blocked-feeds.service.ts), and what the list of all feeds then shows.
use be.Prelude.{
  Bool, true, false, not, ◌&&◌, List, [], ◌∷◌, map, ◌==◌, ◌≡◌, ◌≢◌, refl, ◌∙◌, ap, arith, keep,
  some_of, one_of, All-Memᴰ, All-of_Memᴰ, Bool-cases, inl, inr,
}
use be.Store.{Uuid, BlockedFeed, World, ok, Platform}
use be.Paging.{IsPage}
use be.Feeds.Types.{FeedPaginationInput}
use be.Feeds.Blocked.{block, unblock}
use be.Feeds.Queries.{blocked_ids}
use be.Feeds.Reader.{read_all}
use be.Feeds.Visibility.{blocked_ids-has_blocked}
use be.Feeds.Shown.{read_all-IsShown}

abbrev is_row : Uuid → Uuid → BlockedFeed → Bool
is_row user feed b = b.user_id == user && b.feed_id == feed

keep-none :
    (user feed : Uuid) (t : List BlockedFeed)
    → some_of (λ b. user == b.user_id && feed == b.feed_id) t ≡ false
    → keep (λ b. not (is_row user feed b)) t ≡ t
keep-none user feed [] e = refl
keep-none user feed (b ∷ t) e = ground (arith, keep-none user feed t)

module _ ⦃p : Platform⦄ where
  abbrev stored : Uuid → Uuid → World → BlockedFeed
  stored user feed w = record { user_id = user; feed_id = feed; created_at = p.clock w.ticks }

  block-stored :
      (user feed : Uuid) (w w' : World)
      → block user feed w ≡ (ok tt, w')
      → (w'.blocked_feeds ≡ stored user feed w ∷ w.blocked_feeds)
        × (some_of (λ b. user == b.user_id && feed == b.feed_id) w.blocked_feeds ≡ false)
  unfolding block
  block-stored user feed w w' e =
      elim (Bool-cases (some_of (λ b. user == b.user_id && feed == b.feed_id) w.blocked_feeds)) [
        | inl taken ↦ ground (
          arith,
          p.create_lem (λ f g. f.user_id == g.user_id && f.feed_id == g.feed_id)
              (stored user feed w) w.blocked_feeds,
        )
        | inr new ↦ ground (
          arith,
          p.create_lem (λ f g. f.user_id == g.user_id && f.feed_id == g.feed_id)
              (stored user feed w) w.blocked_feeds,
        )
      ]

  -- A call of unblock that follows a call of block that returned, of the same user and feed,
  -- returns too, and the table of blocked feeds is then as it was before both.
  pub unblock-block :
      (user feed : Uuid) (w w' : World)
      → block user feed w ≡ (ok tt, w')
      → let (r, w'') = unblock user feed w' in (r ≡ ok tt) × (w''.blocked_feeds ≡ w.blocked_feeds)
  unfolding unblock
  unblock-block user feed w w' e =
      let (table, new) = block-stored user feed w w' e in
      ground (
        arith,
        p.delete_lem (is_row user feed) w'.blocked_feeds,
        ap (p.delete (is_row user feed)) table,
        p.delete_lem (is_row user feed) (stored user feed w ∷ w.blocked_feeds),
        keep-none user feed w.blocked_feeds new,
      )

  blocked_one :
      (user feed : Uuid) (w w' : World)
      → w'.blocked_feeds ≡ stored user feed w ∷ w.blocked_feeds
      → one_of (blocked_ids user w') feed ≡ true
  blocked_one user feed w w' e =
      ap (λ t. one_of (map (λ b. b.feed_id) (keep (λ b. b.user_id == user) t)) feed) e
      ∙ ground arith

  -- After a call of block that returned, reading all feeds of the user returns a page that does
  -- not show the feed.
  pub read_all-block :
      (user feed : Uuid) (input : FeedPaginationInput) (w w' : World)
      → block user feed w ≡ (ok tt, w')
      → IsPage (λ v. v.id ≢ feed) input.limit w' (read_all user input w')
  read_all-block user feed input w w' e =
      let (table, new) = block-stored user feed w w' e in
      let (page, ran, shown, short) = read_all-IsShown user input w' in
      (
        page,
        ran,
        All-of_Memᴰ page.items λ v m same.
            let ((f, _, of, _, unblocked, _), _) = All-Memᴰ _ page.items shown m in
            let hidden = blocked_one user feed w w' table in
            let known = blocked_ids-has_blocked user w' f.id in
            let g : one_of (blocked_ids user w') f.id ≡ true =
              ap (one_of (blocked_ids user w')) (of ∙ same) ∙ hidden in
            cc,
        short,
      )
