-- ===== src/Feeds/Visibility.antt =====
-- Who may know of a feed, in terms of the tables, and what the queries of
-- src/infrastructure/repositories/feed/feeds-prisma.repository.ts make of it.
use be.Prelude.{
  Bool, true, false, not, ◌&&◌, ◌||◌, Option, none, some, List, [], ◌∷◌, map, ◌==◌, is_some, keep,
  some_of, ◌≡◌, refl, arith, one_of, one_of-map, Memᴰ-keep, Memᴰ-join, ◌∙◌,
}
use mathlib.Core.List.{Memᴰ}
use be.Store.{
  Uuid, User, Feed, FriendFeedVisibility, GatheringParticipation, World, active_feeds, active_users,
  active_gatherings, some_of-Memᴰ,
}
use be.Feeds.Types.{ListedFeed}
use be.Feeds.Repository.{is_id}
use be.Feeds.Queries.{blocked_ids, joined_ids, visible_ids, in_some, is_accepted}

module _ (user : Uuid) (w : World) where
  -- Whether the user hosts the active gathering of a feed.
  abbrev pub hosts : Feed → Bool
  hosts f = some_of (λ g. is_id f.gathering_id g.id && g.host_user_id == user) (active_gatherings w)

  -- Whether the user has accepted the invitation to a gathering.
  abbrev pub takes_part : Option Uuid → Bool
  takes_part none = false
  takes_part (some g) =
      some_of (λ gp. gp.participant_id == user && is_accepted gp.status && gp.gathering_id == g)
        w.gathering_participations

  -- Whether a feed is shown to the user by its writer.
  abbrev pub is_shown_to : Uuid → Bool
  is_shown_to feed =
      some_of (λ fv. fv.user_id == user && fv.feed_id == feed) w.friend_feed_visibilities

  abbrev pub has_blocked : Uuid → Bool
  has_blocked feed = some_of (λ b. b.user_id == user && b.feed_id == feed) w.blocked_feeds

  -- A stored feed, not deleted and not blocked by the user, of which the user may know: as host, as
  -- writer, as participant, or, where it has no gathering, as one to whom it is shown.
  abbrev pub IsShown : ListedFeed → Type 0
  IsShown feed =
      (f : Feed) × Memᴰ f w.feeds
      × (f.id ≡ feed.id)
      × (is_some f.deleted_at ≡ false)
      × (has_blocked f.id ≡ false)
      × ((hosts f
            || f.writer_id == user
            || takes_part f.gathering_id
            || (not (is_some f.gathering_id) && is_shown_to f.id))
          ≡ true)

one_of-map-keep :
    {A : Type 0} (q : A → Bool) (f : A → Uuid) (xs : List A) (id : Uuid)
    → one_of (map f (keep q xs)) id ≡ some_of (λ x. q x && f x == id) xs
one_of-map-keep q f [] id = refl
one_of-map-keep q f (x ∷ xs) id = ground (arith, one_of-map-keep q f xs id)

module _ (user : Uuid) (w : World) where
  pub blocked_ids-has_blocked :
      (feed : Uuid) → one_of (blocked_ids user w) feed ≡ has_blocked user w feed
  blocked_ids-has_blocked feed =
      one_of-map-keep (λ b. b.user_id == user) (λ b. b.feed_id) w.blocked_feeds feed

  accepted_some :
      (ps : List GatheringParticipation) (g : Uuid)
      → some_of
          (λ gp. (gp.participant_id == user && is_accepted gp.status) && gp.gathering_id == g)
          ps
        ≡ some_of
            (λ gp. gp.participant_id == user && is_accepted gp.status && gp.gathering_id == g)
            ps
  accepted_some [] g = refl
  accepted_some (gp ∷ ps) g = ground (arith, accepted_some ps g)

  pub joined_ids-takes_part :
      (gathering : Option Uuid)
      → in_some (joined_ids user w) gathering ≡ takes_part user w gathering
  joined_ids-takes_part none = refl
  joined_ids-takes_part (some g) =
      one_of-map-keep (λ gp. gp.participant_id == user && is_accepted gp.status)
        (λ gp. gp.gathering_id) w.gathering_participations g
      ∙ accepted_some w.gathering_participations g

  pub visible_ids-is_shown_to :
      (feed : Uuid) → one_of (visible_ids user w) feed ≡ true → is_shown_to user w feed ≡ true
  visible_ids-is_shown_to feed e =
      let (row, m, same) =
        one_of-map {A = (FriendFeedVisibility × Feed) × User} (λ row. row.0.0.feed_id) _ feed e in
      let (n, mine) = Memᴰ-keep (λ row. row.0.0.user_id == user) _ row m in
      let (k, _, _) = Memᴰ-join (λ r u. u.id == r.1.writer_id) _ (active_users w) row n in
      let (stored, _, _) =
        Memᴰ-join (λ fv f. f.id == fv.feed_id) w.friend_feed_visibilities (active_feeds w) row.0
          k in
      some_of-Memᴰ (λ fv. fv.user_id == user && fv.feed_id == feed) w.friend_feed_visibilities
        row.0.0 stored (ground arith)
