-- ===== src/Feeds/Sharing.antt =====
-- `createFriendFeed` of src/domain/services/feed/feeds.service.ts.
use be.Prelude.{
  String, List, [], ◌∷◌, ◌≡◌, refl, arith, suc, map, inl, inr, Bool, true, ◌&&◌, ◌==◌, ◌+◌, some_of,
  how_many, All, Option-cases,
}
use mathlib.Core.Path.{subst}
use be.Store.{
  Uuid, Time, Feed, FeedImage, FriendFeedVisibility, World, Result, ok, err, Platform, ⊤,
  rolled_back, transactional-eq, Result-cases, some_of-Memᴰ, how_many-create_many,
}
use be.Friends.Checker
use be.Friends.Checker.{check_is_friend, is_accepted}
use be.Friends.Repository.{links}
use be.Groups.Members.{check_is_friend-state, check_is_friend_all-state}
use be.Feeds.Entities.{FeedPrototype, feed, visibilities}
use be.Feeds.Repository as FeedsRepository
use be.Feeds.Service.{create_friend_feed, friend_feed_transaction, friend_feed_body}
use be.Feeds.Once.{images-state}
use be.Notifications.Manager
use be.Notifications.Quiet.{notify_friend_feed_creation-IsQuiet}

-- An accepted relation links the two users.
abbrev pub are_friends : Uuid → Uuid → World → Bool
are_friends a b w = some_of (λ f. links a b f && is_accepted f.status) w.friends

-- A row that shows the feed to the user.
abbrev pub shows : Uuid → Uuid → FriendFeedVisibility → Bool
shows feed user v = v.feed_id == feed && v.user_id == user

visibilities-shows :
    (feed user : Uuid) (t : Time) (ids : List Uuid)
    → how_many (shows feed user) (visibilities feed ids t) ≡ how_many (λ id. id == user) ids
unfolding visibilities
visibilities-shows feed user t [] = refl
visibilities-shows feed user t (id ∷ ids) = ground (arith, visibilities-shows feed user t ids)

module _ ⦃p : Platform⦄ where
  check_is_friend-friends :
      (a b : Uuid) (w : World) → (check_is_friend a b w).0 ≡ ok tt → are_friends b a w ≡ true
  unfolding check_is_friend
  check_is_friend-friends a b w e = elim (Option-cases (p.find_first (links b a) w.friends)) [
    | inl missing ↦ ground arith
    | inr (f, found) ↦
        let (m, fits) = p.find_first_some (links b a) w.friends f found in
        some_of-Memᴰ (λ f. links b a f && is_accepted f.status) w.friends f m (ground arith)
  ]

  check_is_friend_all-friends :
      (a : Uuid) (ids : List Uuid) (w : World)
      → (Checker.check_is_friend_all a ids w).0 ≡ ok tt
      → All (λ id. are_friends id a w ≡ true) ids
  unfolding Checker.check_is_friend_all
  check_is_friend_all-friends a [] w e = tt
  check_is_friend_all-friends a (id ∷ ids) w e =
      let same = check_is_friend-state a id w in
      let first : (check_is_friend a id w).0 ≡ ok tt = ground arith in
      let rest : (Checker.check_is_friend_all a ids w).0 ≡ ok tt = ground arith in
      (check_is_friend-friends a id w first, check_is_friend_all-friends a ids w rest)

  -- What a call that throws leaves as it was, and what one that returns has stored for a user.
  abbrev pub Shared : FeedPrototype → List Uuid → Uuid → World → Result ⊤ × World → Type 0
  Shared proto friends user w (ok _, w') =
      let id = p.uuid w.draws in
      (w'.feeds ≡ feed proto id (p.clock w.ticks) ∷ w.feeds)
      × All (λ friend. are_friends friend proto.writer_id w ≡ true) friends
      × (how_many (shows id user) w'.friend_feed_visibilities
          ≡ how_many (shows id user) w.friend_feed_visibilities
            + how_many (λ friend. friend == user) friends)
  Shared proto friends user w (err _, w') =
      (w'.feeds ≡ w.feeds)
      × (w'.feed_images ≡ w.feed_images)
      × (w'.friend_feed_visibilities ≡ w.friend_feed_visibilities)

  abbrev Stored : Feed → List FriendFeedVisibility → World → Result ⊤ × World → Type 0
  Stored row seen w (ok _, w') =
      (w'.feeds ≡ row ∷ w.feeds)
      × ((q : FriendFeedVisibility → Bool)
          → how_many q w'.friend_feed_visibilities
            ≡ how_many q w.friend_feed_visibilities + how_many q seen)
  Stored row seen w (err _, w') =
      (w'.feeds ≡ w.feeds)
      × (w'.feed_images ≡ w.feed_images)
      × (w'.friend_feed_visibilities ≡ w.friend_feed_visibilities)

  friend_feed_transaction-Stored :
      (row : Feed) (rows : List FeedImage) (seen : List FriendFeedVisibility) (w : World)
      → Stored row seen w (friend_feed_transaction row rows seen w)
  unfolding friend_feed_transaction friend_feed_body rolled_back
  friend_feed_transaction-Stored row rows seen w =
      elim (Option-cases (p.create FeedsRepository.feed_clash row w.feeds)) [
        | inl e ↦ ground (arith, transactional-eq (friend_feed_body row rows seen) w)
        | inr (fs, e) ↦
            elim (Option-cases (p.create_many FeedsRepository.image_clash rows w.feed_images)) [
              | inl f ↦ ground (arith, transactional-eq (friend_feed_body row rows seen) w)
              | inr (is, f) ↦
                  elim (Option-cases (
                    p.create_many FeedsRepository.visibility_clash seen
                      w.friend_feed_visibilities)) [
                        | inl g ↦
                            ground (arith, transactional-eq (friend_feed_body row rows seen) w)
                        | inr (vs, g) ↦
                            let w' : World = record w {
                              feeds = fs;
                              feed_images = is;
                              friend_feed_visibilities = vs;
                            } in
                            let eq : friend_feed_transaction row rows seen w ≡ (ok tt, w') =
                              ground (arith, transactional-eq (friend_feed_body row rows seen) w) in
                            rw eq (
                              ground (arith, p.create_lem FeedsRepository.feed_clash row w.feeds),
                              λ q.
                                  how_many-create_many q FeedsRepository.visibility_clash seen
                                    w.friend_feed_visibilities vs g,
                            )
                      ]
            ]
      ]

  -- A call of createFriendFeed that returns has stored the one new feed, an accepted relation
  -- links its writer with every user given for it, and for any user there are as many rows more
  -- that show them the feed as they are given; one that throws leaves feeds, images and
  -- visibilities as they were.
  pub create_friend_feed-Shared :
      (proto : FeedPrototype) (urls : List String) (friends : List Uuid) (user : Uuid) (w : World)
      → Shared proto friends user w (create_friend_feed proto urls friends w)
  unfolding create_friend_feed rolled_back
  create_friend_feed-Shared proto urls friends user w =
      elim (Result-cases (Checker.check_is_friend_all proto.writer_id friends w)) [
        | inr (x, v, refused) ↦ ground (arith, check_is_friend_all-state proto.writer_id friends w)
        | inl (a, v, friendly) ↦
            let w1 : World = record w { ticks = suc w.ticks; draws = suc w.draws } in
            let (rows, k, e) = images-state (p.uuid w.draws) 0 (p.clock w.ticks) urls w1 in
            let w2 : World = record w1 { draws = k } in
            let row = feed proto (p.uuid w.draws) (p.clock w.ticks) in
            let seen = visibilities (p.uuid w.draws) friends (p.clock w.ticks) in
            let told = map (λ (v : FriendFeedVisibility). v.user_id) seen in
            let stored = friend_feed_transaction-Stored row rows seen w2 in
            let same : v ≡ w =
              ground (arith, check_is_friend_all-state proto.writer_id friends w) in
            elim (Result-cases (friend_feed_transaction row rows seen w2)) [
              | inr (x, w3, failed) ↦
                  let eq : create_friend_feed proto urls friends w ≡ (err x, w3) =
                    ground (arith, e) in
                  rw eq (ground (arith, stored))
              | inl (b, w3, done) ↦
                  let w4 =
                    (Manager.notify_friend_feed_creation (p.uuid w.draws) proto.writer_id told
                      w3).1 in
                  let eq : create_friend_feed proto urls friends w ≡ (ok tt, w4) =
                    grind (arith, e) in
                  let (added, told_rows) = subst (Stored row seen w2) done stored in
                  let quiet =
                    notify_friend_feed_creation-IsQuiet (p.uuid w.draws) proto.writer_id told w3 in
                  rw eq (
                    ground (arith, added, quiet),
                    check_is_friend_all-friends proto.writer_id friends w (ground arith),
                    ground (
                      arith,
                      told_rows (shows (p.uuid w.draws) user),
                      quiet,
                      visibilities-shows (p.uuid w.draws) user (p.clock w.ticks) friends,
                    ),
                  )
            ]
      ]
