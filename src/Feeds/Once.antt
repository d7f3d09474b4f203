-- ===== src/Feeds/Once.antt =====
-- `createGatheringFeed` of src/domain/services/feed/feeds.service.ts, once and again.
use be.Prelude.{ℕ, String, false, some, List, [], ◌∷◌, ◌≡◌, refl, arith, some_of, suc, ◌≢◌}
use be.Store.{
  Uuid, Time, Feed, FeedImage, World, Result, ok, err, Platform, ⊤, rolled_back, some_of-find_first,
}
use be.Feeds.Repository as FeedsRepository
use be.Feeds.Entities.{feed, images}
use be.Feeds.Writer
use be.Feeds.Service.{
  CreateGatheringFeedInput, create_gathering_feed, check_create_gathering_feed_constraints,
}
use be.Feeds.Constraints.{is_feed_of}
use be.Notifications.Quiet.{notify_gathering_feed_creation-IsQuiet}

module _ ⦃p : Platform⦄ where
  -- New images take identifiers and change nothing.
  pub images-state :
      (id : Uuid) (n : ℕ) (t : Time) (urls : List String) (w : World)
      → (rows : List FeedImage) × (k : ℕ) × (images id n t urls w
          ≡ (ok rows, record w { draws = k }))
  unfolding images
  images-state id n t [] w = ([], w.draws, refl)
  images-state id n t (url ∷ urls) w =
      let (rows, k, e) = images-state id (suc n) t urls (record w { draws = suc w.draws }) in
      (
        record { id = p.uuid w.draws; url = url; index = n; created_at = t; feed_id = id } ∷ rows,
        k,
        ground (arith, e),
      )

  -- The row that a call stores.
  abbrev pub new_feed : CreateGatheringFeedInput → World → Feed
  new_feed input w =
      feed
        (record {
          writer_id = input.writer_id;
          gathering_id = some input.gathering_id;
          content = input.content;
        })
        (p.uuid w.draws) (p.clock w.ticks)

  -- What a call that throws leaves as it was, and what one that returns has stored.
  abbrev pub Written : CreateGatheringFeedInput → World → Result ⊤ × World → Type 0
  Written input w (ok _, w') =
      (w'.feeds ≡ new_feed input w ∷ w.feeds) × (w'.gatherings ≡ w.gatherings)
  Written input w (err _, w') =
      (w'.feeds ≡ w.feeds) × (w'.feed_images ≡ w.feed_images) × (w'.gatherings ≡ w.gatherings)

  constraints-state :
      (g u : Uuid) (today : Time) (w : World)
      → (check_create_gathering_feed_constraints g u today w).1 ≡ w
  unfolding check_create_gathering_feed_constraints
  constraints-state g u today w = ground arith

  -- A call of createGatheringFeed that returns has stored the one new feed, and one that throws
  -- leaves feeds and images as they were; neither changes a gathering.
  pub create_gathering_feed-Written :
      (input : CreateGatheringFeedInput) (urls : List String) (today : Time) (w : World)
      → Written input w (create_gathering_feed input urls today w)
  unfolding create_gathering_feed rolled_back
  create_gathering_feed-Written input urls today w =
      let w1 : World = record w { ticks = suc w.ticks; draws = suc w.draws } in
      let (rows, k, e) = images-state (p.uuid w.draws) 0 (p.clock w.ticks) urls w1 in
      let w2 : World = record w1 { draws = k } in
      let w3 = (Writer.create (new_feed input w) rows w2).1 in
      grind (
        arith,
        constraints-state input.gathering_id input.writer_id today w,
        e,
        p.create_lem FeedsRepository.feed_clash (new_feed input w) w.feeds,
        notify_gathering_feed_creation-IsQuiet (p.uuid w.draws) input.writer_id input.gathering_id
            w3,
      )

  constraints-new :
      (g u : Uuid) (today : Time) (w : World)
      → (check_create_gathering_feed_constraints g u today w).0 ≡ ok tt
      → some_of (is_feed_of g u) w.feeds ≡ false
  unfolding check_create_gathering_feed_constraints
  constraints-new g u today w e = ground (arith, some_of-find_first (is_feed_of g u) w.feeds)

  create-new :
      (input : CreateGatheringFeedInput) (urls : List String) (today : Time) (w : World)
      → (create_gathering_feed input urls today w).0 ≡ ok tt
      → some_of (is_feed_of input.gathering_id input.writer_id) w.feeds ≡ false
  unfolding create_gathering_feed
  create-new input urls today w e =
      ground (arith, constraints-new input.gathering_id input.writer_id today w)

  -- After a call of createGatheringFeed that returned, a further call by the same writer for the
  -- same gathering does not return.
  pub create_gathering_feed-once :
      (first second : CreateGatheringFeedInput) (urls urls' : List String) (today today' : Time)
      (w : World)
      → second.gathering_id ≡ first.gathering_id
      → second.writer_id ≡ first.writer_id
      → (create_gathering_feed first urls today w).0 ≡ ok tt
      → (create_gathering_feed second urls' today' (create_gathering_feed first urls today w).1).0
        ≢ ok tt
  create_gathering_feed-once first second urls urls' today today' w same_g same_u done again =
      let new = create-new second urls' today' (create_gathering_feed first urls today w).1 again in
      let written = create_gathering_feed-Written first urls today w in ground (arith, new, written)
