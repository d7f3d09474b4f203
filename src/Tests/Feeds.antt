-- ===== src/Tests/Feeds.antt =====
-- The theorems on feeds and comments at a concrete state.
use be.Prelude.{none, ◌≡◌, ◌≢◌, refl, arith, some, [], ◌∷◌}
use mathlib.Core.List.{Memᴰ}
use be.Store.{ok, err, duplicate_feed}
use be.Feeds.Entities.{FeedPrototype, images}
use be.Feeds.Sharing.{Shared, create_friend_feed-Shared}
use be.Feeds.Service.{
  CreateGatheringFeedInput, create_gathering_feed, create_friend_feed,
  check_create_gathering_feed_constraints,
}
use be.Feeds.Constraints.{constraints-verdict}
use be.Feeds.Once.{Written, create_gathering_feed-Written, create_gathering_feed-once}
use be.Tests.Tables.{tables}
use be.Tests.States.{small, meeting}

constraints-verdict_example :
    check_create_gathering_feed_constraints 31 1 2000 small ≡ (err duplicate_feed, small)
constraints-verdict_example =
    constraints-verdict 31 1 2000 (meeting 31 (some 10)) small (ground arith)
      (Memᴰ.tail (Memᴰ.head refl)) refl

abbrev memory : CreateGatheringFeedInput
memory = record { writer_id = 2; content = "good"; gathering_id = 31 }

create_gathering_feed-Written_example :
    Written memory small (create_gathering_feed memory ("u" ∷ []) 2000 small)
create_gathering_feed-Written_example = create_gathering_feed-Written memory ("u" ∷ []) 2000 small

first_one : (create_gathering_feed memory [] 2000 small).0 ≡ ok tt
unfolding tables create_gathering_feed images
first_one = refl

create_gathering_feed-once_example :
    (create_gathering_feed memory [] 3000 (create_gathering_feed memory [] 2000 small).1).0 ≢ ok tt
create_gathering_feed-once_example =
    create_gathering_feed-once memory memory [] [] 2000 3000 small refl refl first_one

abbrev picture : FeedPrototype
picture = record { writer_id = 1; gathering_id = none; content = "us" }

create_friend_feed-Shared_example :
    Shared picture (2 ∷ []) 2 small (create_friend_feed picture ("u" ∷ []) (2 ∷ []) small)
create_friend_feed-Shared_example = create_friend_feed-Shared picture ("u" ∷ []) (2 ∷ []) 2 small
