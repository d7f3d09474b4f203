-- ===== src/Gatherings/Writer.antt =====
-- src/domain/components/gathering/gatherings-writer.ts
use be.Prelude.{List}
use be.Store.{Uuid, Gathering, Action, Platform, ⊤, ◌>>=◌, pure, now, v4}
use be.Friends.Checker
use be.Gatherings.Entities.{GatheringPrototype, UpdateInput, gathering}
use be.Gatherings.Repository

module _ ⦃p : Platform⦄ where
  unfoldable pub create : Gathering → Action ⊤
  unfolding Repository.save
  create row = Repository.save row

  unfoldable pub check_is_friend : Uuid → List Uuid → Action ⊤
  check_is_friend user_id friend_user_ids = Checker.check_is_friend_all user_id friend_user_ids

  unfoldable pub create_gathering : GatheringPrototype → Action Gathering
  unfolding now v4
  create_gathering prototype = do std_date ← now; id ← v4; pure (gathering prototype id std_date)

  unfoldable pub update : Uuid → UpdateInput → Action ⊤
  unfolding Repository.update now
  update id input = do
    std_date ← now
    Repository.update id (λ g. record g {
      name = input.name;
      description = input.description;
      address = input.address;
      gathering_date = input.gathering_date;
      updated_at = std_date;
    })

  unfoldable pub delete : Uuid → Action ⊤
  unfolding Repository.delete
  delete id = Repository.delete id
