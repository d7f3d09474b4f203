-- ===== src/Friends/Writer.antt =====
-- src/domain/components/friend/friends-writer.ts
use be.Store.{Uuid, Friend, Action, Platform, ⊤}
use be.Friends.Repository

module _ ⦃p : Platform⦄ where
  unfoldable pub create : Friend → Action ⊤
  unfolding Repository.save
  create friend = Repository.save friend

  unfoldable pub update : Uuid → Uuid → (Friend → Friend) → Action ⊤
  unfolding Repository.update
  update sender receiver change = Repository.update sender receiver change

  unfoldable pub update_by_id : Uuid → (Friend → Friend) → Action ⊤
  unfolding Repository.update_by_id
  update_by_id id change = Repository.update_by_id id change

  unfoldable pub delete : Uuid → Uuid → Action ⊤
  unfolding Repository.delete_by_user_ids
  delete friend_user user = Repository.delete_by_user_ids friend_user user
