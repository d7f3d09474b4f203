-- ===== src/Groups/Writer.antt =====
-- src/domain/components/group/groups-writer.ts
use be.Store.{Uuid, Group, Action, Platform, ⊤}
use be.Groups.Repository

module _ ⦃p : Platform⦄ where
  unfoldable pub create : Group → Action ⊤
  unfolding Repository.save
  create group = Repository.save group

  unfoldable pub update : Uuid → (Group → Group) → Action ⊤
  unfolding Repository.update
  update id change = Repository.update id change

  unfoldable pub delete : Uuid → Action ⊤
  unfolding Repository.delete
  delete id = Repository.delete id
