-- ===== src/Groups/ParticipationsWriter.antt =====
-- src/domain/components/group/group-participations-writer.ts
use be.Prelude.{List}
use be.Store.{Uuid, GroupParticipation, GroupParticipationStatus, Action, Platform, ⊤}
use be.Groups.ParticipationsRepository

module _ ⦃p : Platform⦄ where
  unfoldable pub create_many : List GroupParticipation → Action ⊤
  unfolding ParticipationsRepository.save_many
  create_many participations = ParticipationsRepository.save_many participations

  unfoldable pub delete : Uuid → Uuid → Action ⊤
  unfolding ParticipationsRepository.delete
  delete group_id participant_id = ParticipationsRepository.delete group_id participant_id

  unfoldable pub update_status : Uuid → Uuid → GroupParticipationStatus → Action ⊤
  unfolding ParticipationsRepository.update
  update_status group_id participant_id status =
      ParticipationsRepository.update group_id participant_id (λ gp. record gp { status = status })
