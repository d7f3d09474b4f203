-- ===== src/Groups/ParticipationsReader.antt =====
-- src/domain/components/group/group-participations-reader.ts
use be.Prelude.{ℕ, List, map}
use be.Store.{Uuid, GroupParticipation, Action, Platform, ◌>>=◌, pure}
use be.Groups.ParticipationsRepository

module _ ⦃p : Platform⦄ where
  unfoldable pub read_multi : Uuid → List Uuid → Action (List GroupParticipation)
  unfolding ParticipationsRepository.find_by_user_ids
  read_multi group_id user_ids = ParticipationsRepository.find_by_user_ids group_id user_ids

  unfoldable pub read_participants : Uuid → Action (List Uuid)
  unfolding ParticipationsRepository.find_members_by_group_id
  read_participants group_id = do
    participations ← ParticipationsRepository.find_members_by_group_id group_id
    pure (map (λ gp. gp.participant_id) participations)

  unfoldable pub get_member_count : Uuid → Action ℕ
  unfolding ParticipationsRepository.count_member
  get_member_count group_id = ParticipationsRepository.count_member group_id
