-- ===== src/Gatherings/InvitationsWriter.antt =====
-- src/domain/components/gathering/gathering-invitations-writer.ts
use be.Prelude.{List, not, is_some}
use be.Store.{
  Uuid, GatheringParticipation, GatheringParticipationStatus, Action, Platform, ⊤, ◌>>=◌, ◌>>◌, now,
  throw_if, forbidden,
}
use be.Gatherings.Entities.{create_bulk}
use be.Gatherings.ParticipationsRepository

module _ ⦃p : Platform⦄ where
  unfoldable pub create_many : List GatheringParticipation → Action ⊤
  unfolding ParticipationsRepository.save_many
  create_many rows = ParticipationsRepository.save_many rows

  -- A status that is not given is the default of the constructor, PENDING.
  unfoldable pub create_gathering_invitations :
      Uuid → List Uuid → Action (List GatheringParticipation)
  unfolding now create_bulk
  create_gathering_invitations gathering_id user_ids = do
    std_date ← now
    create_bulk gathering_id (λ _. GatheringParticipationStatus.pending) std_date user_ids

  unfoldable pub check_is_participant : Uuid → Uuid → Action ⊤
  unfolding ParticipationsRepository.find_one_by_id_and_participant_id
  check_is_participant invitation_id user_id = do
    participation ← ParticipationsRepository.find_one_by_id_and_participant_id invitation_id user_id
    throw_if (not (is_some participation)) forbidden

  unfoldable pub accept : Uuid → Uuid → Action ⊤
  unfolding check_is_participant ParticipationsRepository.update_status
  accept invitation_id user_id = do
    check_is_participant invitation_id user_id
    ParticipationsRepository.update_status invitation_id GatheringParticipationStatus.accepted

  unfoldable pub accept_v2 : Uuid → Action ⊤
  unfolding ParticipationsRepository.update_status
  accept_v2 participation_id =
      ParticipationsRepository.update_status participation_id GatheringParticipationStatus.accepted

  unfoldable pub reject : Uuid → Uuid → Action ⊤
  unfolding check_is_participant ParticipationsRepository.delete
  reject invitation_id user_id = do
    check_is_participant invitation_id user_id
    ParticipationsRepository.delete invitation_id

  unfoldable pub delete_many : Uuid → Action ⊤
  unfolding ParticipationsRepository.delete_all_by_gathering_id
  delete_many gathering_id = ParticipationsRepository.delete_all_by_gathering_id gathering_id

  unfoldable pub delete_pending : Uuid → Uuid → Action ⊤
  unfolding ParticipationsRepository.delete_all_pending_invitation
  delete_pending sender_id receiver_id =
      ParticipationsRepository.delete_all_pending_invitation sender_id receiver_id

  unfoldable pub update_read_at : Uuid → Action ⊤
  unfolding ParticipationsRepository.update_read_at
  update_read_at user_id = ParticipationsRepository.update_read_at user_id
