-- ===== src/Gatherings/InvitationsReader.antt =====
-- src/domain/components/gathering/gathering-invitations-reader.ts
use be.Prelude.{List}
use be.Store.{
  Uuid, User, GatheringParticipation, Action, Platform, ◌>>=◌, pure, or_throw,
  gathering_participation_not_found,
}
use be.Paging.{Page, DateIdCursor, PaginatedDateRangeInput}
use be.Cursors.{get_received_gathering_invitation_cursor, get_sent_gathering_invitation_cursor}
use be.Users.Types.{MinimalUser}
use be.Gatherings.Types.{ReceivedGatheringInvitation, SentGatheringInvitation}
use be.Gatherings.ParticipationsRepository
use be.Gatherings.InvitationQueries

module _ ⦃p : Platform⦄ where
  unfoldable pub read_received :
      Uuid → PaginatedDateRangeInput → Action (Page ReceivedGatheringInvitation DateIdCursor)
  unfolding InvitationQueries.find_received_by_participant_id
  read_received user_id input = do
    invitations ← InvitationQueries.find_received_by_participant_id user_id input
    pure (record {
      items = invitations;
      next_cursor = get_received_gathering_invitation_cursor invitations input.limit;
    })

  unfoldable pub read_sent :
      Uuid → PaginatedDateRangeInput → Action (Page SentGatheringInvitation DateIdCursor)
  unfolding InvitationQueries.find_sent_by_sender_id
  read_sent user_id input = do
    invitations ← InvitationQueries.find_sent_by_sender_id user_id input
    pure (record {
      items = invitations;
      next_cursor = get_sent_gathering_invitation_cursor invitations input.limit;
    })

  unfoldable pub read_participants : Uuid → Action (List MinimalUser)
  unfolding InvitationQueries.find_participants
  read_participants gathering_id = InvitationQueries.find_participants gathering_id

  unfoldable pub read_one : Uuid → Uuid → Action GatheringParticipation
  unfolding ParticipationsRepository.find_one_by_gathering_id_and_participant_id
  read_one gathering_id participant_id = do
    or_throw
        (← ParticipationsRepository.find_one_by_gathering_id_and_participant_id gathering_id
          participant_id)
        gathering_participation_not_found

  unfoldable pub read_participants_with_notice_info : Uuid → Action (List User)
  unfolding ParticipationsRepository.find_participants_with_notice_info
  read_participants_with_notice_info gathering_id =
      ParticipationsRepository.find_participants_with_notice_info gathering_id
