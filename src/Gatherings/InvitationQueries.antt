-- ===== src/Gatherings/InvitationQueries.antt =====
-- src/infrastructure/repositories/gathering/gathering-participations-prisma.repository.ts: the
-- paginated lists of received and sent invitations, and the participants of a gathering.
use be.Prelude.{
  Bool, false, not, ◌&&◌, Option, none, some, List, [], map, ◌==◌, desc, keep, take, join,
  left_join, group_by, one_of, collect_by, values, map_option,
}
use be.Store.{
  Uuid, User, Group, Gathering, GatheringParticipation, World, Action, Platform, gets, active_users,
  active_gatherings,
}
use be.Paging.{PaginatedDateRangeInput, last_first}
use be.Users.Types.{MinimalUser, minimal}
use be.Gatherings.Types.{ReceivedGatheringInvitation, SentGatheringInvitation}
use be.Gatherings.ParticipationsRepository.{is_pending}
use be.Gatherings.Queries.{from_cursor, in_range}

abbrev pub of_group : Gathering → Group → Bool
of_group g gr = elim g.group_id [ none ↦ false | some id ↦ id == gr.id ]

pub record InvitationRow : Type 0 where
  pub participation : GatheringParticipation
  pub gathering : Gathering
  pub sender : User
  pub group : Option Group

abbrev pub received : InvitationRow → ReceivedGatheringInvitation
received row = record {
  id = row.participation.id;
  gathering_id = row.gathering.id;
  address = row.gathering.address;
  created_at = row.participation.created_at;
  description = row.gathering.description;
  gathering_date = row.gathering.gathering_date;
  invitation_image_url = row.gathering.invitation_image_url;
  group_name = map_option (λ gr. gr.name) row.group;
  name = row.gathering.name;
  sender = row.sender.account_id;
}

abbrev sent : InvitationRow → SentGatheringInvitation
sent row = record {
  gathering_id = row.gathering.id;
  name = row.gathering.name;
  description = row.gathering.description;
  address = row.gathering.address;
  created_at = row.gathering.created_at;
  group_name = map_option (λ gr. gr.name) row.group;
  gathering_date = row.gathering.gathering_date;
  invitation_image_url = row.gathering.invitation_image_url;
  sender = row.sender.account_id;
}

-- The invitations with their gathering, its host among `hosts`, and its group.
abbrev pub invitation_rows : List User → World → List InvitationRow
invitation_rows hosts w =
    map
      (λ row. record {
        participation = row.0.0.0;
        gathering = row.0.0.1;
        sender = row.0.1;
        group = row.1;
      })
      (left_join (λ row gr. of_group row.0.1 gr)
        (join (λ row hu. row.1.host_user_id == hu.id)
          (join (λ gp g. gp.gathering_id == g.id) w.gathering_participations (active_gatherings w))
          hosts)
        w.groups)

module _ ⦃p : Platform⦄ where
  -- The invitations on a page, of active hosts. The condition on the cursor compares its id with the
  -- id of the gathering.
  unfoldable pub received_ids : Uuid → PaginatedDateRangeInput → World → List Uuid
  unfolding last_first from_cursor in_range
  received_ids participant_id input w =
      map (λ row. row.0.0.id)
        (take input.limit (
          p.order_by (last_first (λ row. row.0.0.created_at) (λ row. row.0.0.id)) (
            group_by (λ row other. row.0.0.id == other.0.0.id)
              (keep
                (λ row.
                  row.0.0.participant_id == participant_id
                  && is_pending row.0.0.status
                  && in_range input row.0.0.created_at
                  && from_cursor input row.0.0.created_at row.0.1.id)
                (join (λ row u. u.id == row.1.host_user_id)
                  (join (λ gp g. g.id == gp.gathering_id) w.gathering_participations
                    (active_gatherings w))
                  (active_users w))))))

  -- A later row of the same gathering takes the place of an earlier one.
  unfoldable pub find_received_by_participant_id :
      Uuid → PaginatedDateRangeInput → Action (List ReceivedGatheringInvitation)
  unfolding received_ids last_first
  find_received_by_participant_id participant_id input = gets (λ w. values (
      collect_by (λ row. row.gathering.id) received (λ row _. received row)
        (p.order_by (last_first (λ row. row.participation.created_at) (λ row. row.participation.id))
          (keep (λ row. one_of (received_ids participant_id input w) row.participation.id)
            (invitation_rows w.users w)))
        []))

  unfoldable pub sent_ids : Uuid → PaginatedDateRangeInput → World → List Uuid
  unfolding last_first from_cursor in_range
  sent_ids sender_id input w =
      map (λ row. row.0.0.id)
        (take input.limit (
          p.order_by (last_first (λ row. row.0.0.created_at) (λ row. row.0.0.id)) (
            group_by
              (λ row other.
                row.0.0.id == other.0.0.id && row.0.0.created_at == other.0.0.created_at)
              (keep
                (λ row.
                  row.0.0.host_user_id == sender_id
                  && not (row.0.1.participant_id == sender_id)
                  && is_pending row.0.1.status
                  && in_range input row.0.0.created_at
                  && from_cursor input row.0.0.created_at row.0.0.id)
                (join (λ row m. m.id == row.1.participant_id)
                  (join (λ g gp. g.id == gp.gathering_id) (active_gatherings w)
                    w.gathering_participations)
                  (active_users w))))))

  unfoldable pub find_sent_by_sender_id :
      Uuid → PaginatedDateRangeInput → Action (List SentGatheringInvitation)
  unfolding sent_ids
  find_sent_by_sender_id sender_id input = gets (λ w. values (
      collect_by (λ row. row.gathering.id) sent (λ row shown. shown)
        (p.order_by (desc (λ row. row.gathering.created_at)) (
          keep (λ row. one_of (sent_ids sender_id input w) row.gathering.id)
            (invitation_rows (active_users w) w)))
        []))

  unfoldable pub find_participants : Uuid → Action (List MinimalUser)
  find_participants gathering_id = gets (λ w.
      map (λ row. minimal row.1)
        (join (λ gp u. gp.participant_id == u.id)
          (p.find_many (λ gp. gp.gathering_id == gathering_id) w.gathering_participations) w.users))
