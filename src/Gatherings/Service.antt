-- ===== src/Gatherings/Service.antt =====
-- src/domain/services/gatherings/gatherings.service.ts
use be.Prelude.{
  Bool, true, false, not, ◌&&◌, Option, some, List, [], ◌∷◌, ◌++◌, if◌then◌else◌, ltb, ◌==◌,
  is_some,
}
use be.Store.{
  Uuid, Time, Gathering, GatheringType, GatheringParticipation, GatheringParticipationStatus,
  Action, Platform, ⊤, ◌>>=◌, ◌>>◌, pure, throw_if, background, now, v4, forbidden, bad_request,
  group_or_friend_required, gathering_creation_past_date, unprocessable_entity,
}
use be.Groups.Reader as GroupsReader
use be.Groups.ParticipationsReader as GroupParticipationsReader
use be.Gatherings.Entities.{GatheringPrototype, UpdateInput, gathering, create_bulk}
use be.Gatherings.Reader
use be.Gatherings.Writer
use be.Gatherings.InvitationsWriter
use be.Notifications.Manager

abbrev pub is_group : GatheringType → Bool
is_group GatheringType.group = true
is_group GatheringType.friend = false

-- The host takes part, everybody else is invited.
abbrev pub status_for : Uuid → Uuid → GatheringParticipationStatus
status_for host_user_id invitee_id =
    if invitee_id == host_user_id
    then GatheringParticipationStatus.accepted
    else GatheringParticipationStatus.pending

module _ ⦃p : Platform⦄ where
  unfoldable pub validate_gathering_date : Time → Action ⊤
  unfolding now
  validate_gathering_date gathering_date = do
    present ← now
    throw_if (ltb gathering_date present) gathering_creation_past_date

  unfoldable pub validate : GatheringType → Option Uuid → Option (List Uuid) → Time → Action ⊤
  unfolding validate_gathering_date
  validate type group_id friend_user_ids gathering_date = do
    throw_if (not (is_some group_id) && not (is_some friend_user_ids)) group_or_friend_required
    throw_if (is_group type && not (is_some group_id)) bad_request
    throw_if (not (is_group type) && not (is_some friend_user_ids)) bad_request
    throw_if (is_some group_id && is_some friend_user_ids) bad_request
    validate_gathering_date gathering_date

  unfoldable pub set_group_invitees : Uuid → Action (List Uuid)
  unfolding GroupsReader.read_one_by_id GroupParticipationsReader.read_participants
  set_group_invitees group_id = do
    GroupsReader.read_one_by_id group_id
    GroupParticipationsReader.read_participants group_id

  unfoldable pub set_friend_invitees : List Uuid → Uuid → Action (List Uuid)
  unfolding Writer.check_is_friend
  set_friend_invitees friend_user_ids host_user_id = do
    Writer.check_is_friend host_user_id friend_user_ids
    pure (friend_user_ids ++ host_user_id ∷ [])

  -- The two tests on the type and what is given with it, which fill the list of invitees.
  unfoldable pub invitees :
      GatheringType → Option Uuid → Option (List Uuid) → Uuid → Action (List Uuid)
  unfolding set_group_invitees set_friend_invitees
  invitees GatheringType.group (some group_id) friend_user_ids host_user_id =
      set_group_invitees group_id
  invitees GatheringType.friend group_id (some friend_user_ids) host_user_id =
      set_friend_invitees friend_user_ids host_user_id
  invitees _ _ _ _ = pure []

  unfoldable pub create_entities :
      GatheringPrototype → List Uuid → Action (Gathering × List GatheringParticipation)
  unfolding now v4
  create_entities input invitee_ids = do
    std_date ← now
    id ← v4
    participations ← create_bulk id (status_for input.host_user_id) std_date invitee_ids
    pure (gathering input id std_date, participations)

  unfoldable pub create_body : Gathering → List GatheringParticipation → Action ⊤
  unfolding Writer.create InvitationsWriter.create_many
  create_body gathering participations = do
    Writer.create gathering
    InvitationsWriter.create_many participations

  unfoldable pub create_transaction : Gathering → List GatheringParticipation → Action ⊤
  create_transaction gathering participations =
      p.transactional (create_body gathering participations)

  unfoldable pub create : GatheringPrototype → Option (List Uuid) → Action ⊤
  unfolding validate create_transaction
  create input friend_user_ids = do
    validate input.type input.group_id friend_user_ids input.gathering_date
    invitee_ids ← invitees input.type input.group_id friend_user_ids input.host_user_id
    entities ← create_entities input invitee_ids
    create_transaction entities.0 entities.1
    background (Manager.send_gathering_creation input.host_user_id invitee_ids)

  unfoldable pub update : Uuid → Uuid → UpdateInput → Action ⊤
  unfolding Reader.read_one validate_gathering_date Writer.update
  update id host_user_id input = do
    gathering ← Reader.read_one id
    validate_gathering_date input.gathering_date
    throw_if (not (gathering.host_user_id == host_user_id)) forbidden
    Writer.update id input

  unfoldable pub delete_body : Uuid → Action ⊤
  unfolding Writer.delete InvitationsWriter.delete_many
  delete_body gathering_id = do
    Writer.delete gathering_id
    InvitationsWriter.delete_many gathering_id

  unfoldable pub delete_transaction : Uuid → Action ⊤
  delete_transaction gathering_id = p.transactional (delete_body gathering_id)

  unfoldable pub delete : Uuid → Uuid → Action ⊤
  unfolding Reader.read_one_by_id_and_host_id delete_transaction
  delete id user_id = do
    gathering ← Reader.read_one_by_id_and_host_id id user_id
    throw_if (is_some gathering.ended_at) unprocessable_entity
    delete_transaction id
