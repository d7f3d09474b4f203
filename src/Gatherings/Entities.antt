-- ===== src/Gatherings/Entities.antt =====
-- The entities of a gathering: src/domain/entities/gathering and the inputs of
-- src/domain/types/gathering.types.ts. An ISO date string is the time that it denotes.
use be.Prelude.{String, Option, none, List, [], ◌∷◌}
use be.Store.{
  Uuid, Time, Gathering, GatheringType, GatheringParticipation, GatheringParticipationStatus,
  Action, Platform, ◌>>=◌, pure, v4,
}

pub record GatheringPrototype : Type 0 where
  pub host_user_id : Uuid
  pub name : String
  pub description : String
  pub type : GatheringType
  pub group_id : Option Uuid
  pub gathering_date : Time
  pub address : String
  pub invitation_image_url : String

pub record UpdateInput : Type 0 where
  pub name : String
  pub description : String
  pub gathering_date : Time
  pub address : String

-- `GatheringEntity.create`, at the id that the generator gave.
abbrev pub gathering : GatheringPrototype → Uuid → Time → Gathering
gathering proto id std_date = record {
  id = id;
  type = proto.type;
  host_user_id = proto.host_user_id;
  group_id = proto.group_id;
  name = proto.name;
  description = proto.description;
  address = proto.address;
  invitation_image_url = proto.invitation_image_url;
  created_at = std_date;
  updated_at = std_date;
  gathering_date = proto.gathering_date;
  ended_at = none;
  deleted_at = none;
}

-- `GatheringParticipationEntity.create`; a row starts unread.
abbrev pub participation :
    Uuid → Uuid → GatheringParticipationStatus → Uuid → Time → GatheringParticipation
participation gathering_id participant_id status id std_date = record {
  id = id;
  gathering_id = gathering_id;
  participant_id = participant_id;
  created_at = std_date;
  updated_at = std_date;
  status = status;
  read_at = none;
}

module _ ⦃p : Platform⦄ where
  -- `GatheringParticipationEntity.createBulk`: the status of an invitee is computed from its id, as
  -- the only caller does by mapping over the same list.
  unfoldable pub create_bulk :
      Uuid
      → (Uuid → GatheringParticipationStatus)
      → Time
      → List Uuid
      → Action (List GatheringParticipation)
  unfolding v4
  create_bulk gathering_id status std_date [] = pure []
  create_bulk gathering_id status std_date (participant_id ∷ rest) = do
    id ← v4
    others ← create_bulk gathering_id status std_date rest
    pure (participation gathering_id participant_id (status participant_id) id std_date ∷ others)
