-- ===== src/Groups/Entities.antt =====
-- src/domain/entities/group and the input of src/domain/types/group.types.ts
use be.Prelude.{String, List, [], ◌∷◌}
use be.Store.{
  Uuid, Time, Group, GroupParticipation, GroupParticipationStatus, Action, Platform, ◌>>=◌, pure,
  v4,
}

pub record GroupPrototype : Type 0 where
  pub owner_id : Uuid
  pub name : String
  pub description : String
  pub group_image_url : String

-- `GroupEntity.create`, at the id that the generator gave; the default of the number of gatherings is 0.
abbrev pub group : GroupPrototype → Uuid → Time → Group
group proto id std_date = record {
  id = id;
  name = proto.name;
  description = proto.description;
  group_image_url = proto.group_image_url;
  gathering_count = 0;
  owner_id = proto.owner_id;
  created_at = std_date;
  updated_at = std_date;
}

-- `GroupParticipationEntity.create` without a status: the default of the column is ACCEPTED.
abbrev pub participation : Uuid → Uuid → Uuid → Time → GroupParticipation
participation group_id participant_id id std_date = record {
  id = id;
  group_id = group_id;
  participant_id = participant_id;
  created_at = std_date;
  status = GroupParticipationStatus.accepted;
}

module _ ⦃p : Platform⦄ where
  -- `ids.map((participantId) => GroupParticipationEntity.create({ groupId, participantId }, v4, stdDate))`
  unfoldable pub participations : Uuid → Time → List Uuid → Action (List GroupParticipation)
  unfolding v4
  participations group_id std_date [] = pure []
  participations group_id std_date (participant_id ∷ rest) = do
    id ← v4
    others ← participations group_id std_date rest
    pure (participation group_id participant_id id std_date ∷ others)
