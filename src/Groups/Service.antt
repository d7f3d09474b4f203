-- ===== src/Groups/Service.antt =====
-- src/domain/services/groups/groups.service.ts
use be.Prelude.{ℕ, ◌+◌, String, List, ◌∷◌, if◌then◌else◌, ltb, length}
use be.Store.{
  Uuid, Group, GroupParticipation, GroupParticipationStatus, Action, Platform, ⊤, ◌>>=◌, ◌>>◌, pure,
  throw, throw_if, try_catch, for_each, now, v4, is_group_not_found, forbidden,
  group_owner_cannot_leave, group_member_limit_exceeded, reported_user_cannot_invite,
  already_exist_member,
}
use be.Friends.Checker
use be.Groups.Entities.{GroupPrototype, group, participations}
use be.Groups.Reader
use be.Groups.ParticipationsReader
use be.Groups.Writer
use be.Groups.ParticipationsWriter

pub record GroupUpdate : Type 0 where
  pub name : String
  pub description : String
  pub group_image_url : String

-- The body of the loop of `checkExisting`.
abbrev pub refuse_participation : GroupParticipationStatus → Action ⊤
refuse_participation GroupParticipationStatus.reported = throw reported_user_cannot_invite
refuse_participation GroupParticipationStatus.accepted = throw already_exist_member

module _ ⦃p : Platform⦄ where
  unfoldable pub create_body : Group → List GroupParticipation → Action ⊤
  unfolding Writer.create ParticipationsWriter.create_many
  create_body group rows = do Writer.create group; ParticipationsWriter.create_many rows

  unfoldable pub create_transaction : Group → List GroupParticipation → Action ⊤
  create_transaction group rows = p.transactional (create_body group rows)

  unfoldable pub create : GroupPrototype → List Uuid → Action ⊤
  unfolding now v4 create_transaction
  create prototype friend_user_ids = do
    Checker.check_is_friend_all prototype.owner_id friend_user_ids
    std_date ← now
    created_at ← now
    id ← v4
    rows ← participations id std_date (prototype.owner_id ∷ friend_user_ids)
    create_transaction (group prototype id created_at) rows

  unfoldable pub check_member_count : Uuid → ℕ → Action ⊤
  unfolding ParticipationsReader.get_member_count
  check_member_count group_id new_member_count = do
    count ← ParticipationsReader.get_member_count group_id
    throw_if (ltb 10 (count + new_member_count)) group_member_limit_exceeded

  unfoldable pub check_existing : Uuid → List Uuid → Action ⊤
  unfolding ParticipationsReader.read_multi
  check_existing group_id user_ids = do
    existing ← ParticipationsReader.read_multi group_id user_ids
    for_each (λ gp. refuse_participation gp.status) existing

  unfoldable pub add_members : Uuid → Uuid → List Uuid → Action ⊤
  unfolding check_member_count now ParticipationsWriter.create_many
  add_members group_id inviter_id participant_ids = do
    Checker.check_is_friend_all inviter_id participant_ids
    check_existing group_id participant_ids
    check_member_count group_id (length participant_ids)
    std_date ← now
    rows ← participations group_id std_date participant_ids
    ParticipationsWriter.create_many rows

  unfoldable pub leave_group : Uuid → Uuid → Action ⊤
  unfolding Reader.read_one ParticipationsWriter.delete
  leave_group group_id user_id =
      try_catch (do Reader.read_one group_id user_id; throw group_owner_cannot_leave)
        (λ e.
          if is_group_not_found e then ParticipationsWriter.delete group_id user_id else throw e)

  -- `readOne` throws where there is no such group, so the test that follows it never fails.
  unfoldable pub update : Uuid → Uuid → GroupUpdate → Action ⊤
  unfolding Reader.read_one now Writer.update
  update id owner_id input = do
    Reader.read_one id owner_id
    updated_at ← now
    Writer.update id (λ g. record g {
      name = input.name;
      description = input.description;
      group_image_url = input.group_image_url;
      updated_at = updated_at;
    })

  -- Any other exception is dropped.
  unfoldable pub delete : Uuid → Uuid → Action ⊤
  unfolding Reader.read_one Writer.delete
  delete group_id user_id =
      try_catch (do Reader.read_one group_id user_id; Writer.delete group_id)
        (λ e. if is_group_not_found e then throw forbidden else pure tt)
