-- ===== src/Groups/ParticipationsRepository.antt =====
-- src/infrastructure/repositories/group/group-participations-prisma.repository.ts
use be.Prelude.{ℕ, Bool, true, false, ◌&&◌, ◌||◌, List, ◌==◌, some_of, if◌then◌else◌}
use be.Store.{
  Uuid, GroupParticipation, GroupParticipationStatus, Action, Platform, ⊤, gets, or_throw, modify,
  ◌>>=◌, throw, try_catch, unique_violation, record_not_found, not_found, is_record_not_found,
}

-- The unique keys of the table: the id, and the group with the participant.
abbrev pub participation_clash : GroupParticipation → GroupParticipation → Bool
participation_clash g h =
    g.id == h.id || (g.group_id == h.group_id && g.participant_id == h.participant_id)

abbrev pub is_accepted : GroupParticipationStatus → Bool
is_accepted GroupParticipationStatus.accepted = true
is_accepted _ = false

-- An accepted participation of the group.
abbrev pub is_member_of : Uuid → GroupParticipation → Bool
is_member_of group_id gp = gp.group_id == group_id && is_accepted gp.status

-- The key `groupId_participantId`.
abbrev pub is_of : Uuid → Uuid → GroupParticipation → Bool
is_of group_id participant_id gp = gp.group_id == group_id && gp.participant_id == participant_id

module _ ⦃p : Platform⦄ where
  unfoldable pub save : GroupParticipation → Action ⊤
  save row = do
    table ← gets (λ w. w.group_participations)
    table' ← or_throw (p.create participation_clash row table) unique_violation
    modify (λ w. record w { group_participations = table' })

  unfoldable pub save_many : List GroupParticipation → Action ⊤
  save_many rows = do
    table ← gets (λ w. w.group_participations)
    table' ← or_throw (p.create_many participation_clash rows table) unique_violation
    modify (λ w. record w { group_participations = table' })

  unfoldable pub find_by_user_ids : Uuid → List Uuid → Action (List GroupParticipation)
  find_by_user_ids group_id user_ids = gets (λ w.
      p.find_many
        (λ gp. gp.group_id == group_id && some_of (λ id. id == gp.participant_id) user_ids)
        w.group_participations)

  -- Members of every status.
  unfoldable pub find_members_by_group_id : Uuid → Action (List GroupParticipation)
  find_members_by_group_id group_id =
      gets (λ w. p.find_many (λ gp. gp.group_id == group_id) w.group_participations)

  unfoldable pub count_member : Uuid → Action ℕ
  count_member group_id = gets (λ w. p.count (is_member_of group_id) w.group_participations)

  unfoldable pub delete : Uuid → Uuid → Action ⊤
  delete group_id participant_id = do
    table ← gets (λ w. w.group_participations)
    table' ← or_throw (p.delete (is_of group_id participant_id) table) record_not_found
    modify (λ w. record w { group_participations = table' })

  unfoldable pub update : Uuid → Uuid → (GroupParticipation → GroupParticipation) → Action ⊤
  update group_id participant_id change =
      try_catch
        (do
          table ← gets (λ w. w.group_participations)
          table' ← or_throw (p.update (is_of group_id participant_id) change table) record_not_found
          modify (λ w. record w { group_participations = table' }))
        (λ e. if is_record_not_found e then throw not_found else throw e)
