-- ===== src/Gatherings/ParticipationsRepository.antt =====
-- src/infrastructure/repositories/gathering/gathering-participations-prisma.repository.ts: the
-- lookups and the writes. The paginated lists are not modelled.
use be.Prelude.{Bool, true, false, ◌&&◌, ◌||◌, Option, none, some, List, [], ◌∷◌, ◌==◌, some_of}
use be.Store.{
  Uuid, User, Gathering, GatheringParticipation, GatheringParticipationStatus, Action, Platform, ⊤,
  gets, or_throw, modify, ◌>>=◌, now, unique_violation, record_not_found,
}

abbrev pub participation_clash : GatheringParticipation → GatheringParticipation → Bool
participation_clash g h = g.id == h.id

abbrev pub is_pending : GatheringParticipationStatus → Bool
is_pending GatheringParticipationStatus.pending = true
is_pending _ = false

-- The relation filter `gathering: { hostUserId }`.
abbrev pub hosted_by : List Gathering → Uuid → GatheringParticipation → Bool
hosted_by gatherings host_user_id gp =
    some_of (λ g. g.id == gp.gathering_id && g.host_user_id == host_user_id) gatherings

-- A pending invitation of one of two users by the other.
abbrev pub is_pending_between : List Gathering → Uuid → Uuid → GatheringParticipation → Bool
is_pending_between gatherings first second gp =
    (gp.participant_id == first && hosted_by gatherings second gp
      || gp.participant_id == second && hosted_by gatherings first gp)
    && is_pending gp.status

module _ ⦃p : Platform⦄ where
  unfoldable pub save : GatheringParticipation → Action ⊤
  save row = do
    table ← gets (λ w. w.gathering_participations)
    table' ← or_throw (p.create participation_clash row table) unique_violation
    modify (λ w. record w { gathering_participations = table' })

  unfoldable pub save_many : List GatheringParticipation → Action ⊤
  save_many rows = do
    table ← gets (λ w. w.gathering_participations)
    table' ← or_throw (p.create_many participation_clash rows table) unique_violation
    modify (λ w. record w { gathering_participations = table' })

  unfoldable pub find_one_by_id_and_participant_id :
      Uuid → Uuid → Action (Option GatheringParticipation)
  find_one_by_id_and_participant_id id participant_id = gets (λ w.
      p.find_first (λ gp. gp.id == id && gp.participant_id == participant_id)
        w.gathering_participations)

  unfoldable pub find_one_by_gathering_id_and_participant_id :
      Uuid → Uuid → Action (Option GatheringParticipation)
  find_one_by_gathering_id_and_participant_id gathering_id participant_id = gets (λ w.
      p.find_first (λ gp. gp.gathering_id == gathering_id && gp.participant_id == participant_id)
        w.gathering_participations)

  -- The user of each row, once for each.
  participants : List User → List GatheringParticipation → List User
  participants users [] = []
  participants users (gp ∷ rest) = elim (p.find_first (λ u. u.id == gp.participant_id) users) [
    | none ↦ participants users rest
    | some u ↦ u ∷ participants users rest
  ]

  -- With what a notification needs to know of a participant.
  unfoldable pub find_participants_with_notice_info : Uuid → Action (List User)
  unfolding participants
  find_participants_with_notice_info gathering_id = gets (λ w.
      participants w.users
        (p.find_many (λ gp. gp.gathering_id == gathering_id) w.gathering_participations))

  unfoldable pub update_status : Uuid → GatheringParticipationStatus → Action ⊤
  update_status invitation_id status = do
    table ← gets (λ w. w.gathering_participations)
    table' ←
        or_throw
          (p.update (λ gp. gp.id == invitation_id) (λ gp. record gp { status = status }) table)
          record_not_found
    modify (λ w. record w { gathering_participations = table' })

  unfoldable pub update_read_at : Uuid → Action ⊤
  unfolding now
  update_read_at user_id = do
    read_at ← now
    modify (λ w. record w {
      gathering_participations =
          p.update_many (λ gp. gp.participant_id == user_id)
            (λ gp. record gp { read_at = some read_at }) w.gathering_participations;
    })

  unfoldable pub delete : Uuid → Action ⊤
  delete invitation_id = do
    table ← gets (λ w. w.gathering_participations)
    table' ← or_throw (p.delete (λ gp. gp.id == invitation_id) table) record_not_found
    modify (λ w. record w { gathering_participations = table' })

  unfoldable pub delete_all_pending_invitation : Uuid → Uuid → Action ⊤
  delete_all_pending_invitation first second = modify (λ w. record w {
    gathering_participations =
        p.delete_many (is_pending_between w.gatherings first second) w.gathering_participations;
  })

  unfoldable pub delete_all_by_gathering_id : Uuid → Action ⊤
  delete_all_by_gathering_id gathering_id = modify (λ w. record w {
    gathering_participations =
        p.delete_many (λ gp. gp.gathering_id == gathering_id) w.gathering_participations;
  })
