-- ===== src/Groups/Queries.antt =====
-- src/infrastructure/repositories/group/groups-prisma.repository.ts: the list of a user's groups and
-- the detail of a group.
use be.Prelude.{
  String, Bool, true, false, not, ◌&&◌, Option, none, some, List, [], ◌∷◌, ◌++◌, map, ◌==◌, ltb,
  str_eq, desc, then_by, if◌then◌else◌, keep, take, flat_map, or_null, join, group_by, one_of,
  collect_by, values, get_elem?,
}
use be.Store.{
  Uuid, User, Group, GroupParticipation, GroupParticipationStatus, World, Action, Platform, gets,
  active_users,
}
use be.Paging.{PaginationInput}
use be.Users.Types.{minimal}
use be.Groups.Types.{ListedGroup}

abbrev pub is_accepted : GroupParticipationStatus → Bool
is_accepted GroupParticipationStatus.accepted = true
is_accepted _ = false

pub record GroupRow : Type 0 where
  pub group : Group
  pub participation : GroupParticipation
  pub owner : User
  pub member : Option User

-- The group of every participation, with its owner and, if active, the participant.
abbrev pub group_rows : World → List GroupRow
group_rows w =
    flat_map
      (λ g.
        flat_map
          (λ gp.
            flat_map
              (λ ou.
                map (λ mu. record { group = g; participation = gp; owner = ou; member = mu })
                  (or_null (keep (λ mu. gp.participant_id == mu.id) (active_users w))))
              (keep (λ ou. g.owner_id == ou.id) (active_users w)))
          (keep (λ gp. g.id == gp.group_id) w.group_participations))
      w.groups

abbrev pub listed : GroupRow → ListedGroup
listed row = record {
  id = row.group.id;
  name = row.group.name;
  description = row.group.description;
  gathering_count = row.group.gathering_count;
  group_image_url = row.group.group_image_url;
  join_date = row.participation.created_at;
  owner = minimal row.owner;
  members = [];
}

abbrev pub truthy : String → Bool
truthy s = not (str_eq s "")

-- The owner is not counted as a member.
abbrev pub with_member : GroupRow → ListedGroup → ListedGroup
with_member row group = elim row.member [
  | none ↦ group
  | some m ↦
      if truthy m.account_id && truthy m.name && not (m.id == row.owner.id)
      then record group { members = group.members ++ minimal m ∷ [] }
      else group
]

module _ ⦃p : Platform⦄ where
  -- `ORDER BY gp.created_at DESC, g.name ASC`
  unfoldable pub by_join_date : {A : Type 0} → (A → GroupParticipation) → (A → Group) → A → A → Bool
  by_join_date participation group =
      then_by (desc (λ x. (participation x).created_at))
        (λ x y. p.text_before (group x).name (group y).name)

  -- The ids of the user's groups on a page, each with the user's own participation.
  unfoldable pub group_ids : Uuid → PaginationInput → World → List Uuid
  unfolding by_join_date
  group_ids user_id input w =
      map (λ row. row.0.0.group_id)
        (take input.limit (
          p.order_by (by_join_date (λ row. row.0.0) (λ row. row.0.1)) (
            group_by
              (λ row other.
                row.0.0.group_id == other.0.0.group_id
                && row.0.0.created_at == other.0.0.created_at
                && str_eq row.0.1.name other.0.1.name)
              (keep
                (λ row.
                  row.0.0.participant_id == user_id
                  && is_accepted row.0.0.status
                  && ltb row.0.0.created_at (p.date input.cursor))
                (join (λ row ou. row.1.owner_id == ou.id)
                  (join (λ gp g. g.id == gp.group_id) w.group_participations w.groups)
                  (active_users w))))))

  unfoldable pub find_groups_by_user_id : Uuid → PaginationInput → Action (List ListedGroup)
  unfolding by_join_date group_ids
  find_groups_by_user_id user_id input = gets (λ w. values (
      collect_by (λ row. row.group.id) listed with_member
        (p.order_by (by_join_date (λ row. row.participation) (λ row. row.group))
          (keep (λ row. one_of (group_ids user_id input w) row.group.id) (group_rows w)))
        []))

  unfoldable pub find_detail_by_id : Uuid → Action (Option ListedGroup)
  find_detail_by_id id = gets (λ w.
      get_elem?
        (values (
          collect_by (λ row. row.group.id) listed with_member
            (p.find_many (λ row. row.group.id == id) (group_rows w)) []))
        0)
