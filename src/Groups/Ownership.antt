-- ===== src/Groups/Ownership.antt =====
-- `leaveGroup` and `delete` of src/domain/services/groups/groups.service.ts, for the owner and for
-- other users.
use be.Prelude.{
  Bool, true, not, ◌&&◌, none, List, [], ◌∷◌, ◌≡◌, arith, ◌==◌, if◌then◌else◌, some_of, keep,
  replace,
}
use be.Store.{
  Uuid, Group, World, ok, err, Platform, group_owner_cannot_leave, record_not_found, forbidden,
  some_of-find_first,
}
use be.Groups.Repository.{in_group}
use be.Groups.ParticipationsRepository.{is_of}
use be.Groups.Service.{leave_group, delete}

-- The group is this user's.
abbrev pub owns : Uuid → Uuid → Group → Bool
owns group_id user_id g = g.id == group_id && g.owner_id == user_id

module _ ⦃p : Platform⦄ where
  -- The owner of a group is refused to leave it, a user without a participation meets the error of
  -- the missing row, and for every other user the participation is removed.
  pub leave_group-verdict :
      (group_id user_id : Uuid) (w : World)
      → leave_group group_id user_id w ≡ (
          if some_of (owns group_id user_id) w.groups
          then (err group_owner_cannot_leave, w)
          else if some_of (is_of group_id user_id) w.group_participations
          then (
            ok tt,
            record w {
              group_participations =
                  keep (λ gp. not (is_of group_id user_id gp)) w.group_participations;
            },
          )
          else (err record_not_found, w))
  unfolding leave_group
  leave_group-verdict group_id user_id w = ground (
    arith,
    some_of-find_first (owns group_id user_id) w.groups,
    p.delete_lem (is_of group_id user_id) w.group_participations,
  )

  -- The state after a group is gone, with its participations and the references of its gatherings.
  abbrev pub without_group : Uuid → World → World
  without_group group_id w = record w {
    groups = keep (λ g. not (g.id == group_id)) w.groups;
    group_participations = keep (λ gp. not (gp.group_id == group_id)) w.group_participations;
    gatherings =
        replace (λ g. in_group group_id g.group_id) (λ g. record g { group_id = none })
          w.gatherings;
  }

  owned_exists :
      (group_id user_id : Uuid) (t : List Group)
      → some_of (owns group_id user_id) t ≡ true
      → some_of (λ g. g.id == group_id) t ≡ true
  owned_exists group_id user_id [] h = cc
  owned_exists group_id user_id (g ∷ t) h = ground (arith, owned_exists group_id user_id t)

  -- Deleting a group is refused and changes nothing unless the user owns it, and otherwise removes
  -- the group and its participations and clears the reference of its gatherings.
  pub delete_group-verdict :
      (group_id user_id : Uuid) (w : World)
      → delete group_id user_id w ≡ (
          if some_of (owns group_id user_id) w.groups
          then (ok tt, without_group group_id w)
          else (err forbidden, w))
  unfolding delete
  delete_group-verdict group_id user_id w = ground (
    arith,
    some_of-find_first (owns group_id user_id) w.groups,
    owned_exists group_id user_id w.groups,
    p.delete_lem (λ g. g.id == group_id) w.groups,
    p.delete_many_lem (λ gp. gp.group_id == group_id) w.group_participations,
    p.update_many_lem (λ g. in_group group_id g.group_id) (λ g. record g { group_id = none })
        w.gatherings,
  )
