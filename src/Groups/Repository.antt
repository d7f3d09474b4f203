-- ===== src/Groups/Repository.antt =====
-- src/infrastructure/repositories/group/groups-prisma.repository.ts: the lookups and the writes.
use be.Prelude.{Bool, false, ◌&&◌, Option, none, some, ◌==◌}
use be.Store.{
  Uuid, Group, Action, Platform, ⊤, gets, or_throw, modify, ◌>>=◌, unique_violation,
  record_not_found,
}

abbrev pub group_clash : Group → Group → Bool
group_clash g h = g.id == h.id

abbrev pub in_group : Uuid → Option Uuid → Bool
in_group group_id none = false
in_group group_id (some id) = id == group_id

module _ ⦃p : Platform⦄ where
  unfoldable pub save : Group → Action ⊤
  save group = do
    table ← gets (λ w. w.groups)
    table' ← or_throw (p.create group_clash group table) unique_violation
    modify (λ w. record w { groups = table' })

  unfoldable pub find_one_by_id : Uuid → Action (Option Group)
  find_one_by_id id = gets (λ w. p.find_first (λ g. g.id == id) w.groups)

  unfoldable pub find_one_by_group_and_owner_id : Uuid → Uuid → Action (Option Group)
  find_one_by_group_and_owner_id group_id owner_id =
      gets (λ w. p.find_first (λ g. g.id == group_id && g.owner_id == owner_id) w.groups)

  unfoldable pub update : Uuid → (Group → Group) → Action ⊤
  update id change = do
    table ← gets (λ w. w.groups)
    table' ← or_throw (p.update (λ g. g.id == id) change table) record_not_found
    modify (λ w. record w { groups = table' })

  -- With the referential actions of prisma/schema.prisma: the participations of the group are
  -- removed (`onDelete: Cascade`), and its gatherings have no group any more (the default for an
  -- optional relation).
  unfoldable pub delete : Uuid → Action ⊤
  delete group_id = do
    table ← gets (λ w. w.groups)
    table' ← or_throw (p.delete (λ g. g.id == group_id) table) record_not_found
    modify (λ w. record w {
      groups = table';
      group_participations = p.delete_many (λ gp. gp.group_id == group_id) w.group_participations;
      gatherings =
          p.update_many (λ g. in_group group_id g.group_id) (λ g. record g { group_id = none })
            w.gatherings;
    })
