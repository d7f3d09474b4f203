-- ===== src/Groups/Creation.antt =====
-- `create` of src/domain/services/groups/groups.service.ts.
use be.Prelude.{suc, ◌+◌, List, ◌∷◌, ◌≡◌, arith, length}
use be.Store.{Uuid, World, Result, ok, err, Platform, ⊤, rolled_back, transactional-eq}
use be.Groups.Entities.{GroupPrototype, group}
use be.Groups.Repository.{group_clash}
use be.Groups.Service.{create, create_body}
use be.Groups.Members.{
  members, rows_from, all_members, check_is_friend_all-state, participations-eq,
  create_many-members,
}

module _ ⦃p : Platform⦄ where
  -- What a call that throws leaves as it was, and what one that returns has stored.
  abbrev pub Created : GroupPrototype → List Uuid → World → Result ⊤ × World → Type 0
  Created proto friend_ids w (ok _, w') =
      (w'.groups ≡ group proto (p.uuid w.draws) (p.clock (suc w.ticks)) ∷ w.groups)
      × (members (p.uuid w.draws) w' ≡ members (p.uuid w.draws) w + 1 + length friend_ids)
  Created proto friend_ids w (err _, w') =
      (w'.groups ≡ w.groups) × (w'.group_participations ≡ w.group_participations)

  -- A call of create that returns has stored the group and, in it, one member more than the
  -- friends given, however many they are; a call that throws leaves groups and participations as
  -- they were.
  pub create_group-Created :
      (proto : GroupPrototype) (friend_ids : List Uuid) (w : World)
      → Created proto friend_ids w (create proto friend_ids w)
  unfolding create create_body rolled_back
  create_group-Created proto friend_ids w =
      let w2 : World = record w { ticks = suc (suc w.ticks); draws = suc w.draws } in
      let g = p.uuid w.draws in
      let ids = proto.owner_id ∷ friend_ids in
      let rows = rows_from p.uuid g (p.clock w.ticks) ids (suc w.draws) in
      let row = group proto g (p.clock (suc w.ticks)) in
      let w3 : World = record w2 { draws = w2.draws + length ids } in
      grind (
        arith,
        check_is_friend_all-state proto.owner_id friend_ids w,
        participations-eq g (p.clock w.ticks) ids w2,
        all_members p.uuid g (p.clock w.ticks) ids (suc w.draws),
        transactional-eq (create_body row rows) w3,
        p.create_lem group_clash row w.groups,
        create_many-members g rows w.group_participations,
      )
