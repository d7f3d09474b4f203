-- ===== src/Groups/Listing.antt =====
-- Which groups the list of a user's groups shows (`read` of
-- src/domain/components/group/groups-reader.ts).
use be.Prelude.{
  String, Bool, true, false, ◌&&◌, List, [], ◌==◌, keep, length, ◌≤◌, ◌<◌, ◌≡◌, refl, sym, ◌∙◌, ap,
  arith, ltb, All, All-Memᴰ, All-map, All-of_Memᴰ, Holds, keys, values, collect_by,
  collect_by-Holds, collect_by-IsDistinct, length-IsDistinct, length-map, length-take_le, one_of,
  one_of-map, Memᴰ-take, Memᴰ-perm, Memᴰ-keep, Memᴰ-join, Memᴰ-group_by, is_some,
}
use mathlib.Core.List.{Memᴰ}
use mathlib.Core.Path.{subst}
use be.Store.{Uuid, User, Group, GroupParticipation, World, Platform}
use be.Paging.{IsPage, PaginationInput}
use be.Groups.Types.{ListedGroup}
use be.Groups.Queries.{
  GroupRow, group_rows, listed, with_member, by_join_date, group_ids, find_groups_by_user_id,
  is_accepted,
}
use be.Groups.Reader.{read}
use be.Groups.Shown.{IsMember, is_active, with_member-id, with_member-members}

-- The user is an accepted member of the group since before the cursor, and the owner is active.
abbrev pub IsJoined : ⦃p : Platform⦄ → Uuid → String → World → Uuid → Type 0
IsJoined ⦃p⦄ user cursor w group =
    (gp : GroupParticipation) × (g : Group) × (owner : User) × Memᴰ gp w.group_participations
    × Memᴰ g w.groups
    × Memᴰ owner w.users
    × (is_some owner.deleted_at ≡ false)
    × (g.owner_id ≡ owner.id)
    × (gp.group_id ≡ group)
    × (g.id ≡ group)
    × (gp.participant_id ≡ user)
    × (is_accepted gp.status ≡ true)
    × (gp.created_at < p.date cursor)

abbrev Shows : World → List Uuid → Uuid → ListedGroup → Type 0
Shows w ids k v = (v.id ≡ k) × (one_of ids k ≡ true) × All (IsMember w k) v.members

module _ ⦃p : Platform⦄ where
  abbrev selected : List Uuid → World → List GroupRow
  selected ids w =
      p.order_by (by_join_date (λ row. row.participation) (λ row. row.group))
        (keep (λ row. one_of ids row.group.id) (group_rows w))

  abbrev found : List Uuid → World → List (Uuid × ListedGroup)
  found ids w = collect_by (λ row. row.group.id) listed with_member (selected ids w) []

  found-Holds : (ids : List Uuid) (w : World) → Holds (Shows w ids) (found ids w)
  found-Holds ids w =
      collect_by-Holds (λ row. row.group.id) listed with_member (Shows w ids) (selected ids w) []
        (All-of_Memᴰ (selected ids w) λ row m. (refl, (from row m).1, tt))
        (All-of_Memᴰ (selected ids w) λ row m v h.
          (with_member-id row v ∙ h.0, h.1, with_member-members w row v (from row m).0 h.2))
        tt
    where
      from :
          (row : GroupRow)
          → Memᴰ row (selected ids w)
          → Memᴰ row (group_rows w) × (one_of ids row.group.id ≡ true)
      from row m =
          Memᴰ-keep (λ r. one_of ids r.group.id) (group_rows w) row
            (Memᴰ-perm (p.order_by_perm (by_join_date (λ r. r.participation) (λ r. r.group)) _) m)

  found-length : (ids : List Uuid) (w : World) → length (values (found ids w)) ≤ length ids
  found-length ids w = omega (
    arith,
    length-map (λ e. e.1) (found ids w),
    length-map (λ e. e.0) (found ids w),
    length-IsDistinct (keys (found ids w)) ids
        (collect_by-IsDistinct (λ row. row.group.id) listed with_member (selected ids w) [] tt)
        (All-map (λ k. one_of ids k ≡ true) (λ e. e.0) (found ids w)
          (All-of_Memᴰ (found ids w) λ e m. (All-Memᴰ _ (found ids w) (found-Holds ids w) m).1)),
  )

  abbrev demanded : Uuid → PaginationInput → (GroupParticipation × Group) × User → Bool
  demanded user input row =
      row.0.0.participant_id == user
      && is_accepted row.0.0.status
      && ltb row.0.0.created_at (p.date input.cursor)

  group_ids-IsJoined :
      (user : Uuid) (input : PaginationInput) (w : World) (k : Uuid)
      → one_of (group_ids user input w) k ≡ true
      → IsJoined user input.cursor w k
  unfolding group_ids
  group_ids-IsJoined user input w k e =
      let (row, m, same) = one_of-map (λ row. row.0.0.group_id) _ k e in
      let (n, fits) = Memᴰ-keep (demanded user input) _ row (
        Memᴰ-group_by _ _ row (
          Memᴰ-perm (p.order_by_perm (by_join_date (λ r. r.0.0) (λ r. r.0.1)) _)
            (Memᴰ-take input.limit _ row m))) in
      let (inner, active, owned) = Memᴰ-join (λ r ou. r.1.owner_id == ou.id) _ _ row n in
      let (there, undeleted) = Memᴰ-keep is_active w.users row.1 active in
      let (mine, stored, of) = Memᴰ-join (λ gp g. g.id == gp.group_id) _ _ row.0 inner in
      (
        row.0.0,
        row.0.1,
        row.1,
        mine,
        stored,
        there,
        ground arith,
        ground arith,
        same,
        ground arith,
        ground arith,
        ground arith,
        ground arith,
      )

  group_ids-length :
      (user : Uuid) (input : PaginationInput) (w : World)
      → length (group_ids user input w) ≤ input.limit
  unfolding group_ids
  group_ids-length user input w = omega (
    arith,
    length-map {A = (GroupParticipation × Group) × User} (λ row. row.0.0.group_id) _,
    length-take_le {A = (GroupParticipation × Group) × User} input.limit _,
  )

  -- Reading a user’s groups returns and changes nothing. The user is an accepted member of every
  -- group on the page since before the cursor, and its owner is active; the members that it shows
  -- are active accounts with a participation in the group and not its owner; and there are no more
  -- groups than the limit.
  pub read-IsJoined :
      (user : Uuid) (input : PaginationInput) (w : World)
      → IsPage
          (λ g. IsJoined user input.cursor w g.id × All (IsMember w g.id) g.members)
          input.limit
          w
          (read user input w)
  unfolding read find_groups_by_user_id
  read-IsJoined user input w =
      let ids = group_ids user input w in
      (
        _,
        refl,
        All-map _ (λ e. e.1) (found ids w)
            (All-of_Memᴰ (found ids w) λ e m.
              let (same, listed, members) = All-Memᴰ _ (found ids w) (found-Holds ids w) m in
              (
                group_ids-IsJoined user input w e.1.id (ap (one_of ids) same ∙ listed),
                subst (λ k. All (IsMember w k) e.1.members) (sym same) members,
              )),
        omega (arith, found-length ids w, group_ids-length user input w),
      )
