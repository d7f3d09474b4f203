-- ===== src/Groups/Shown.antt =====
-- Which members the list of groups shows: the rows of its query hold stored ones.
use be.Prelude.{
  Bool, true, false, not, ◌&&◌, some, [], ◌∷◌, ◌==◌, keep, ◌≡◌, refl, sym, ◌∙◌, ap, arith, All,
  Memᴰ-keep, Option-cases, Bool-cases, inl, inr, str_eq, All-append, is_some, none, or_null, ◌⊎◌,
  Memᴰ-flat_map, Memᴰ-map, Memᴰ-or_null,
}
use mathlib.Core.List.{Memᴰ}
use mathlib.Core.Path.{subst}
use be.Store.{Uuid, User, Group, GroupParticipation, World, active_users}
use be.Users.Types.{MinimalUser, minimal}
use be.Groups.Types.{ListedGroup}
use be.Groups.Queries.{GroupRow, group_rows, with_member}

-- A shown member is an active account with a participation in the group, and does not own it.
abbrev pub IsMember : World → Uuid → MinimalUser → Type 0
IsMember w group m =
    (gp : GroupParticipation) × (g : Group) × (u : User) × Memᴰ gp w.group_participations
    × Memᴰ g w.groups
    × Memᴰ u w.users
    × (gp.group_id ≡ group)
    × (g.id ≡ group)
    × (gp.participant_id ≡ u.id)
    × (is_some u.deleted_at ≡ false)
    × ((u.id == g.owner_id) ≡ false)
    × (minimal u ≡ m)

pub with_member-id : (row : GroupRow) (v : ListedGroup) → (with_member row v).id ≡ v.id
with_member-id row v = elim (Option-cases row.member) [
  | inl e ↦ ground arith
  | inr (m, e) ↦ ground arith
]

-- A row holds a stored group, one of its participations and, with a member, an active account.
abbrev IsStored : World → GroupRow → Type 0
IsStored w row =
    Memᴰ row.group w.groups
    × Memᴰ row.participation w.group_participations
    × (row.participation.group_id ≡ row.group.id)
    × (row.owner.id ≡ row.group.owner_id)
    × ((row.member ≡ none)
        ⊎ ((u : User) × (row.member ≡ some u)
            × Memᴰ u w.users
            × (row.participation.participant_id ≡ u.id)
            × (is_some u.deleted_at ≡ false)))

abbrev pub is_active : User → Bool
is_active u = not (is_some u.deleted_at)

group_rows-IsStored : (w : World) (row : GroupRow) → Memᴰ row (group_rows w) → IsStored w row
group_rows-IsStored w row m =
    let (g, stored, m1) = Memᴰ-flat_map _ w.groups row m in
    let (gp, n2, m2) =
      Memᴰ-flat_map _ (keep (λ gp. g.id == gp.group_id) w.group_participations) row m1 in
    let (kept, of) = Memᴰ-keep (λ gp. g.id == gp.group_id) w.group_participations gp n2 in
    let (ou, n3, m3) = Memᴰ-flat_map _ (keep (λ ou. g.owner_id == ou.id) (active_users w)) row m2 in
    let (_, owned) = Memᴰ-keep (λ ou. g.owner_id == ou.id) (active_users w) ou n3 in
    let (mu, n4, e) =
      Memᴰ-map _ (or_null (keep (λ mu. gp.participant_id == mu.id) (active_users w))) row m3 in
    subst (IsStored w) (sym e) (
      stored,
      kept,
      ground arith,
      ground arith,
      elim (Memᴰ-or_null (keep (λ mu. gp.participant_id == mu.id) (active_users w)) mu n4) [
        | inl (absent, _) ↦ inl absent
        | inr (u, there, n5) ↦
            let (n6, same) = Memᴰ-keep (λ mu. gp.participant_id == mu.id) (active_users w) u n5 in
            let (n7, active) = Memᴰ-keep is_active w.users u n6 in
            inr (u, there, n7, ground arith, ground arith)
      ],
    )

pub with_member-members :
    (w : World) (row : GroupRow) (v : ListedGroup)
    → Memᴰ row (group_rows w)
    → All (IsMember w row.group.id) v.members
    → All (IsMember w row.group.id) (with_member row v).members
with_member-members w row v m h = elim (Option-cases row.member) [
  | inl e ↦ rw e h
  | inr (u, e) ↦
      elim (Bool-cases
        (not (str_eq u.account_id "") && not (str_eq u.name "") && not (u.id == row.owner.id))) [
          | inl fits ↦ rw e (
              rw fits (
                All-append (IsMember w row.group.id) v.members (minimal u ∷ []) h
                  (shown u e fits, tt)))
          | inr unfit ↦ rw e (rw unfit h)
        ]
]
  where
    shown :
        (u : User)
        → row.member ≡ some u
        → (not (str_eq u.account_id "") && not (str_eq u.name "") && not (u.id == row.owner.id))
          ≡ true
        → IsMember w row.group.id (minimal u)
    shown u e fits =
        let (stored, joined, of, owned, who) = group_rows-IsStored w row m in
        elim who [
          | inl absent ↦ cc
          | inr (v, there, n, same, active) ↦
              let eq : u ≡ v = cc in
              (
                row.participation,
                row.group,
                u,
                joined,
                stored,
                subst (λ x. Memᴰ x w.users) (sym eq) n,
                of,
                refl,
                same ∙ ap (λ x. x.id) (sym eq),
                ap (λ (x : User). is_some x.deleted_at) eq ∙ active,
                ground arith,
                refl,
              )
        ]
