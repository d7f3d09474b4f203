-- ===== src/Groups/Members.antt =====
-- The number of members of a group, and `addMembers` of
-- src/domain/services/groups/groups.service.ts.
use be.Prelude.{
  ℕ, suc, ◌+◌, ◌≤◌, ◌&&◌, some, List, [], ◌∷◌, ◌≡◌, refl, arith, ◌==◌, some_of, how_many, length,
}
use be.Store.{Uuid, Time, GroupParticipation, World, ok, Platform, for_each}
use be.Friends.Checker
use be.Friends.Checker.{check_is_friend}
use be.Groups.Entities.{participation, participations}
use be.Groups.ParticipationsRepository.{participation_clash, is_member_of}
use be.Groups.Service.{add_members, check_existing, refuse_participation}

-- The rows of new members, with the identifiers from the n-th on.
unfoldable pub rows_from : (ℕ → Uuid) → Uuid → Time → List Uuid → ℕ → List GroupParticipation
rows_from uuid g t [] n = []
rows_from uuid g t (id ∷ ids) n = participation g id (uuid n) t ∷ rows_from uuid g t ids (suc n)

pub all_members :
    (uuid : ℕ → Uuid) (g : Uuid) (t : Time) (ids : List Uuid) (n : ℕ)
    → how_many (is_member_of g) (rows_from uuid g t ids n) ≡ length ids
unfolding rows_from
all_members uuid g t [] n = refl
all_members uuid g t (id ∷ ids) n = ground (arith, all_members uuid g t ids (suc n))

module _ ⦃p : Platform⦄ where
  -- How many members a group has.
  abbrev pub members : Uuid → World → ℕ
  members group_id w = how_many (is_member_of group_id) w.group_participations

  pub check_is_friend-state : (u f : Uuid) (w : World) → (check_is_friend u f w).1 ≡ w
  unfolding check_is_friend
  check_is_friend-state u f w = ground arith

  pub check_is_friend_all-state :
      (u : Uuid) (fs : List Uuid) (w : World) → (Checker.check_is_friend_all u fs w).1 ≡ w
  unfolding Checker.check_is_friend_all
  check_is_friend_all-state u [] w = refl
  check_is_friend_all-state u (f ∷ fs) w =
      ground (arith, check_is_friend-state u f w, check_is_friend_all-state u fs w)

  refusals-state :
      (rows : List GroupParticipation) (w : World)
      → (for_each (λ gp. refuse_participation gp.status) rows w).1 ≡ w
  refusals-state [] w = refl
  refusals-state (gp ∷ rows) w = ground (arith, refusals-state rows w)

  check_existing-state : (g : Uuid) (ids : List Uuid) (w : World) → (check_existing g ids w).1 ≡ w
  unfolding check_existing
  check_existing-state g ids w =
      refusals-state
        (p.find_many (λ gp. gp.group_id == g && some_of (λ id. id == gp.participant_id) ids)
          w.group_participations)
        w

  pub participations-eq :
      (g : Uuid) (t : Time) (ids : List Uuid) (w : World)
      → participations g t ids w
        ≡ (ok (rows_from p.uuid g t ids w.draws), record w { draws = w.draws + length ids })
  unfolding participations rows_from
  participations-eq g t [] w = ground arith
  participations-eq g t (id ∷ ids) w =
      ground (arith, participations-eq g t ids (record w { draws = suc w.draws }))

  pub create_many-members :
      (g : Uuid) (rows t t' : List GroupParticipation)
      → p.create_many participation_clash rows t ≡ some t'
      → how_many (is_member_of g) t' ≡ how_many (is_member_of g) t + how_many (is_member_of g) rows
  create_many-members g [] t t' e = ground (arith, p.create_many_nil participation_clash t)
  create_many-members g (r ∷ rows) t t' e = ground (
    arith,
    p.create_many_cons participation_clash r rows t,
    create_many-members g rows (r ∷ t) t',
  )

  -- A call of addMembers that returns has added exactly as many accepted members as ids were
  -- given, and the group then has at most ten.
  pub add_members-members :
      (g inviter : Uuid) (ids : List Uuid) (w : World)
      → (add_members g inviter ids w).0 ≡ ok tt
      → (members g (add_members g inviter ids w).1 ≡ members g w + length ids)
        × (members g (add_members g inviter ids w).1 ≤ 10)
  unfolding add_members
  add_members-members g inviter ids w e =
      let w2 : World = record w { ticks = suc w.ticks } in
      let rows = rows_from p.uuid g (p.clock w.ticks) ids w.draws in
      grind (
        arith,
        check_is_friend_all-state inviter ids w,
        check_existing-state g ids w,
        p.count_lem (is_member_of g) w.group_participations,
        participations-eq g (p.clock w.ticks) ids w2,
        all_members p.uuid g (p.clock w.ticks) ids w.draws,
        create_many-members g rows w.group_participations,
      )
