-- ===== src/Gatherings/Answers.antt =====
-- `accept` and `reject` of src/domain/components/gathering/gathering-invitations-writer.ts.
use be.Prelude.{
  Bool, true, not, ◌&&◌, List, [], ◌∷◌, ◌≡◌, arith, ◌==◌, if◌then◌else◌, some_of, keep, replace,
}
use be.Store.{
  Uuid, GatheringParticipation, GatheringParticipationStatus, World, ok, err, Platform, forbidden,
  some_of-find_first,
}
use be.Gatherings.InvitationsWriter.{accept, reject}

abbrev pub is_invitation_of : Uuid → Uuid → GatheringParticipation → Bool
is_invitation_of id user gp = gp.id == id && gp.participant_id == user

invitation_exists :
    (id user : Uuid) (t : List GatheringParticipation)
    → some_of (is_invitation_of id user) t ≡ true
    → some_of (λ gp. gp.id == id) t ≡ true
invitation_exists id user [] h = cc
invitation_exists id user (gp ∷ t) h = ground (arith, invitation_exists id user t)

module _ ⦃p : Platform⦄ where
  -- Accepting an invitation is refused and changes nothing unless there is one with the id for the
  -- user, and otherwise marks it as accepted.
  pub accept_invitation-verdict :
      (id user : Uuid) (w : World)
      → accept id user w ≡ (
          if some_of (is_invitation_of id user) w.gathering_participations
          then (
            ok tt,
            record w {
              gathering_participations =
                  replace
                    (λ gp. gp.id == id)
                    (λ gp. record gp { status = GatheringParticipationStatus.accepted })
                    w.gathering_participations;
            },
          )
          else (err forbidden, w))
  unfolding accept
  accept_invitation-verdict id user w = ground (
    arith,
    some_of-find_first (is_invitation_of id user) w.gathering_participations,
    invitation_exists id user w.gathering_participations,
    p.update_lem (λ gp. gp.id == id)
        (λ gp. record gp { status = GatheringParticipationStatus.accepted })
        w.gathering_participations,
  )

  -- Refusing an invitation is refused and changes nothing unless there is one with the id for the
  -- user, and otherwise removes it.
  pub reject_invitation-verdict :
      (id user : Uuid) (w : World)
      → reject id user w ≡ (
          if some_of (is_invitation_of id user) w.gathering_participations
          then (
            ok tt,
            record w {
              gathering_participations = keep (λ gp. not (gp.id == id)) w.gathering_participations;
            },
          )
          else (err forbidden, w))
  unfolding reject
  reject_invitation-verdict id user w = ground (
    arith,
    some_of-find_first (is_invitation_of id user) w.gathering_participations,
    invitation_exists id user w.gathering_participations,
    p.delete_lem (λ gp. gp.id == id) w.gathering_participations,
  )
