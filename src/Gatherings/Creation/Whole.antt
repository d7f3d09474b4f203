-- ===== src/Gatherings/Creation/Whole.antt =====
-- The whole of `create`: its tests, the choice of the invitees, the transaction and the notices.
use be.Prelude.{
  suc, ◌+◌, Option, none, some, List, ◌∷◌, ◌≡◌, refl, arith, inl, inr, ◌==◌, if◌then◌else◌,
  how_many, length, ◌⊎◌, ap, sym, ◌∙◌,
}
use be.Store.{
  Uuid, Time, GatheringType, World, Result, ok, err, Platform, ⊤, Result-cases, rolled_back,
}
use be.Gatherings.ParticipationsRepository.{is_pending}
use be.Groups.Members.{check_is_friend_all-state}
use be.Gatherings.Entities.{GatheringPrototype, gathering}
use be.Gatherings.Service.{
  status_for, create, create_transaction, validate, invitees, set_group_invitees,
  set_friend_invitees, create_entities,
}
use be.Gatherings.Creation.{
  rows_from, is_accepted, is_for, times, all-made, accepted-made, pending-made, create_bulk-eq,
  create_transaction-Stored,
}
use be.Notifications.Quiet.{send_gathering_creation-IsQuiet}
use be.Notifications.Manager

module _ ⦃p : Platform⦄ where
  -- The validation reads the clock once at most, and nothing else changes.
  validate-state :
      (type : GatheringType) (group : Option Uuid) (friends : Option (List Uuid)) (date : Time)
      (w : World)
      → ((validate type group friends date w).1 ≡ w)
        ⊎ ((validate type group friends date w).1 ≡ record w { ticks = suc w.ticks })
  unfolding validate
  validate-state type group friends date w = ground arith

  validate-ok :
      (type : GatheringType) (group : Option Uuid) (friends : Option (List Uuid)) (date : Time)
      (w : World)
      → (validate type group friends date w).0 ≡ ok tt
      → (validate type group friends date w).1 ≡ record w { ticks = suc w.ticks }
  unfolding validate
  validate-ok type group friends date w e = ground arith

  group_invitees-state : (g : Uuid) (w : World) → (set_group_invitees g w).1 ≡ w
  unfolding set_group_invitees
  group_invitees-state g w = ground arith

  friend_invitees-state :
      (ids : List Uuid) (host : Uuid) (w : World) → (set_friend_invitees ids host w).1 ≡ w
  unfolding set_friend_invitees
  friend_invitees-state ids host w = ground (arith, check_is_friend_all-state host ids w)

  invitees-state :
      (type : GatheringType) (group : Option Uuid) (friends : Option (List Uuid)) (host : Uuid)
      (w : World)
      → (invitees type group friends host w).1 ≡ w
  unfolding invitees
  invitees-state GatheringType.group (some g) friends host w = group_invitees-state g w
  invitees-state GatheringType.group none friends host w = refl
  invitees-state GatheringType.friend group (some ids) host w = friend_invitees-state ids host w
  invitees-state GatheringType.friend group none host w = refl

  entities-eq :
      (input : GatheringPrototype) (ids : List Uuid) (w : World)
      → create_entities input ids w ≡ (
        ok (
          gathering input (p.uuid w.draws) (p.clock w.ticks),
          rows_from p.uuid
              (p.uuid w.draws)
              (status_for input.host_user_id)
              (p.clock w.ticks)
              ids
              (suc w.draws),
        ),
        record w { ticks = suc w.ticks; draws = suc w.draws + length ids },
      )
  unfolding create_entities
  entities-eq input ids w = ground (
    arith,
    create_bulk-eq (p.uuid w.draws) (status_for input.host_user_id) (p.clock w.ticks) ids
        (record w { ticks = suc w.ticks; draws = suc w.draws }),
  )

  -- What a call that throws leaves as it was, and what one that returns has stored for a user.
  abbrev pub Created :
      GatheringPrototype → Option (List Uuid) → Uuid → World → Result ⊤ × World → Type 0
  Created input friends user w (ok _, w') =
      let g = p.uuid w.draws in
      let host = input.host_user_id in
      let before = w.gathering_participations in
      let after = w'.gathering_participations in
      (ids : List Uuid) × ((invitees input.type input.group_id friends host
          (record w { ticks = suc w.ticks })).0
        ≡ ok ids)
      × (w'.gatherings ≡ gathering input g (p.clock (suc w.ticks)) ∷ w.gatherings)
      × (how_many (λ gp. gp.gathering_id == g) after
          ≡ how_many (λ gp. gp.gathering_id == g) before + length ids)
      × (how_many (is_for g user is_accepted) after
          ≡ how_many (is_for g user is_accepted) before
            + (if user == host then times user ids else 0))
      × (how_many (is_for g user is_pending) after
          ≡ how_many (is_for g user is_pending) before
            + (if user == host then 0 else times user ids))
  Created input friends user w (err _, w') =
      (w'.gatherings ≡ w.gatherings) × (w'.gathering_participations ≡ w.gathering_participations)

  -- A call of create that returns has stored the gathering first in its table and one
  -- participation in it for each invitee that the validated input gives; for any user, the host
  -- has then as many accepted participations more as they are among the invitees and no pending
  -- one more, and everybody else as many pending ones and no accepted one more; a call that throws
  -- leaves gatherings and participations as they were.
  pub create_gathering-Created :
      (input : GatheringPrototype) (friends : Option (List Uuid)) (user : Uuid) (w : World)
      → Created input friends user w (create input friends w)
  unfolding create rolled_back
  create_gathering-Created input friends user w =
      elim (Result-cases (validate input.type input.group_id friends input.gathering_date w)) [
        | inr (x, w1, e) ↦
            ground (arith, validate-state input.type input.group_id friends input.gathering_date w)
        | inl (a, w1, e) ↦
            let host = input.host_user_id in
            let w1' : World = record w { ticks = suc w.ticks } in
            let same : w1 ≡ w1' =
              ground
                (arith, validate-ok input.type input.group_id friends input.gathering_date w) in
            elim (Result-cases (invitees input.type input.group_id friends host w1')) [
              | inr (x, w2, h) ↦
                  ground (arith, invitees-state input.type input.group_id friends host w1')
              | inl (ids, w2, h) ↦
                  let row = gathering input (p.uuid w.draws) (p.clock (suc w.ticks)) in
                  let rows =
                    rows_from p.uuid (p.uuid w.draws) (status_for host) (p.clock (suc w.ticks)) ids
                      (suc w.draws) in
                  let w3 : World = record w {
                    ticks = suc (suc w.ticks);
                    draws = suc w.draws + length ids;
                  } in
                  elim (create_transaction-Stored row rows w3) [
                    | inr (failed, w4) ↦ ground (
                      arith,
                      invitees-state input.type input.group_id friends host w1',
                      entities-eq input ids w1',
                    )
                    | inl (done, gs, counts) ↦
                        let w4 = (create_transaction row rows w3).1 in
                        let w5 = (Manager.send_gathering_creation host ids w4).1 in
                        let quiet = send_gathering_creation-IsQuiet host ids w4 in
                        let eq : create input friends w ≡ (ok tt, w5) = ground (
                          arith,
                          invitees-state input.type input.group_id friends host w1',
                          entities-eq input ids w1',
                        ) in
                        rw eq (
                          ids,
                          ap (λ o. o.0) h,
                          ap (λ v. v.gatherings) (sym quiet) ∙ gs,
                          ground (
                            arith,
                            quiet,
                            counts (λ gp. gp.gathering_id == p.uuid w.draws),
                            all-made p.uuid (p.uuid w.draws) host user (p.clock (suc w.ticks)) ids
                                (suc w.draws),
                          ),
                          ground (
                            arith,
                            quiet,
                            counts (is_for (p.uuid w.draws) user is_accepted),
                            accepted-made p.uuid (p.uuid w.draws) host user (p.clock (suc w.ticks))
                                ids (suc w.draws),
                          ),
                          ground (
                            arith,
                            quiet,
                            counts (is_for (p.uuid w.draws) user is_pending),
                            pending-made p.uuid (p.uuid w.draws) host user (p.clock (suc w.ticks))
                                ids (suc w.draws),
                          ),
                        )
                  ]
            ]
      ]
