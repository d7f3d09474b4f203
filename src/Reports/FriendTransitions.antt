-- ===== src/Reports/FriendTransitions.antt =====
-- `report` of src/domain/components/report/friend-reports-write.service.ts.
use be.Prelude.{true, not, none, some, ◌∷◌, ◌≡◌, arith, Option-cases, inl, inr, keep, suc}
use be.Store.{
  Uuid, FriendStatus, World, Result, ok, err, Platform, ⊤, rolled_back, transactional-eq,
}
use be.Friends.Repository.{links}
use be.Friends.Relation.{same_pair, IsValid}
use be.Friends.Relation.Lookups.{status_of-Memᴰ}
use be.Friends.Relation.Writes.{keep-IsValid, status_of-keep_same, status_of-keep_other}
use be.Friends.Transitions.{Turns}
use be.Friends.Others.{Keeps}
use be.Gatherings.ParticipationsRepository.{is_pending_between}
use be.Reports.Entities.{ReportPrototype, report_entity, blocked_user}
use be.Reports.Repository.{report_clash, blocked_clash}
use be.Reports.FriendReports.{report, report_transaction, report_body}

same_pair_refl : (a b : Uuid) → same_pair a b a b ≡ true
same_pair_refl a b = ground arith

module _ ⦃p : Platform⦄ where
  -- On a valid table, a report that returns has turned the relation of the two users from accepted
  -- to none in a table that is still valid, and one that throws leaves the table as it was.
  pub report-Turns :
      (proto : ReportPrototype) (w : World)
      → IsValid w.friends
      → Turns proto.reporter_id proto.reported_id
          (some FriendStatus.accepted)
          none
          w
          (report proto w)
  unfolding report report_transaction report_body rolled_back
  report-Turns proto w v =
      let a = proto.reporter_id in
      let b = proto.reported_id in
      elim (Option-cases (p.find_first (links a b) w.friends)) [
        | inl e ↦ ground arith
        | inr (f, e) ↦
            let (m, l) = p.find_first_some (links a b) w.friends f e in
            ground (
              arith,
              status_of-Memᴰ a b w.friends f v m l,
              transactional-eq (report_body proto) w,
              p.delete_many_lem (links a b) w.friends,
              keep-IsValid (λ f. not (links a b f)) w.friends v,
              status_of-keep_same a b a b w.friends (same_pair_refl a b),
            )
      ]

  pub report-Keeps :
      (proto : ReportPrototype) (w : World)
      → Keeps proto.reporter_id proto.reported_id w (report proto w)
  unfolding report report_transaction report_body rolled_back
  report-Keeps proto w c d other =
      let a = proto.reporter_id in
      let b = proto.reported_id in
      ground (
        arith,
        transactional-eq (report_body proto) w,
        p.delete_many_lem (links a b) w.friends,
        status_of-keep_other a b c d w.friends other,
      )

  -- What a report that throws leaves as it was, and what one that returns has written.
  abbrev pub Reported : ReportPrototype → World → Result ⊤ × World → Type 0
  Reported proto w (ok _, w') =
      let a = proto.reporter_id in
      let b = proto.reported_id in
      (w'.reports ≡ report_entity proto (p.uuid w.draws) (p.clock w.ticks) ∷ w.reports)
      × (w'.blocked_users ≡ blocked_user a b (p.clock (suc w.ticks)) ∷ w.blocked_users)
      × (w'.friends ≡ keep (λ f. not (links a b f)) w.friends)
      × (w'.gathering_participations
          ≡ keep (λ gp. not (is_pending_between w.gatherings a b gp)) w.gathering_participations)
  Reported proto w (err _, w') =
      (w'.reports ≡ w.reports)
      × (w'.blocked_users ≡ w.blocked_users)
      × (w'.friends ≡ w.friends)
      × (w'.gathering_participations ≡ w.gathering_participations)

  -- A report of a friend that returns has added the report and the block, removed the rows that
  -- link the two users and removed the pending invitations between them; one that throws leaves
  -- the four tables as they were.
  pub report-Reported : (proto : ReportPrototype) (w : World) → Reported proto w (report proto w)
  unfolding report report_transaction report_body rolled_back
  report-Reported proto w =
      let a = proto.reporter_id in
      let b = proto.reported_id in
      ground (
        arith,
        transactional-eq (report_body proto) w,
        p.create_lem report_clash (report_entity proto (p.uuid w.draws) (p.clock w.ticks))
            w.reports,
        p.create_lem blocked_clash (blocked_user a b (p.clock (suc w.ticks))) w.blocked_users,
        p.delete_many_lem (links a b) w.friends,
        p.delete_many_lem (is_pending_between w.gatherings a b) w.gathering_participations,
      )
