-- ===== src/Reports/GroupOutcomes.antt =====
-- `report` of src/domain/components/report/group-reports.write.service.ts.
use be.Prelude.{true, ◌∷◌, ◌≡◌, arith, replace, some_of}
use be.Store.{
  GroupParticipationStatus, World, Result, ok, err, Platform, ⊤, rolled_back, transactional-eq,
}
use be.Groups.ParticipationsRepository.{is_of}
use be.Reports.Entities.{ReportPrototype, report_entity}
use be.Reports.Repository.{report_clash}
use be.Reports.GroupReports.{report, report_body}

module _ ⦃p : Platform⦄ where
  -- What a report that throws leaves as it was, and what one that returns has written.
  abbrev pub Marked : ReportPrototype → World → Result ⊤ × World → Type 0
  Marked proto w (ok _, w') =
      (w'.reports ≡ report_entity proto (p.uuid w.draws) (p.clock w.ticks) ∷ w.reports)
      × (some_of (is_of proto.reported_id proto.reporter_id) w.group_participations ≡ true)
      × (w'.group_participations
          ≡ replace (is_of proto.reported_id proto.reporter_id)
              (λ gp. record gp { status = GroupParticipationStatus.reported })
              w.group_participations)
  Marked proto w (err _, w') =
      (w'.reports ≡ w.reports) × (w'.group_participations ≡ w.group_participations)

  -- A report of a group that returns has added the report, found a participation of the reporter
  -- in the group and marked it as reported; one that throws leaves reports and participations as
  -- they were.
  pub report-Marked : (proto : ReportPrototype) (w : World) → Marked proto w (report proto w)
  unfolding report report_body rolled_back
  report-Marked proto w = ground (
    arith,
    transactional-eq (report_body proto) w,
    p.create_lem report_clash (report_entity proto (p.uuid w.draws) (p.clock w.ticks)) w.reports,
    p.update_lem (is_of proto.reported_id proto.reporter_id)
        (λ gp. record gp { status = GroupParticipationStatus.reported }) w.group_participations,
  )
