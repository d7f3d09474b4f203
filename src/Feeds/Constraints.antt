-- ===== src/Feeds/Constraints.antt =====
-- The constraints of `createGatheringFeed` of src/domain/services/feed/feeds.service.ts.
use be.Prelude.{
  ◌+◌, ◌*◌, Bool, true, not, ◌&&◌, Option, none, some, ◌≡◌, arith, ◌==◌, if◌then◌else◌, some_of,
  ltb, Option-cases, inl, inr, how_many, ◌≤◌,
}
use mathlib.Core.List.{Memᴰ}
use be.Store.{
  Uuid, Time, Gathering, GatheringParticipation, Feed, World, Result, ok, err, Platform, ⊤,
  gathering_not_completed, forbidden, feed_creation_period_exceeded, duplicate_feed,
  some_of-find_first, find_first_unique,
}
use be.Dates.{day}
use be.Dates.Limits.{calc_date_diff-is_below}
use be.Gatherings.Repository.{is_active}
use be.Feeds.Repository as FeedsRepository
use be.Feeds.Service.{check_create_gathering_feed_constraints}

abbrev pub is_participation_of : Uuid → Uuid → GatheringParticipation → Bool
is_participation_of gathering user gp = gp.gathering_id == gathering && gp.participant_id == user

abbrev pub is_feed_of : Uuid → Uuid → Feed → Bool
is_feed_of gathering writer f =
    FeedsRepository.is_id f.gathering_id gathering
    && f.writer_id == writer
    && FeedsRepository.is_active f

-- The answer, in the order of the tests: not ended, no participant, too late, written before.
abbrev pub constraints_verdict : Option Time → Bool → Time → Bool → Result ⊤
constraints_verdict none participates today written = err gathering_not_completed
constraints_verdict (some ended_at) participates today written =
    if not participates
    then err forbidden
    else if not (ltb today (ended_at + 30 * day))
    then err feed_creation_period_exceeded
    else if written
    then err duplicate_feed
    else ok tt

module _ ⦃p : Platform⦄ where
  -- For the only active gathering with the id, the constraints answer by the first that fails: the
  -- gathering has not ended, the writer has no participation, 30 days or more have passed since
  -- the end, or the writer has an active feed on it; they pass if none fails, and they change
  -- nothing.
  pub constraints-verdict :
      (gathering writer : Uuid) (today : Time) (g : Gathering) (w : World)
      → how_many (is_active gathering) w.gatherings ≤ 1
      → Memᴰ g w.gatherings
      → is_active gathering g ≡ true
      → check_create_gathering_feed_constraints gathering writer today w ≡ (
        constraints_verdict g.ended_at
            (some_of (is_participation_of gathering writer) w.gathering_participations)
            today
            (some_of (is_feed_of gathering writer) w.feeds),
        w,
      )
  unfolding check_create_gathering_feed_constraints
  constraints-verdict gathering writer today g w one m e = elim (Option-cases g.ended_at) [
    | inl running ↦ ground (arith, find_first_unique (is_active gathering) w.gatherings g one m e)
    | inr (ended_at, ended) ↦ ground (
      arith,
      find_first_unique (is_active gathering) w.gatherings g one m e,
      some_of-find_first (is_participation_of gathering writer) w.gathering_participations,
      calc_date_diff-is_below today ended_at 30,
      some_of-find_first (is_feed_of gathering writer) w.feeds,
    )
  ]
