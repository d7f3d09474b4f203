-- ===== src/Gatherings/Queries.antt =====
-- src/infrastructure/repositories/gathering/gatherings-prisma.repository.ts: the paginated lists of
-- gatherings and the detail of a gathering.
use be.Prelude.{
  ℕ, String, Bool, true, false, not, ◌&&◌, ◌||◌, Option, none, some, List, [], map, ◌==◌, ltb, leb,
  asc, str_eq, is_some, if◌then◌else◌, keep, some_of, take, join, left_join, group_by, one_of,
  collect_by, values, map_option, then_by,
}
use be.Store.{
  Uuid, Time, User, Feed, Gathering, GatheringParticipation, GatheringParticipationStatus, World,
  Action, Platform, gets, active_feeds, active_gatherings,
}
use be.Paging.{DateIdPaginationInput, PaginatedDateRangeInput, before_date_id, last_first}
use be.Gatherings.Types.{ListedGathering, EndedGathering, GatheringDetail, ShownUser}

abbrev pub is_accepted : GatheringParticipationStatus → Bool
is_accepted GatheringParticipationStatus.accepted = true
is_accepted _ = false

abbrev pub is_of : Uuid → Option Uuid → Bool
is_of id none = false
is_of id (some x) = x == id

abbrev pub listed : Gathering → ListedGathering
listed g = record {
  id = g.id;
  name = g.name;
  description = g.description;
  gathering_date = g.gathering_date;
  invitation_image_url = g.invitation_image_url;
}

-- The participations of a user that the user accepted, with their gatherings.
abbrev pub joined : Uuid → World → List (GatheringParticipation × Gathering)
joined user_id w =
    keep (λ row. row.0.participant_id == user_id && is_accepted row.0.status)
      (join (λ gp g. g.id == gp.gathering_id) w.gathering_participations (active_gatherings w))

-- The row of a gathering and one of its feeds tells whether the feed is the user's.
abbrev is_posted : Uuid → Option Feed → Bool
is_posted user_id none = false
is_posted user_id (some f) = f.writer_id == user_id

abbrev ended : Uuid → Gathering × Option Feed → EndedGathering
ended user_id (g, f) = record {
  id = g.id;
  name = g.name;
  description = g.description;
  gathering_date = g.gathering_date;
  invitation_image_url = g.invitation_image_url;
  is_feed_posted = is_posted user_id f;
}

-- A row of one of the user's feeds marks the gathering.
abbrev pub mark : Uuid → Gathering × Option Feed → EndedGathering → EndedGathering
mark user_id row shown =
    if is_posted user_id row.1 then record shown { is_feed_posted = true } else shown

-- The host and the members of a detail, without the data of a withdrawn user.
abbrev shown : Option String → User → ShownUser
shown withdrawn_image u =
    if is_some u.deleted_at
    then record {
      id = none;
      account_id = "탈퇴한 사용자";
      name = "";
      profile_image_url = withdrawn_image;
    }
    else record {
      id = some u.id;
      account_id = u.account_id;
      name = u.name;
      profile_image_url = u.profile_image_url;
    }

module _ ⦃p : Platform⦄ where
  -- The condition on the cursor of a list in a range: at the start of the range the cursor's own
  -- date is included.
  unfoldable pub from_cursor : PaginatedDateRangeInput → Time → Uuid → Bool
  from_cursor input time id =
      let at = p.date input.cursor.created_at in
      (if str_eq input.max_date input.cursor.created_at then leb time at else ltb time at)
      || (time == at && ltb input.cursor.id id)

  unfoldable pub in_range : PaginatedDateRangeInput → Time → Bool
  in_range input time = leb (p.date input.min_date) time && leb time (p.date input.max_date)

  unfoldable pub page_ids : ℕ → List (GatheringParticipation × Gathering) → List Uuid
  unfolding last_first
  page_ids limit rows =
      map (λ row. row.1.id)
        (take limit (
          p.order_by (last_first (λ row. row.1.gathering_date) (λ row. row.1.id)) (
            group_by
              (λ row other.
                row.1.id == other.1.id && row.1.gathering_date == other.1.gathering_date)
              rows)))

  unfoldable pub find_gatherings : (World → List Uuid) → Action (List ListedGathering)
  unfolding last_first
  find_gatherings subquery = gets (λ w. values (
      collect_by (λ g. g.id) listed (λ g shown. shown)
        (p.order_by (last_first (λ g. g.gathering_date) (λ g. g.id))
          (keep (λ g. one_of (subquery w) g.id) (active_gatherings w)))
        []))

  unfoldable pub waiting_ids : Uuid → PaginatedDateRangeInput → World → List Uuid
  unfolding from_cursor in_range
  waiting_ids user_id input w = page_ids input.limit (
      keep
        (λ row.
          in_range input row.1.gathering_date
          && from_cursor input row.1.gathering_date row.1.id
          && not (is_some row.1.ended_at))
        (joined user_id w))

  unfoldable pub find_by_user_id : Uuid → PaginatedDateRangeInput → Action (List ListedGathering)
  unfolding find_gatherings waiting_ids
  find_by_user_id user_id input = find_gatherings (waiting_ids user_id input)

  -- The condition on the cursor of the ascending list.
  unfoldable pub up_from_cursor : PaginatedDateRangeInput → Time → Uuid → Bool
  up_from_cursor input time id =
      let at = p.date input.cursor.created_at in
      (if str_eq input.cursor.created_at input.min_date
        then leb (p.date input.min_date) time && leb time (p.date input.max_date)
        else ltb at time && leb time (p.date input.max_date))
      || (time == at && ltb input.cursor.id id)

  unfoldable pub find_all_by_user_id :
      Uuid → PaginatedDateRangeInput → Action (List ListedGathering)
  unfolding up_from_cursor
  find_all_by_user_id user_id input = gets (λ w. map listed (
      take input.limit (
        p.order_by (then_by (asc (λ g. g.gathering_date)) (asc (λ g. g.id))) (
          keep
            (λ g.
              not (is_some g.deleted_at)
              && some_of
                  (λ gp.
                    gp.gathering_id == g.id
                    && is_accepted gp.status
                    && gp.participant_id == user_id)
                  w.gathering_participations
              && up_from_cursor input g.gathering_date g.id)
            w.gatherings))))

  unfoldable pub find_ended_gatherings_by_user_id :
      Uuid → PaginatedDateRangeInput → Action (List EndedGathering)
  unfolding last_first from_cursor in_range
  find_ended_gatherings_by_user_id user_id input = gets (λ w.
      let ids = page_ids input.limit (
        keep
          (λ row.
            in_range input row.1.gathering_date
            && from_cursor input row.1.gathering_date row.1.id
            && is_some row.1.ended_at)
          (joined user_id w)) in
      values (
        collect_by (λ row. row.0.id) (ended user_id) (mark user_id)
          (p.order_by (last_first (λ row. row.0.gathering_date) (λ row. row.0.id)) (
            keep (λ row. one_of ids row.0.id)
              (left_join (λ g f. is_of g.id f.gathering_id) (active_gatherings w)
                (active_feeds w))))
          []))

  -- The ended gatherings that the user took part in and wrote no feed of.
  unfoldable pub unwritten_ids : Uuid → DateIdPaginationInput → World → List Uuid
  unfolding before_date_id
  unwritten_ids user_id input w =
      let written =
        keep (λ f. not (is_some f.deleted_at) && is_some f.gathering_id && f.writer_id == user_id)
          (active_feeds w) in
      page_ids input.limit (
        keep
          (λ row.
            not (is_some row.1.deleted_at)
            && is_some row.1.ended_at
            && not (some_of (λ f. is_of row.1.id f.gathering_id) written)
            && before_date_id input.cursor row.1.gathering_date row.1.id)
          (joined user_id w))

  unfoldable pub find_gatherings_without_feed_by_user_id :
      Uuid → DateIdPaginationInput → Action (List ListedGathering)
  unfolding find_gatherings unwritten_ids
  find_gatherings_without_feed_by_user_id user_id input =
      find_gatherings (unwritten_ids user_id input)

  unfoldable pub find_detail_by_id : Uuid → Action (Option GatheringDetail)
  find_detail_by_id id = gets (λ w.
      map_option
        (λ row. record {
          id = row.0.id;
          name = row.0.name;
          description = row.0.description;
          gathering_date = row.0.gathering_date;
          invitation_image_url = row.0.invitation_image_url;
          address = row.0.address;
          host_user = shown none row.1;
          members =
              map (λ participation. shown (some "") participation.1)
                (keep (λ participation. not (participation.1.id == row.1.id))
                  (join (λ gp u. gp.participant_id == u.id)
                    (p.find_many (λ gp. gp.gathering_id == id) w.gathering_participations)
                    w.users));
        })
        (p.find_first (λ row. row.0.id == id && not (is_some row.0.deleted_at))
          (join (λ g u. g.host_user_id == u.id) w.gatherings w.users)))
